-- ===== src/Common/Endian.antt =====
-- encoding/binary.BigEndian on byte sequences, and fixed-width conversions.
use unifi_emu.Common.{ℕ, ◌+◌, ◌*◌, ◌/◌, ◌%◌, ◌<◌, ◌≡◌, [], ◌∷◌, Bytes, arith}

abbrev pub IsByte : ℕ → Type 0
IsByte b = b < 256

abbrev pub IsU16 : ℕ → Type 0
IsU16 v = v < 65536

abbrev pub IsU32 : ℕ → Type 0
IsU32 v = v < 4294967296

-- `uint16(v)` and `uint32(v)`.
abbrev pub u16 : ℕ → ℕ
u16 v = v % 65536

abbrev pub u32 : ℕ → ℕ
u32 v = v % 4294967296

-- PutUint16, PutUint32: the bytes of a uint16 or uint32, highest first.
abbrev pub put_uint16 : ℕ → Bytes
put_uint16 v = v / 256 % 256 ∷ v % 256 ∷ []

abbrev pub put_uint32 : ℕ → Bytes
put_uint32 v = v / 16777216 % 256 ∷ v / 65536 % 256 ∷ v / 256 % 256 ∷ v % 256 ∷ []

-- Uint16, Uint32 at the front of a slice; Go panics on a shorter one, and the callers check.
abbrev pub uint16 : Bytes → ℕ
uint16 (a ∷ b ∷ r) = a * 256 + b
uint16 _ = 0

abbrev pub uint32 : Bytes → ℕ
uint32 (a ∷ b ∷ c ∷ d ∷ r) = a * 16777216 + b * 65536 + c * 256 + d
uint32 _ = 0

pub uint16-put_uint16 : (v : ℕ) → IsU16 v → uint16 (put_uint16 v) ≡ v
uint16-put_uint16 v h = omega arith

pub uint32-put_uint32 : (v : ℕ) → IsU32 v → uint32 (put_uint32 v) ≡ v
uint32-put_uint32 v h = omega arith
