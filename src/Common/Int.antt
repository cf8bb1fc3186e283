-- ===== src/Common/Int.antt =====
-- Go's int64: integers, and the product of a count with a unit, which wraps.
use unifi_emu.Common.{ℕ, zero, suc, ◌+◌, ◌-◌, ◌*◌, ◌%◌, ◌^◌, Bool, true, false, ltb, if◌then◌else◌}

-- `negsuc n` is -(n + 1).
pub data ℤ : Type 0 where
  pos : ℕ → ℤ
  negsuc : ℕ → ℤ

abbrev pub is_positive : ℤ → Bool
is_positive (pos zero) = false
is_positive (pos (suc n)) = true
is_positive (negsuc n) = false

-- A bit pattern below 2 ^ 64 as a signed number.
abbrev pub int64 : ℕ → ℤ
int64 n = if ltb n (2 ^ 63) then pos n else negsuc (2 ^ 64 - n - 1)

abbrev pub nanoseconds : ℕ
nanoseconds = 1_000_000_000

-- `time.Duration(n) * time.Second` for a positive n.
abbrev pub seconds : ℤ → ℤ
seconds (pos n) = int64 (n * nanoseconds % 2 ^ 64)
seconds (negsuc n) = int64 ((2 ^ 64 - (n + 1) * nanoseconds % 2 ^ 64) % 2 ^ 64)
