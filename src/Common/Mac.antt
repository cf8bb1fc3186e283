-- ===== src/Common/Mac.antt =====
-- net.ParseMAC and net.HardwareAddr.String.
use unifi_emu.Common.{
  ℕ, ◌+◌, ◌-◌, ◌*◌, ◌/◌, ◌%◌, ◌<◌, ◌≡◌, ap, true, false, Bool, ◌&&◌, ◌||◌, [], ◌∷◌, Option, none,
  some, Text, Bytes, length, All, Bool-cases, inl, inr, leb, ltb, ◌==◌, if◌then◌else◌, arith,
}
use unifi_emu.Common.Endian.{IsByte}

unfoldable pub hex_digit : ℕ → Option ℕ
hex_digit c =
    if leb b'0' c && leb c b'9'
    then some (c - b'0')
    else if leb b'a' c && leb c b'f'
    then some (c - b'a' + 10)
    else if leb b'A' c && leb c b'F'
    then some (c - b'A' + 10)
    else none

abbrev pub hex_pair : Option ℕ → Option ℕ → Option ℕ
hex_pair (some h) (some l) = some (h * 16 + l)
hex_pair (some h) none = none
hex_pair none l = none

-- xtoi2: the byte that two hexadecimal digits spell.
abbrev pub xtoi2 : ℕ → ℕ → Option ℕ
xtoi2 a b = hex_pair (hex_digit a) (hex_digit b)

abbrev pub cons_byte : Option ℕ → Option Bytes → Option Bytes
cons_byte (some b) (some bs) = some (b ∷ bs)
cons_byte (some b) none = none
cons_byte none bs = none

-- Two digits to a byte with `sep` between, for a length that is one below a multiple of three.
unfoldable pub parse_pairs : ℕ → Text → Option Bytes
parse_pairs sep (a ∷ b ∷ []) = cons_byte (xtoi2 a b) (some [])
parse_pairs sep (a ∷ b ∷ c ∷ s) =
    let rest = parse_pairs sep s in if c == sep then cons_byte (xtoi2 a b) rest else none
parse_pairs sep _ = none

-- Four digits to two bytes with dots between.
unfoldable pub parse_quads : Text → Option Bytes
parse_quads (a ∷ b ∷ c ∷ d ∷ []) = cons_byte (xtoi2 a b) (cons_byte (xtoi2 c d) (some []))
parse_quads (a ∷ b ∷ c ∷ d ∷ e ∷ s) =
    let rest = parse_quads s in
    if e == b'.' then cons_byte (xtoi2 a b) (cons_byte (xtoi2 c d) rest) else none
parse_quads _ = none

abbrev pub is_mac_length : ℕ → Bool
is_mac_length n = n == 6 || n == 8 || n == 20

-- net.ParseMAC: `none` is the error.
unfoldable pub parse_mac : Text → Option Bytes
unfolding hex_digit parse_pairs parse_quads
parse_mac (c0 ∷ c1 ∷ c2 ∷ c3 ∷ c4 ∷ rest) =
    let s = c0 ∷ c1 ∷ c2 ∷ c3 ∷ c4 ∷ rest in
    let n = length s + 1 in
    if ltb (length s) 14
    then none
    else if c2 == b':' || c2 == b'-'
    then (if n % 3 == 0 && is_mac_length (n / 3) then parse_pairs c2 s else none)
    else if c4 == b'.'
    then (if n % 5 == 0 && is_mac_length (2 * n / 5) then parse_quads s else none)
    else none
parse_mac _ = none

unfoldable pub hex_char : ℕ → ℕ
hex_char d = if ltb d 10 then b'0' + d else b'a' + (d - 10)

-- net.HardwareAddr.String: two lower-case digits to a byte, joined by colons.
unfoldable pub mac_string : Bytes → Text
unfolding hex_char
mac_string [] = []
mac_string (b ∷ []) = hex_char (b / 16) ∷ hex_char (b % 16) ∷ []
mac_string (b ∷ c ∷ bs) = hex_char (b / 16) ∷ hex_char (b % 16) ∷ b':' ∷ mac_string (c ∷ bs)

hex_digit-hex_char : (d : ℕ) → d < 16 → hex_digit (hex_char d) ≡ some d
unfolding hex_digit hex_char
hex_digit-hex_char d h = ground arith

xtoi2-hex_char : (b : ℕ) → b < 256 → xtoi2 (hex_char (b / 16)) (hex_char (b % 16)) ≡ some b
xtoi2-hex_char b h =
    rw (hex_digit-hex_char (b / 16) (omega arith), hex_digit-hex_char (b % 16) (omega arith))
      (ap some (omega arith))

-- The canonical spelling of a six-byte address is read back as the address.
pub parse_mac-mac_string :
    (hw : Bytes) → length hw ≡ 6 → All IsByte hw → parse_mac (mac_string hw) ≡ some hw
unfolding parse_mac mac_string
parse_mac-mac_string (a ∷ b ∷ c ∷ d ∷ e ∷ f ∷ []) h k = rw (
  xtoi2-hex_char a (omega arith),
  xtoi2-hex_char b (omega arith),
  xtoi2-hex_char c (omega arith),
  xtoi2-hex_char d (omega arith),
  xtoi2-hex_char e (omega arith),
  xtoi2-hex_char f (omega arith),
)
parse_mac-mac_string _ h k = absurd (omega arith)

abbrev FitsByte : Option ℕ → Type 0
FitsByte none = Unit {0}
FitsByte (some b) = IsByte b

abbrev FitBytes : Option Bytes → Type 0
FitBytes none = Unit {0}
FitBytes (some bs) = All IsByte bs

FitsByte-xtoi2 : (a b : ℕ) → FitsByte (xtoi2 a b)
unfolding hex_digit
FitsByte-xtoi2 a b = ground arith

FitBytes-cons_byte :
    (o : Option ℕ) (bs : Option Bytes) → FitsByte o → FitBytes bs → FitBytes (cons_byte o bs)
FitBytes-cons_byte none bs h k = tt
FitBytes-cons_byte (some b) none h k = tt
FitBytes-cons_byte (some b) (some bs) h k = (h, k)

FitBytes-parse_pairs : (sep : ℕ) (s : Text) → FitBytes (parse_pairs sep s)
unfolding parse_pairs
FitBytes-parse_pairs sep [] = tt
FitBytes-parse_pairs sep (a ∷ []) = tt
FitBytes-parse_pairs sep (a ∷ b ∷ []) =
    FitBytes-cons_byte (xtoi2 a b) (some []) (FitsByte-xtoi2 a b) tt
FitBytes-parse_pairs sep (a ∷ b ∷ c ∷ s) =
    let more =
      FitBytes-cons_byte (xtoi2 a b) (parse_pairs sep s) (FitsByte-xtoi2 a b)
        (FitBytes-parse_pairs sep s) in
    elim (Bool-cases (c == sep)) [ inl e ↦ rw e more | inr e ↦ rw e tt ]

two_bytes :
    (a b c d : ℕ) (o : Option Bytes)
    → FitBytes o
    → FitBytes (cons_byte (xtoi2 a b) (cons_byte (xtoi2 c d) o))
two_bytes a b c d o h =
    FitBytes-cons_byte (xtoi2 a b) (cons_byte (xtoi2 c d) o) (FitsByte-xtoi2 a b)
      (FitBytes-cons_byte (xtoi2 c d) o (FitsByte-xtoi2 c d) h)

FitBytes-parse_quads : (s : Text) → FitBytes (parse_quads s)
unfolding parse_quads
FitBytes-parse_quads [] = tt
FitBytes-parse_quads (a ∷ []) = tt
FitBytes-parse_quads (a ∷ b ∷ []) = tt
FitBytes-parse_quads (a ∷ b ∷ c ∷ []) = tt
FitBytes-parse_quads (a ∷ b ∷ c ∷ d ∷ []) = two_bytes a b c d (some []) tt
FitBytes-parse_quads (a ∷ b ∷ c ∷ d ∷ e ∷ s) =
    let more = two_bytes a b c d (parse_quads s) (FitBytes-parse_quads s) in
    elim (Bool-cases (e == b'.')) [ inl p ↦ rw p more | inr p ↦ rw p tt ]

fit_if : (b : Bool) (x y : Option Bytes) → FitBytes x → FitBytes y → FitBytes (if b then x else y)
fit_if true x y h k = h
fit_if false x y h k = k

FitBytes-parse_mac : (s : Text) → FitBytes (parse_mac s)
unfolding parse_mac
FitBytes-parse_mac [] = tt
FitBytes-parse_mac (a ∷ []) = tt
FitBytes-parse_mac (a ∷ b ∷ []) = tt
FitBytes-parse_mac (a ∷ b ∷ c ∷ []) = tt
FitBytes-parse_mac (a ∷ b ∷ c ∷ d ∷ []) = tt
FitBytes-parse_mac (a ∷ b ∷ c ∷ d ∷ e ∷ s) =
    let t = a ∷ b ∷ c ∷ d ∷ e ∷ s in
    let n = length t + 1 in
    let pairs = if n % 3 == 0 && is_mac_length (n / 3) then parse_pairs c t else none in
    let quads = if n % 5 == 0 && is_mac_length (2 * n / 5) then parse_quads t else none in
    let dotted = if e == b'.' then quads else none in
    let pairs_fit : FitBytes pairs =
      fit_if (n % 3 == 0 && is_mac_length (n / 3)) (parse_pairs c t) none (FitBytes-parse_pairs c t)
        tt in
    let quads_fit : FitBytes quads =
      fit_if (n % 5 == 0 && is_mac_length (2 * n / 5)) (parse_quads t) none (FitBytes-parse_quads t)
        tt in
    fit_if (ltb (length t) 14) none (if c == b':' || c == b'-' then pairs else dotted) tt (
      fit_if (c == b':' || c == b'-') pairs dotted pairs_fit
        (fit_if (e == b'.') quads none quads_fit tt))

-- What a MAC is read as are bytes.
pub parse_mac-All : (s : Text) {hw : Bytes} → parse_mac s ≡ some hw → All IsByte hw
parse_mac-All s h = rw h at (FitBytes-parse_mac s)
