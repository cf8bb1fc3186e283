-- ===== src/Net.antt =====
-- Functions of Go's net and strconv that the input checks use, and the outcomes of its decoders.
-- `none` is the error of a function that returns one.
pub mod Addresses
use unifi_emu.Common.{
  ℕ, zero, suc, ◌+◌, ◌-◌, ◌*◌, ◌≡◌, Bool, true, false, not, ◌&&◌, ◌||◌, List, [], ◌∷◌, ◌++◌, Option,
  none, some, Text, Bytes, length, leb, ltb, ◌==◌, if◌then◌else◌,
}
use unifi_emu.Common.Int.{ℤ, pos, negsuc}
use unifi_emu.Common.Strings.{split, cut}
use unifi_emu.Inform.Tables.{decimal_text}

-- What a decoder gives first: a value, the end of the input, or an error; and what follows it.
pub data Decoded (A : Type 0) : Type 0 where
  decoded : A → Decoded A
  ended malformed : Decoded A

pub data Following : Type 0 where
  nothing_more another_document broken : Following

abbrev pub is_digit : ℕ → Bool
is_digit c = leb b'0' c && leb c b'9'

-- The number that decimal digits spell, after those that spell `acc`.
unfoldable pub digits_from : ℕ → Text → Option ℕ
digits_from acc [] = some acc
digits_from acc (c ∷ s) =
    let rest = digits_from (acc * 10 + (c - b'0')) s in if is_digit c then rest else none

abbrev pub digits : Text → Option ℕ
digits [] = none
digits (c ∷ s) = digits_from 0 (c ∷ s)

-- An int64, of a sign and a magnitude.
abbrev pub positive_int : Option ℕ → Option ℤ
positive_int none = none
positive_int (some n) = if ltb n 9223372036854775808 then some (pos n) else none

abbrev pub negated : ℕ → ℤ
negated zero = pos 0
negated (suc n) = negsuc n

abbrev pub negative_int : Option ℕ → Option ℤ
negative_int none = none
negative_int (some n) = if leb n 9223372036854775808 then some (negated n) else none

-- strconv.Atoi.
unfoldable pub atoi : Text → Option ℤ
atoi [] = none
atoi (c ∷ s) =
    if c == b'-'
    then negative_int (digits s)
    else if c == b'+'
    then positive_int (digits s)
    else positive_int (digits (c ∷ s))

abbrev pub octet_value : Option ℕ → Option ℕ
octet_value none = none
octet_value (some n) = if leb n 255 then some n else none

-- A field of an IPv4 address: no leading zero, and 255 at most.
unfoldable pub parse_octet : Text → Option ℕ
parse_octet [] = none
parse_octet (c ∷ []) = octet_value (digits (c ∷ []))
parse_octet (c ∷ d ∷ s) = if c == b'0' then none else octet_value (digits (c ∷ d ∷ s))

abbrev pub four : Option ℕ → Option ℕ → Option ℕ → Option ℕ → Option Bytes
four (some a) (some b) (some c) (some d) = some (a ∷ b ∷ c ∷ d ∷ [])
four (some a) (some b) (some c) none = none
four (some a) (some b) none d = none
four (some a) none c d = none
four none b c d = none

abbrev pub four_fields : List Text → Option Bytes
four_fields (a ∷ b ∷ c ∷ d ∷ []) =
    four (parse_octet a) (parse_octet b) (parse_octet c) (parse_octet d)
four_fields _ = none

unfoldable pub parse_ip4 : Text → Option Bytes
parse_ip4 s = four_fields (split b'.' s)

-- `net.ParseIP(s).To4()`: the first dot or colon decides the family. What the parse of an IPv6 text
-- gives to To4 is an argument.
unfoldable pub to4_from : (Text → Option Bytes) → Text → Text → Option Bytes
to4_from ip6 whole [] = none
to4_from ip6 whole (c ∷ s) =
    let rest = to4_from ip6 whole s in
    if c == b'.'
    then parse_ip4 whole
    else if c == b':'
    then ip6 whole
    else if c == b'%'
    then none
    else rest

unfoldable pub parse_ip_to4 : (Text → Option Bytes) → Text → Option Bytes
parse_ip_to4 ip6 s = to4_from ip6 s s

-- net.IP.String, of an IPv4 address.
unfoldable pub ip4_text : Bytes → Text
ip4_text [] = []
ip4_text (a ∷ []) = decimal_text a
ip4_text (a ∷ b ∷ bs) = decimal_text a ++ (b'.' ∷ ip4_text (b ∷ bs))

unfoldable pub has_char : ℕ → Text → Bool
has_char x [] = false
has_char x (c ∷ s) = c == x || has_char x s

abbrev pub port_after : Text → Text → Option (Text × Text)
port_after host [] = none
port_after host (c ∷ port) =
    if c == b':' && not (has_char b':' port) then some (host, port) else none

abbrev pub split_bracket : Text → Option (Text × Text) → Option (Text × Text)
split_bracket s none = none
split_bracket s (some (host, rest)) =
    if has_char b'[' s || has_char b']' rest then none else port_after host rest

abbrev pub split_plain : Text → Option (Text × Text) → Option (Text × Text)
split_plain s none = none
split_plain s (some (host, port)) =
    if has_char b':' port || (has_char b'[' s || has_char b']' s) then none else some (host, port)

-- net.SplitHostPort.
unfoldable pub split_host_port : Text → Option (Text × Text)
split_host_port [] = none
split_host_port (c ∷ s) =
    if c == b'[' then split_bracket s (cut b']' s) else split_plain (c ∷ s) (cut b':' (c ∷ s))
