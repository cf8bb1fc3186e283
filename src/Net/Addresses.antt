-- ===== src/Net/Addresses.antt =====
-- net.ParseIP and net.IP.String, on IPv4 addresses.
use unifi_emu.Common.{
  ℕ, zero, suc, ◌+◌, ◌/◌, ◌%◌, ◌<◌, ◌≤◌, ◌≡◌, refl, subst, false, List, [], ◌∷◌, ◌++◌, Option, none,
  some, Text, Bytes, length, leb, ltb, ◌==◌, All, arith, Bool-cases, inl, inr,
}
use unifi_emu.Common.Strings.{split}
use unifi_emu.Inform.Tables.{decimal_text, decimal_digits}
use unifi_emu.Net.{
  octet_value, parse_octet, digits, four, four_fields, parse_ip4, to4_from, parse_ip_to4, ip4_text,
  has_char,
}

-- Four octets.
abbrev pub IsIp4 : Bytes → Type 0
IsIp4 ip = (length ip ≡ 4) × All (λ b. b ≤ 255) ip

abbrev IsOctet : Option ℕ → Type 0
IsOctet none = Unit {0}
IsOctet (some n) = n ≤ 255

octet_value-IsOctet : (o : Option ℕ) → IsOctet (octet_value o)
octet_value-IsOctet none = tt
octet_value-IsOctet (some m) = elim (Bool-cases (leb m 255)) [
  | inl e ↦ let small : m ≤ 255 = ground arith in rw e small
  | inr e ↦ rw e tt
]

parse_octet-IsOctet : (s : Text) → IsOctet (parse_octet s)
unfolding parse_octet
parse_octet-IsOctet [] = tt
parse_octet-IsOctet (c ∷ []) = octet_value-IsOctet (digits (c ∷ []))
parse_octet-IsOctet (c ∷ d ∷ s) = elim (Bool-cases (c == b'0')) [
  | inl e ↦ rw e tt
  | inr e ↦ rw e (octet_value-IsOctet (digits (c ∷ d ∷ s)))
]

some-injective : (a b : Bytes) → ◌≡◌ {A = Option Bytes} (some a) (some b) → a ≡ b
some-injective a b h = cc

four-IsIp4 :
    (a b c d : Option ℕ) (ip : Bytes)
    → IsOctet a
    → IsOctet b
    → IsOctet c
    → IsOctet d
    → four a b c d ≡ some ip
    → IsIp4 ip
four-IsIp4 (some a) (some b) (some c) (some d) ip h i j k e =
    subst IsIp4 (some-injective (a ∷ b ∷ c ∷ d ∷ []) ip e) (refl, (h, (i, (j, (k, tt)))))
four-IsIp4 (some a) (some b) (some c) none ip h i j k e = cc
four-IsIp4 (some a) (some b) none d ip h i j k e = cc
four-IsIp4 (some a) none c d ip h i j k e = cc
four-IsIp4 none b c d ip h i j k e = cc

four_fields-IsIp4 : (fields : List Text) (ip : Bytes) → four_fields fields ≡ some ip → IsIp4 ip
four_fields-IsIp4 [] ip e = cc
four_fields-IsIp4 (a ∷ []) ip e = cc
four_fields-IsIp4 (a ∷ b ∷ []) ip e = cc
four_fields-IsIp4 (a ∷ b ∷ c ∷ []) ip e = cc
four_fields-IsIp4 (a ∷ b ∷ c ∷ d ∷ x ∷ rest) ip e = cc
four_fields-IsIp4 (a ∷ b ∷ c ∷ d ∷ []) ip e =
    four-IsIp4 (parse_octet a) (parse_octet b) (parse_octet c) (parse_octet d) ip
      (parse_octet-IsOctet a) (parse_octet-IsOctet b) (parse_octet-IsOctet c)
      (parse_octet-IsOctet d) e

pub parse_ip4-IsIp4 : (s : Text) (ip : Bytes) → parse_ip4 s ≡ some ip → IsIp4 ip
unfolding parse_ip4
parse_ip4-IsIp4 s ip h = four_fields-IsIp4 (split b'.' s) ip h

digit-colon : (d : ℕ) → d < 10 → ((b'0' + d) == b':') ≡ false
digit-colon d h = ground arith

has_char-decimal_digits :
    (fuel n : ℕ) (tail : Text)
    → has_char b':' tail ≡ false
    → has_char b':' (decimal_digits fuel n tail) ≡ false
unfolding decimal_digits has_char
has_char-decimal_digits zero n tail h = h
has_char-decimal_digits (suc fuel) n tail h = elim (Bool-cases (ltb n 10)) [
  | inl e ↦ let small : n < 10 = ground arith in rw (e, digit-colon n small) h
  | inr e ↦
      rw e (has_char-decimal_digits fuel (n / 10) _ (rw (digit-colon (n % 10) (omega arith)) h))
]

has_char-append :
    (x : ℕ) (s t : Text) → has_char x s ≡ false → has_char x t ≡ false → has_char x (s ++ t) ≡ false
unfolding has_char
has_char-append x [] t h k = k
has_char-append x (c ∷ s) t h k = elim (Bool-cases (c == x)) [
  | inl e ↦ cc (rw e at h)
  | inr e ↦ rw e (has_char-append x s t (rw e at h) k)
]

has_char-ip4_text : (ip : Bytes) → has_char b':' (ip4_text ip) ≡ false
unfolding ip4_text has_char decimal_text
has_char-ip4_text [] = refl
has_char-ip4_text (a ∷ []) = has_char-decimal_digits (a + 1) a [] refl
has_char-ip4_text (a ∷ b ∷ bs) =
    has_char-append b':' (decimal_digits (a + 1) a []) (b'.' ∷ ip4_text (b ∷ bs))
      (has_char-decimal_digits (a + 1) a [] refl) (has_char-ip4_text (b ∷ bs))

to4_from-parse_ip4 :
    (ip6 : Text → Option Bytes) (whole s : Text) (ip : Bytes)
    → has_char b':' s ≡ false
    → to4_from ip6 whole s ≡ some ip
    → parse_ip4 whole ≡ some ip
unfolding to4_from has_char
to4_from-parse_ip4 ip6 whole [] ip n h = cc
to4_from-parse_ip4 ip6 whole (c ∷ s) ip n h = elim (Bool-cases (c == b'.')) [
  | inl e ↦ rw e at h
  | inr e ↦ elim (Bool-cases (c == b':')) [
    | inl e1 ↦ cc (rw e1 at n)
    | inr e1 ↦ elim (Bool-cases (c == b'%')) [
      | inl e2 ↦ cc (rw (e, e1, e2) at h)
      | inr e2 ↦ to4_from-parse_ip4 ip6 whole s ip (rw e1 at n) (rw (e, e1, e2) at h)
    ]
  ]
]

-- A text that is the canonical text of what is parsed of it is parsed as an IPv4 address.
pub canonical-IsIp4 :
    (ip6 : Text → Option Bytes) (s : Text) (ip : Bytes)
    → parse_ip_to4 ip6 s ≡ some ip
    → ip4_text ip ≡ s
    → (parse_ip4 s ≡ some ip) × IsIp4 ip
unfolding parse_ip_to4
canonical-IsIp4 ip6 s ip h e =
    let no_colon : has_char b':' s ≡ false =
      subst (λ t. has_char b':' t ≡ false) e (has_char-ip4_text ip) in
    let parsed = to4_from-parse_ip4 ip6 s s ip no_colon h in (parsed, parse_ip4-IsIp4 s ip parsed)
