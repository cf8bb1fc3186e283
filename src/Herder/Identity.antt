-- ===== src/Herder/Identity.antt =====
-- internal/herder/identity.go: the checks of supplied values and the derivation of missing ones.
-- A text is its bytes. Every failure is an invalid request; its words are left out.
pub mod Names
pub mod Addresses
mod Tests
use unifi_emu.Common.{
  ℕ, zero, suc, ◌+◌, ◌-◌, ◌/◌, ◌%◌, ◌≡◌, Bool, true, false, not, ◌&&◌, ◌||◌, List, [], ◌∷◌, ◌++◌,
  map, Option, none, some, Text, Bytes, codes, length, take, ltb, leb, ◌==◌, if◌then◌else◌, Result,
  ok, err, ◌>>=◌, ◌>>◌, fail_if,
}
use unifi_emu.Common.Mac.{parse_mac, mac_string}
use unifi_emu.Common.Strings.{upper}
use unifi_emu.Inform.Session.{is_empty}
use unifi_emu.Emu.Profile.{without_colons}
use unifi_emu.Herder.Protocol.{Code, invalid_request, Phase, phase_validate}
use unifi_emu.Herder.Readiness.{Failure, failf}

abbrev pub serial_max : ℕ
serial_max = 32

abbrev pub name_max : ℕ
name_max = 63

abbrev pub bad_request : Failure
bad_request = failf invalid_request phase_validate

abbrev pub is_upper : ℕ → Bool
is_upper c = leb b'A' c && leb c b'Z'

-- The `alnum` of `dnsLabel`: lower-case letters and digits.
unfoldable pub is_alnum : ℕ → Bool
is_alnum c = (leb b'a' c && leb c b'z') || (leb b'0' c && leb c b'9')

-- The builder of `normalizeModel` and its `dash`.
pub record Buffer : Type 0 where
  pub text : Text
  pub dash : Bool

-- One round of the loop.
unfoldable pub normalize_byte : Buffer → ℕ → Buffer
normalize_byte b c =
    if is_upper c
    then record { text = b.text ++ ((c + 32) ∷ []); dash = false }
    else if is_alnum c
    then record { text = b.text ++ (c ∷ []); dash = false }
    else if not b.dash && not (is_empty b.text)
    then record { text = b.text ++ (b'-' ∷ []); dash = true }
    else b

unfoldable pub normalize_bytes : Buffer → Text → Buffer
unfolding normalize_byte
normalize_bytes b [] = b
normalize_bytes b (c ∷ s) = normalize_bytes (normalize_byte b c) s

unfoldable pub trim_left_dash : Text → Text
trim_left_dash [] = []
trim_left_dash (c ∷ s) = let rest = trim_left_dash s in if c == b'-' then rest else c ∷ s

abbrev pub keep_byte : Bool → ℕ → Text → Text
keep_byte true c [] = []
keep_byte true c (d ∷ rest) = c ∷ d ∷ rest
keep_byte false c rest = c ∷ rest

unfoldable pub trim_right_dash : Text → Text
trim_right_dash [] = []
trim_right_dash (c ∷ s) = keep_byte (c == b'-') c (trim_right_dash s)

-- strings.Trim(s, "-").
abbrev pub trim_dashes : Text → Text
trim_dashes s = trim_right_dash (trim_left_dash s)

-- `if out == "" { return "device" }`.
abbrev pub or_device : Text → Text
or_device [] = codes "device"
or_device (c ∷ s) = c ∷ s

unfoldable pub normalize_model : Text → Text
unfolding normalize_bytes
normalize_model model =
    or_device (trim_dashes (normalize_bytes (record { text = []; dash = false }) model).text)

-- What the suffix leaves for the model.
abbrev pub name_budget : ℕ
name_budget = name_max - 4 - (1 + 12)

abbrev pub shorten : Text → Text
shorten norm =
    if ltb name_budget (length norm) then or_device (trim_dashes (take name_budget norm)) else norm

unfoldable pub derived_name : Text → Text → Text
derived_name model hex = codes "emu-" ++ (shorten (normalize_model model) ++ (b'-' ∷ hex))

unfoldable pub mac_hex : Text → Text
mac_hex mac = without_colons mac

unfoldable pub derived_serial : Text → Text
derived_serial hex = codes "EMU" ++ map upper hex

unfoldable pub printable_ascii : Text → Bool
printable_ascii [] = true
printable_ascii (c ∷ s) = not (ltb c 0x20 || ltb 0x7e c) && printable_ascii s

unfoldable pub check_model : Text → Result Failure (Unit {0})
check_model model = do
  fail_if (is_empty model) bad_request
  fail_if (not (printable_ascii model)) bad_request
  ok tt

unfoldable pub check_serial : Text → Result Failure (Unit {0})
check_serial serial = do
  fail_if (ltb serial_max (length serial)) bad_request
  fail_if (not (printable_ascii serial)) bad_request
  ok tt

-- The loop of `dnsLabel` over all bytes.
unfoldable pub label_bytes : Text → Bool
label_bytes [] = true
label_bytes (c ∷ s) = (is_alnum c || c == b'-') && label_bytes s

-- `s[len(s)-1]`, of a text that starts with c.
abbrev pub last_of : ℕ → Text → ℕ
last_of c [] = c
last_of c (d ∷ s) = last_of d s

unfoldable pub dns_label : Text → Bool
unfolding label_bytes
dns_label [] = false
dns_label (c ∷ s) = is_alnum c && is_alnum (last_of c s) && label_bytes (c ∷ s)

unfoldable pub check_name : Text → Result Failure (Unit {0})
check_name name = do
  fail_if (ltb name_max (length name)) bad_request
  fail_if (not (dns_label name)) bad_request
  ok tt

-- The first byte decides: `hw[0]&0x01 != 0` and `hw[0]&0x02 == 0`.
abbrev pub unicast_local : Bytes → Result Failure Bytes
unicast_local [] = ok []
unicast_local (b ∷ hw) =
    if b % 2 == 1 then err bad_request else if b / 2 % 2 == 0 then err bad_request else ok (b ∷ hw)

abbrev pub parsed : Option Bytes → Result Failure Bytes
parsed none = err bad_request
parsed (some hw) = if length hw == 6 then ok hw else err bad_request

unfoldable pub canonical_mac : Text → Result Failure Text
canonical_mac s = do hw ← parsed (parse_mac s); local ← unicast_local hw; ok (mac_string local)
