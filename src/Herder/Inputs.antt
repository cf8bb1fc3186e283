-- ===== src/Herder/Inputs.antt =====
-- internal/herder/request.go and informurl.go: the checks of the request and of the inform URL. The
-- decoder and url.Parse are arguments.
pub mod Endpoint
mod Tests
use unifi_emu.Common.{
  ℕ, zero, suc, ◌+◌, ◌≡◌, Bool, true, false, not, ◌&&◌, ◌||◌, List, [], ◌∷◌, Option, none, some,
  Text, Bytes, codes, length, text_eq, leb, ltb, ◌==◌, if◌then◌else◌, Result, ok, err, ◌>>=◌, ◌>>◌,
  fail_if,
}
use unifi_emu.Common.Int.{ℤ, pos, negsuc}
use unifi_emu.Inform.Session.{is_empty}
use unifi_emu.Net.{
  Decoded, decoded, ended, malformed, Following, nothing_more, another_document, broken, atoi,
  split_host_port, parse_ip_to4, ip4_text,
}
use unifi_emu.Herder.Protocol.{phase_validate, inform_url_invalid}
use unifi_emu.Herder.Readiness.{Failure, failf, or_failure, eq_ℤ}
use unifi_emu.Herder.Identity.{bad_request}
use unifi_emu.Herder.Allocation.{RequestDevice}

abbrev pub request_version : ℤ
request_version = pos 1

pub record Request : Type 0 where
  pub version : ℤ
  pub devices : List RequestDevice

abbrev pub first_document : {A : Type 0} → Failure → Decoded A → Result Failure A
first_document e (decoded a) = ok a
first_document e ended = err e
first_document e malformed = err e

abbrev pub only_document : Failure → Following → Result Failure (Unit {0})
only_document e nothing_more = ok tt
only_document e another_document = err e
only_document e broken = err e

unfoldable pub decode_request : Decoded Request × Following → Result Failure Request
decode_request (first, following) = do
  request ← first_document bad_request first
  only_document bad_request following
  fail_if (not (eq_ℤ request.version request_version)) bad_request
  fail_if (length request.devices == 0) bad_request
  ok request

-- What url.Parse gives.
pub record Url : Type 0 where
  pub scheme : Text
  pub has_user : Bool
  pub host : Text
  pub path : Text
  pub raw_query : Text
  pub fragment : Text

abbrev pub bad_url : Failure
bad_url = failf inform_url_invalid phase_validate

-- net.IP.IsLoopback and IsUnspecified, of an IPv4 address.
abbrev pub is_loopback : Bytes → Bool
is_loopback [] = false
is_loopback (a ∷ bs) = a == 127

unfoldable pub is_unspecified : Bytes → Bool
is_unspecified [] = true
is_unspecified (b ∷ bs) = b == 0 && is_unspecified bs

abbrev pub check_port : Option ℤ → Result Failure (Unit {0})
check_port none = err bad_url
check_port (some (negsuc n)) = err bad_url
check_port (some (pos n)) = if ltb n 1 || ltb 65535 n then err bad_url else ok tt

-- The part about the host, `u.Host`.
unfoldable pub check_host : (Text → Option Bytes) → Text → Result Failure (Unit {0})
check_host ip6 address = do
  (host, port) ← or_failure bad_url (split_host_port address)
  ip ← or_failure bad_url (parse_ip_to4 ip6 host)
  fail_if (not (text_eq (ip4_text ip) host)) bad_url
  fail_if (is_loopback ip || is_unspecified ip) bad_url
  check_port (atoi port)

unfoldable pub check_inform_url :
    (Text → Option Url) → (Text → Option Bytes) → Text → Result Failure (Unit {0})
check_inform_url parse_url ip6 raw = do
  u ← or_failure bad_url (parse_url raw)
  fail_if (not (text_eq u.scheme (codes "http"))) bad_url
  fail_if u.has_user bad_url
  fail_if (not (is_empty u.raw_query) || not (is_empty u.fragment)) bad_url
  fail_if (not (text_eq u.path (codes "/inform"))) bad_url
  check_host ip6 u.host
