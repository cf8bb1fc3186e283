-- ===== src/Herder/Inputs/Endpoint.antt =====
-- internal/herder/informurl.go: the inform URLs that are accepted.
use unifi_emu.Common.{
  ℕ, ◌≤◌, ◌≡◌, refl, true, false, not, ◌||◌, Option, none, some, Text, Bytes, codes, text_eq,
  text_eq_iff, ok, >>=-eq-ok, fail_if, given, fail_if-OnValue, not-false, or_false, arith,
}
use unifi_emu.Common.Int.{ℤ, pos, negsuc}
use unifi_emu.Inform.Session.{is_empty}
use unifi_emu.Net.{atoi, split_host_port, parse_ip4, parse_ip_to4, ip4_text}
use unifi_emu.Net.Addresses.{IsIp4, canonical-IsIp4}
use unifi_emu.Herder.Readiness.{or_failure, or_failure-some}
use unifi_emu.Herder.Inputs.{
  Url, bad_url, is_loopback, is_unspecified, check_port, check_host, check_inform_url,
}

-- A port of 16 bits that is not zero.
abbrev pub IsPort : Option ℤ → Type 0
IsPort port = (n : ℕ) × (port ≡ some (pos n)) × (1 ≤ n) × (n ≤ 65535)

-- A canonical IPv4 address with a port, which a container may reach.
abbrev pub IsReachable : Text → Type 0
IsReachable address =
    (ip : Bytes) × (port : Text) × (split_host_port address ≡ some (ip4_text ip, port))
    × (parse_ip4 (ip4_text ip) ≡ some ip)
    × IsIp4 ip
    × (is_loopback ip ≡ false)
    × (is_unspecified ip ≡ false)
    × IsPort (atoi port)

check_port-IsPort : (port : Option ℤ) → check_port port ≡ ok tt → IsPort port
check_port-IsPort none h = cc
check_port-IsPort (some (negsuc n)) h = cc
check_port-IsPort (some (pos n)) h = (n, refl, ground arith, ground arith)

check_host-IsReachable :
    (ip6 : Text → Option Bytes) (address : Text)
    → check_host ip6 address ≡ ok tt
    → IsReachable address
unfolding check_host
check_host-IsReachable ip6 address h =
    let ((host, port), split, h1) = >>=-eq-ok (or_failure bad_url (split_host_port address)) _ h in
    let (ip, found, h2) = >>=-eq-ok (or_failure bad_url (parse_ip_to4 ip6 host)) _ h1 in
    let (_, same, h3) = >>=-eq-ok (fail_if (not (text_eq (ip4_text ip) host)) bad_url) _ h2 in
    let (_, far, h4) = >>=-eq-ok (fail_if (is_loopback ip || is_unspecified ip) bad_url) _ h3 in
    let is_text : ip4_text ip ≡ host =
      (text_eq_iff (ip4_text ip) host).0
        (not-false _ (given _ same (fail_if-OnValue (not (text_eq (ip4_text ip) host)) bad_url))) in
    let four = canonical-IsIp4 ip6 host ip (or_failure-some bad_url _ ip found) is_text in
    let away =
      or_false _ _ (given _ far (fail_if-OnValue (is_loopback ip || is_unspecified ip) bad_url)) in
    (
      ip,
      port,
      rw is_text (or_failure-some bad_url _ (host, port) split),
      rw is_text four.0,
      four.1,
      away.0,
      away.1,
      check_port-IsPort (atoi port) h4,
    )

-- An inform URL that is accepted is http, has the path /inform, no user, query or fragment, and its
-- host is the canonical text of four octets of 255 at most, not of 127.0.0.0/8 and not 0.0.0.0, with
-- a port from 1 to 65535; no spelling of an IPv6 address is accepted, whatever it is parsed to.
pub check_inform_url-IsReachable :
    (parse_url : Text → Option Url) (ip6 : Text → Option Bytes) (raw : Text)
    → check_inform_url parse_url ip6 raw ≡ ok tt
    → (u : Url) × (parse_url raw ≡ some u)
      × (u.scheme ≡ codes "http")
      × (u.path ≡ codes "/inform")
      × (u.has_user ≡ false)
      × (is_empty u.raw_query ≡ true)
      × (is_empty u.fragment ≡ true)
      × IsReachable u.host
unfolding check_inform_url
check_inform_url-IsReachable parse_url ip6 raw h =
    let (u, parsed, h1) = >>=-eq-ok (or_failure bad_url (parse_url raw)) _ h in
    let (_, http, h2) = >>=-eq-ok (fail_if (not (text_eq u.scheme (codes "http"))) bad_url) _ h1 in
    let (_, user, h3) = >>=-eq-ok (fail_if u.has_user bad_url) _ h2 in
    let (_, bare, h4) =
      >>=-eq-ok (fail_if (not (is_empty u.raw_query) || not (is_empty u.fragment)) bad_url) _ h3 in
    let (_, inform, h5) =
      >>=-eq-ok (fail_if (not (text_eq u.path (codes "/inform"))) bad_url) _ h4 in
    let nothing = or_false _ _ (
      given _ bare
        (fail_if-OnValue (not (is_empty u.raw_query) || not (is_empty u.fragment)) bad_url)) in
    (
      u,
      or_failure-some bad_url _ u parsed,
      (text_eq_iff u.scheme (codes "http")).0 (
          not-false _
            (given _ http (fail_if-OnValue (not (text_eq u.scheme (codes "http"))) bad_url))),
      (text_eq_iff u.path (codes "/inform")).0 (
          not-false _
            (given _ inform (fail_if-OnValue (not (text_eq u.path (codes "/inform"))) bad_url))),
      given _ user (fail_if-OnValue u.has_user bad_url),
      not-false _ nothing.0,
      not-false _ nothing.1,
      check_host-IsReachable ip6 u.host h5,
    )
