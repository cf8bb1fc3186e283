-- ===== src/Herder/Inputs/Tests.antt =====
-- An inform URL, and a request.
use unifi_emu.Common.{
  ◌≡◌, refl, true, false, [], ◌∷◌, Option, some, Text, Bytes, codes, ok, err, text_eq,
}
use unifi_emu.Common.Int.{pos}
use unifi_emu.Common.Strings.{split, cut}
use unifi_emu.Inform.Session.{is_empty}
use unifi_emu.Inform.Tables.{decimal_text}
use unifi_emu.Net.{
  decoded, another_document, split_host_port, parse_ip_to4, parse_ip4, to4_from, parse_octet,
  digits_from, ip4_text, atoi, has_char,
}
use unifi_emu.Herder.Identity.{bad_request}
use unifi_emu.Herder.Inputs.{
  Url, check_inform_url, check_host, is_unspecified, decode_request, bad_url,
}
use unifi_emu.Herder.Inputs.Endpoint.{IsReachable, check_inform_url-IsReachable}

abbrev url : Text → Url
url host = record {
  scheme = codes "http";
  has_user = false;
  host = host;
  path = codes "/inform";
  raw_query = [];
  fragment = [];
}

abbrev parse_url : Text → Option Url
parse_url raw = some (url (codes "10.0.0.1:8080"))

abbrev parse_mapped : Text → Option Url
parse_mapped raw = some (url (codes "[::ffff:10.0.0.1]:8080"))

abbrev ip6 : Text → Option Bytes
ip6 s = some (10 ∷ 0 ∷ 0 ∷ 1 ∷ [])

abbrev raw_url : Text
raw_url = codes "http://10.0.0.1:8080/inform"

check_inform_url-raw : check_inform_url parse_url ip6 raw_url ≡ ok tt
unfolding check_inform_url check_host split_host_port parse_ip_to4 parse_ip4 to4_from parse_octet
    digits_from ip4_text atoi has_char is_unspecified split cut decimal_text text_eq
check_inform_url-raw = refl

check_inform_url-mapped : check_inform_url parse_mapped ip6 raw_url ≡ err bad_url
unfolding check_inform_url check_host split_host_port parse_ip_to4 parse_ip4 to4_from parse_octet
    digits_from ip4_text atoi has_char is_unspecified split cut decimal_text text_eq
check_inform_url-mapped = refl

decode_request-two :
    decode_request (decoded (record { version = pos 1; devices = [] }), another_document)
    ≡ err bad_request
unfolding decode_request
decode_request-two = refl

check_inform_url-IsReachable_example :
    (u : Url) × (parse_url raw_url ≡ some u)
    × (u.scheme ≡ codes "http")
    × (u.path ≡ codes "/inform")
    × (u.has_user ≡ false)
    × (is_empty u.raw_query ≡ true)
    × (is_empty u.fragment ≡ true)
    × IsReachable u.host
check_inform_url-IsReachable_example =
    check_inform_url-IsReachable parse_url ip6 raw_url check_inform_url-raw
