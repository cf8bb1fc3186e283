-- ===== src/Emu/InformUrl/Tests.antt =====
-- A name with one address.
use unifi_emu.Common.{◌≡◌, refl, Bool, false, List, [], ◌∷◌, ◌++◌, Option, some, Text, codes, ok}
use unifi_emu.Net.{has_char}
use unifi_emu.Emu.InformUrl.{InformUrl, resolve_inform_url, rewrite_host}

abbrev parse_url : Text → Option InformUrl
parse_url raw = some (record {
  scheme = codes "http";
  host = codes "unifi:8080";
  hostname = codes "unifi";
  port = codes "8080";
  with_host = λ host. codes "http://" ++ (host ++ codes "/inform");
})

abbrev is_ip : Text → Bool
is_ip host = false

abbrev lookup : Text → Option (List Text)
lookup host = some (codes "10.0.0.5" ∷ [])

resolve_inform_url-name :
    resolve_inform_url parse_url is_ip lookup (codes "http://unifi:8080/inform")
    ≡ ok (codes "http://10.0.0.5:8080/inform")
unfolding resolve_inform_url rewrite_host has_char
resolve_inform_url-name = refl
