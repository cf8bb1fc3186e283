-- ===== src/Emu/InformUrl.antt =====
-- informurl.go: an inform URL whose host is a name gets the host's first IPv4 address. url.Parse, the
-- text of a URL, net.ParseIP and the resolver are arguments.
mod Tests
use unifi_emu.Common.{
  Bool, true, false, not, ◌||◌, List, [], ◌∷◌, ◌++◌, Option, none, some, Text, if◌then◌else◌,
  Result, ok, err, ◌>>=◌, ◌>>◌, fail_if,
}
use unifi_emu.Inform.Session.{is_empty}
use unifi_emu.Net.{has_char}

-- What url.Parse gives, with Hostname and Port, and String as a function of the host.
pub record InformUrl : Type 0 where
  pub scheme : Text
  pub host : Text
  pub hostname : Text
  pub port : Text
  pub with_host : Text → Text

pub data UrlError : Type 0 where
  not_valid no_host not_resolved no_ip4 : UrlError

abbrev pub parsed_url : Option InformUrl → Result UrlError InformUrl
parsed_url none = err not_valid
parsed_url (some u) = ok u

abbrev pub first_ip : Option (List Text) → Result UrlError Text
first_ip none = err not_resolved
first_ip (some []) = err no_ip4
first_ip (some (ip ∷ ips)) = ok ip

-- net.JoinHostPort.
abbrev pub join_host_port : Text → Text → Text
join_host_port host port =
    if has_char b':' host then (b'[' ∷ host) ++ (b']' ∷ b':' ∷ port) else host ++ (b':' ∷ port)

abbrev pub new_host : Text → Text → Text
new_host ip port = if not (is_empty port) then join_host_port ip port else ip

unfoldable pub rewrite_host : (Text → Option (List Text)) → InformUrl → Result UrlError Text
rewrite_host lookup u = do ip ← first_ip (lookup u.hostname); ok (u.with_host (new_host ip u.port))

unfoldable pub resolve_inform_url :
    (Text → Option InformUrl)
    → (Text → Bool)
    → (Text → Option (List Text))
    → Text
    → Result UrlError Text
resolve_inform_url parse_url is_ip lookup raw = do
  u ← parsed_url (parse_url raw)
  fail_if (is_empty u.scheme || is_empty u.host) not_valid
  fail_if (is_empty u.hostname) no_host
  (if is_ip u.hostname then ok raw else rewrite_host lookup u)
