-- ===== src/Adopt/Dialect.antt =====
-- internal/adopt/dialect.go: the two front ends of a controller. url.Parse is an argument, and a
-- port is what Port of its result gives.
mod Tests
use unifi_emu.Common.{
  Bool, true, false, map, [], Option, none, some, Text, codes, text_eq, if◌then◌else◌, ◌&&◌,
}
use unifi_emu.Common.Strings.{lower, trim_space}
use unifi_emu.Inform.Session.{is_empty}

pub data Dialect : Type 0 where
  classic unifi_os : Dialect

unfoldable pub dialect_text : Dialect → Text
dialect_text classic = codes "classic"
dialect_text unifi_os = codes "unifios"

unfoldable pub parse_dialect : Text → Option Dialect
parse_dialect s =
    let name = map lower (trim_space s) in
    if text_eq name (codes "classic")
    then some classic
    else if text_eq name (codes "unifios")
    then some unifi_os
    else none

pub record ParsedUrl : Type 0 where
  pub scheme : Text
  pub port : Text

abbrev pub effective_port : ParsedUrl → Text
effective_port u =
    if is_empty u.port && text_eq (map lower u.scheme) (codes "https") then codes "443" else u.port

abbrev pub dialect_of_parsed : Option ParsedUrl → Dialect
dialect_of_parsed none = classic
dialect_of_parsed (some u) = if text_eq (effective_port u) (codes "443") then unifi_os else classic

unfoldable pub dialect_for_url : (Text → Option ParsedUrl) → Text → Dialect
dialect_for_url parse_url raw = dialect_of_parsed (parse_url raw)
