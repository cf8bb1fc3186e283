-- ===== src/Adopt/Dialect/Tests.antt =====
-- Both names are read back, and a URL without a port.
use unifi_emu.Common.{◌≡◌, refl, [], Option, some, Text, codes, text_eq}
use unifi_emu.Common.Strings.{lower, trim_space}
use unifi_emu.Adopt.Dialect.{
  Dialect, classic, unifi_os, dialect_text, parse_dialect, ParsedUrl, dialect_for_url,
}

parse_dialect-dialect_text : (d : Dialect) → parse_dialect (dialect_text d) ≡ some d
unfolding parse_dialect dialect_text lower trim_space text_eq
parse_dialect-dialect_text classic = refl
parse_dialect-dialect_text unifi_os = refl

abbrev parse_url : Text → Option ParsedUrl
parse_url raw = some (record { scheme = codes "HTTPS"; port = [] })

dialect_for_url-https : dialect_for_url parse_url (codes "https://console") ≡ unifi_os
unfolding dialect_for_url lower text_eq
dialect_for_url-https = refl
