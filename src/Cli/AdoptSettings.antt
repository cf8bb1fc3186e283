-- ===== src/Cli/AdoptSettings.antt =====
-- cmd/unifi-emu/adopt.go: the settings of the adoption, from flags and environment. Durations are
-- nanoseconds; time.ParseDuration, url.Parse and the reading of a file are arguments.
mod Tests
use unifi_emu.Common.{
  ℕ, ◌*◌, Bool, true, false, not, ◌&&◌, ◌||◌, List, [], ◌∷◌, Option, none, some, Text, codes, ◌==◌,
  if◌then◌else◌, Result, ok, err, ◌>>=◌, ◌>>◌, fail_if,
}
use unifi_emu.Common.Int.{ℤ, pos, is_positive, nanoseconds}
use unifi_emu.Common.Strings.{parse_bool}
use unifi_emu.Inform.Session.{is_empty}
use unifi_emu.Adopt.Dialect.{Dialect, classic, parse_dialect, ParsedUrl, dialect_for_url}

abbrev pub default_adopt_timeout : ℤ
default_adopt_timeout = pos (300 * nanoseconds)

pub record AdoptSettings : Type 0 where
  pub enabled : Bool
  pub url : Text
  pub site : Text
  pub dialect : Text
  pub timeout : ℤ
  pub enabled_explicit : Bool

pub record AdoptConfig : Type 0 where
  pub enabled : Bool
  pub url : Text
  pub site : Text
  pub dialect : Dialect
  pub username : Text
  pub password : Text
  pub timeout : ℤ
  pub dialect_from_port : Bool

pub data SettingsError : Type 0 where
  bad_switch bad_timeout switched_off no_url no_username unreadable_password no_password :
      SettingsError
  timeout_not_positive bad_dialect : SettingsError

abbrev pub or_default : Text → Text → Text
or_default [] d = d
or_default (c ∷ s) d = c ∷ s

abbrev pub or_setting : {A : Type 0} → SettingsError → Option A → Result SettingsError A
or_setting e none = err e
or_setting e (some a) = ok a

abbrev pub env_switch : Text → Result SettingsError Bool
env_switch [] = ok false
env_switch (c ∷ s) = or_setting bad_switch (parse_bool (c ∷ s))

abbrev pub env_timeout : (Text → Option ℤ) → Text → Result SettingsError ℤ
env_timeout parse_duration [] = ok default_adopt_timeout
env_timeout parse_duration (c ∷ s) = or_setting bad_timeout (parse_duration (c ∷ s))

unfoldable pub adopt_env_defaults :
    (Text → Option ℤ) → (Text → Text) → Result SettingsError AdoptSettings
adopt_env_defaults parse_duration getenv = do
  enabled ← env_switch (getenv (codes "SIM_ADOPT"))
  timeout ← env_timeout parse_duration (getenv (codes "SIM_ADOPT_TIMEOUT"))
  ok (record {
    enabled = enabled;
    url = getenv (codes "SIM_ADOPT_URL");
    site = or_default (getenv (codes "SIM_ADOPT_SITE")) (codes "default");
    dialect = getenv (codes "SIM_ADOPT_DIALECT");
    timeout = timeout;
    enabled_explicit = false;
  })

-- strings.TrimRight: the characters of a set at the end are taken off.
abbrev pub keep_unless : Bool → ℕ → Text → Text
keep_unless true c [] = []
keep_unless true c (d ∷ s) = c ∷ d ∷ s
keep_unless false c s = c ∷ s

unfoldable pub trim_right_of : (ℕ → Bool) → Text → Text
trim_right_of is_cut [] = []
trim_right_of is_cut (c ∷ s) = keep_unless (is_cut c) c (trim_right_of is_cut s)

abbrev pub is_line_end : ℕ → Bool
is_line_end c = c == 13 || c == 10

abbrev pub is_slash : ℕ → Bool
is_slash c = c == b'/'

-- The zero adoptConfig.
abbrev pub no_adoption : AdoptConfig
no_adoption = record {
  enabled = false;
  url = [];
  site = [];
  dialect = classic;
  username = [];
  password = [];
  timeout = pos 0;
  dialect_from_port = false;
}

abbrev pub file_password : Option Text → Result SettingsError Text
file_password none = err unreadable_password
file_password (some body) = ok (trim_right_of is_line_end body)

abbrev pub password_of : (Text → Option Text) → Text → Text → Result SettingsError Text
password_of read_file [] password = ok password
password_of read_file (c ∷ s) password = file_password (read_file (c ∷ s))

abbrev pub choose_dialect :
    (Text → Option ParsedUrl) → Text → Text → Result SettingsError (Dialect × Bool)
choose_dialect parse_url url [] = ok (dialect_for_url parse_url url, true)
choose_dialect parse_url url (c ∷ s) = do
  dialect ← or_setting bad_dialect (parse_dialect (c ∷ s))
  ok (dialect, false)

-- With the switch on.
unfoldable pub enabled_config :
    (Text → Option ParsedUrl)
    → (Text → Option Text)
    → (Text → Text)
    → AdoptSettings
    → Result SettingsError AdoptConfig
enabled_config parse_url read_file getenv s = do
  let username = getenv (codes "SIM_ADOPT_USERNAME")
  fail_if (is_empty s.url) no_url
  fail_if (is_empty username) no_username
  password ←
      password_of read_file (getenv (codes "SIM_ADOPT_PASSWORD_FILE"))
        (getenv (codes "SIM_ADOPT_PASSWORD"))
  fail_if (is_empty password) no_password
  fail_if (not (is_positive s.timeout)) timeout_not_positive
  let url = trim_right_of is_slash s.url
  (dialect, from_port) ← choose_dialect parse_url url s.dialect
  ok (record {
    enabled = true;
    url = url;
    site = or_default s.site (codes "default");
    dialect = dialect;
    username = username;
    password = password;
    timeout = s.timeout;
    dialect_from_port = from_port;
  })

-- Whether settings are there that the switch would need.
unfoldable pub has_settings : (Text → Text) → AdoptSettings → Bool
has_settings getenv s =
    not (is_empty s.url)
    || (not (is_empty s.dialect)
        || (not (is_empty (getenv (codes "SIM_ADOPT_USERNAME")))
            || (not (is_empty (getenv (codes "SIM_ADOPT_PASSWORD")))
                || not (is_empty (getenv (codes "SIM_ADOPT_PASSWORD_FILE"))))))

unfoldable pub resolve_adopt :
    (Text → Option ParsedUrl)
    → (Text → Option Text)
    → (Text → Text)
    → AdoptSettings
    → Result SettingsError AdoptConfig
resolve_adopt parse_url read_file getenv s =
    if s.enabled
    then enabled_config parse_url read_file getenv s
    else if has_settings getenv s && not s.enabled_explicit
    then err switched_off
    else ok no_adoption
