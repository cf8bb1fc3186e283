-- ===== src/Herder/Config.antt =====
-- internal/herder/runtimeconfig.go and runtimeconfig_owner_unix.go: the file that maps models to
-- images. The file system and the decoder are arguments, and a map is an association list.
pub mod Accepted
pub mod Trusted
mod Tests
use unifi_emu.Common.{
  ℕ, zero, suc, ◌+◌, ◌/◌, ◌%◌, ◌≡◌, Bool, true, false, not, ◌&&◌, ◌||◌, List, [], ◌∷◌, Option, none,
  some, Text, codes, length, text_eq, leb, ltb, ◌==◌, if◌then◌else◌, Result, ok, err, ◌>>=◌, ◌>>◌,
  fail_if,
}
use unifi_emu.Common.Int.{ℤ, pos}
use unifi_emu.Common.Strings.{cut}
use unifi_emu.Inform.Session.{is_empty}
use unifi_emu.Net.{
  Decoded, decoded, ended, malformed, Following, nothing_more, another_document, broken,
}
use unifi_emu.Herder.Protocol.{phase_validate, invalid_runtime_config}
use unifi_emu.Herder.Plan.{ModelRuntime, RuntimeConfig, text_among}
use unifi_emu.Herder.Readiness.{Failure, failf, or_failure, eq_ℤ}
use unifi_emu.Herder.Inputs.{first_document, only_document}

abbrev pub runtime_config_version : ℤ
runtime_config_version = pos 1

abbrev pub runtime_config_env : Text
runtime_config_env = codes "UNIFI_EMU_RUNTIME_CONFIG"

abbrev pub default_runtime_config_path : Text
default_runtime_config_path = codes "/etc/unifi-emu-herder/runtimes.json"

abbrev pub capability_allowlist : List Text
capability_allowlist =
    codes "CHOWN"
    ∷ codes "DAC_OVERRIDE"
    ∷ codes "DAC_READ_SEARCH"
    ∷ codes "FOWNER"
    ∷ codes "KILL"
    ∷ codes "MKNOD"
    ∷ codes "NET_ADMIN"
    ∷ codes "NET_BIND_SERVICE"
    ∷ codes "NET_RAW"
    ∷ codes "SETGID"
    ∷ codes "SETUID"
    ∷ codes "SYS_ADMIN"
    ∷ codes "SYS_CHROOT"
    ∷ codes "SYS_PTRACE"
    ∷ codes "SYS_RESOURCE"
    ∷ []

abbrev pub bad_config : Failure
bad_config = failf invalid_runtime_config phase_validate

-- strings.CutPrefix.
unfoldable pub cut_prefix : Text → Text → Option Text
cut_prefix [] s = some s
cut_prefix (c ∷ p) [] = none
cut_prefix (c ∷ p) (d ∷ s) = let rest = cut_prefix p s in if c == d then rest else none

abbrev pub is_lower_hex : ℕ → Bool
is_lower_hex c = (leb b'0' c && leb c b'9') || (leb b'a' c && leb c b'f')

-- The loop over the digest.
unfoldable pub check_hex : Text → Result Failure (Unit {0})
check_hex [] = ok tt
check_hex (c ∷ s) = let rest = check_hex s in if is_lower_hex c then rest else err bad_config

unfoldable pub check_image_digest : Text → Result Failure (Unit {0})
check_image_digest image = do
  (repo, digest) ← or_failure bad_config (cut b'@' image)
  fail_if (is_empty repo) bad_config
  hex ← or_failure bad_config (cut_prefix (codes "sha256:") digest)
  fail_if (not (length hex == 64)) bad_config
  check_hex hex

unfoldable pub check_capabilities : List Text → List Text → Result Failure (Unit {0})
check_capabilities seen [] = ok tt
check_capabilities seen (c ∷ cs) = do
  fail_if (text_eq c (codes "ALL")) bad_config
  fail_if (not (text_among c capability_allowlist)) bad_config
  fail_if (text_among c seen) bad_config
  check_capabilities (c ∷ seen) cs

unfoldable pub check_models : RuntimeConfig → Result Failure (Unit {0})
check_models [] = ok tt
check_models ((model, rt) ∷ rest) = do
  check_image_digest rt.image
  check_capabilities [] rt.cap_add
  check_models rest

-- The document: its version and its map, where a missing map is empty.
pub record ConfigDocument : Type 0 where
  pub version : ℤ
  pub models : RuntimeConfig

unfoldable pub decode_runtime_config :
    Decoded ConfigDocument × Following → Result Failure RuntimeConfig
decode_runtime_config (first, following) = do
  document ← first_document bad_config first
  only_document bad_config following
  fail_if (not (eq_ℤ document.version runtime_config_version)) bad_config
  check_models document.models
  ok document.models

-- What os.Stat tells of a file that is there.
pub record FileInfo : Type 0 where
  pub is_regular : Bool
  pub perm : ℕ
  pub owner : Option ℕ

pub data Stat : Type 0 where
  not_exist stat_failed : Stat
  found : FileInfo → Stat

-- The system: os.Stat, os.Getuid, and os.Open with the decoding of what it opens.
pub record System : Type 0 where
  pub stat : Text → Stat
  pub uid : ℕ
  pub open_file : Text → Option (Decoded ConfigDocument × Following)

abbrev pub file_info : Stat → Result Failure FileInfo
file_info not_exist = err bad_config
file_info stat_failed = err bad_config
file_info (found info) = ok info

-- runtimeconfig_owner_unix.go; no owner is a file system without one.
abbrev pub check_owner : ℕ → Option ℕ → Result Failure (Unit {0})
check_owner uid none = ok tt
check_owner uid (some owner) =
    if not (owner == 0) && not (owner == uid % 4294967296) then err bad_config else ok tt

-- `mode&0o022 != 0`.
abbrev pub is_writable_by_others : ℕ → Bool
is_writable_by_others perm = perm / 16 % 2 == 1 || perm / 2 % 2 == 1

unfoldable pub load_runtime_config : System → Text → Result Failure RuntimeConfig
load_runtime_config sys path = do
  info ← file_info (sys.stat path)
  fail_if (not info.is_regular) bad_config
  fail_if (is_writable_by_others info.perm) bad_config
  check_owner sys.uid info.owner
  body ← or_failure bad_config (sys.open_file path)
  decode_runtime_config body

-- The system file, when it is there.
abbrev pub system_config : System → Stat → Result Failure RuntimeConfig
system_config sys not_exist = ok []
system_config sys stat_failed = err bad_config
system_config sys (found info) = load_runtime_config sys default_runtime_config_path

unfoldable pub resolve_runtime_config : System → Text → (Text → Text) → Result Failure RuntimeConfig
resolve_runtime_config sys flag_path getenv =
    if not (is_empty flag_path)
    then load_runtime_config sys flag_path
    else if not (is_empty (getenv runtime_config_env))
    then load_runtime_config sys (getenv runtime_config_env)
    else system_config sys (sys.stat default_runtime_config_path)
