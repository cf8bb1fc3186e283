-- ===== src/Herder/Config/Trusted.antt =====
-- internal/herder/runtimeconfig.go: the file that a configuration comes from.
use unifi_emu.Common.{
  ℕ, ◌/◌, ◌%◌, ◌≡◌, refl, sym, ap, subst, true, false, not, [], Option, none, some, Text, codes, ok,
  ok-injective, >>=-eq-ok, fail_if, given, fail_if-OnValue, not-false, arith, if◌then◌else◌, ◌∷◌,
  ◌⊎◌, inl, inr,
}
use unifi_emu.Common.Int.{pos}
use unifi_emu.Inform.Session.{is_empty}
use unifi_emu.Net.{
  Decoded, decoded, ended, malformed, Following, nothing_more, another_document, broken,
}
use unifi_emu.Herder.Plan.{RuntimeConfig}
use unifi_emu.Herder.Readiness.{Failure, or_failure, or_failure-some, eq_ℤ}
use unifi_emu.Herder.Readiness.Verdicts.{eq_ℤ-true}
use unifi_emu.Herder.Inputs.{first_document, only_document}
use unifi_emu.Herder.Config.{
  bad_config, check_models, ConfigDocument, decode_runtime_config, runtime_config_version, System,
  FileInfo, Stat, not_exist, stat_failed, found, file_info, check_owner, is_writable_by_others,
  load_runtime_config, system_config, resolve_runtime_config, default_runtime_config_path,
  runtime_config_env,
}
use unifi_emu.Herder.Config.Accepted.{AreAccepted, check_models-AreAccepted}

-- The file belongs to root or to the user, where the file system tells its owner.
abbrev pub IsOwned : ℕ → Option ℕ → Type 0
IsOwned uid none = Unit {0}
IsOwned uid (some owner) = (owner ≡ 0) ⊎ (owner ≡ uid % 4294967296)

-- A regular file without the write bits 0o020 and 0o002.
abbrev pub IsPrivate : ℕ → FileInfo → Type 0
IsPrivate uid info =
    (info.is_regular ≡ true)
    × (info.perm / 16 % 2 ≡ 0)
    × (info.perm / 2 % 2 ≡ 0)
    × IsOwned uid info.owner

-- The one document that a reader gives: of version 1, with these mappings.
abbrev pub IsDocument : Decoded ConfigDocument × Following → RuntimeConfig → Type 0
IsDocument body c =
    (doc : ConfigDocument) × (body ≡ (decoded doc, nothing_more))
    × (doc.version ≡ pos 1)
    × (c ≡ doc.models)

-- The mappings are those of the file that is at the path, and others may not write it.
abbrev pub IsFrom : System → Text → RuntimeConfig → Type 0
IsFrom sys path c =
    ((info : FileInfo) × (sys.stat path ≡ found info) × IsPrivate sys.uid info)
    × ((body : Decoded ConfigDocument × Following) × (sys.open_file path ≡ some body)
        × IsDocument body c)

first_document-ok :
    {A : Type 0} (e : Failure) (d : Decoded A) (a : A) → first_document e d ≡ ok a → d ≡ decoded a
first_document-ok e (decoded b) a h = ap decoded (ok-injective h)
first_document-ok e ended a h = cc
first_document-ok e malformed a h = cc

only_document-ok : (e : Failure) (f : Following) → only_document e f ≡ ok tt → f ≡ nothing_more
only_document-ok e nothing_more h = refl
only_document-ok e another_document h = cc
only_document-ok e broken h = cc

pair :
    {A : Type 0} {d e : Decoded A} {f g : Following}
    → d ≡ e
    → f ≡ g
    → ◌≡◌ {A = Decoded A × Following} (d, f) (e, g)
pair h k = cc

decode_runtime_config-IsDocument :
    (d : Decoded ConfigDocument) (f : Following) (c : RuntimeConfig)
    → decode_runtime_config (d, f) ≡ ok c
    → AreAccepted c × IsDocument (d, f) c
unfolding decode_runtime_config
decode_runtime_config-IsDocument d f c h =
    let (doc, first, h1) = >>=-eq-ok (first_document bad_config d) _ h in
    let (_, alone, h2) = >>=-eq-ok (only_document bad_config f) _ h1 in
    let (_, versioned, h3) =
      >>=-eq-ok (fail_if (not (eq_ℤ doc.version runtime_config_version)) bad_config) _ h2 in
    let (_, accepted, h4) = >>=-eq-ok (check_models doc.models) _ h3 in
    let one = not-false _ (
      given _ versioned
        (fail_if-OnValue (not (eq_ℤ doc.version runtime_config_version)) bad_config)) in
    let read : d ≡ decoded doc = first_document-ok bad_config d doc first in
    let end : f ≡ nothing_more = only_document-ok bad_config f alone in
    (
      subst AreAccepted (ok-injective h4) (check_models-AreAccepted doc.models accepted),
      (doc, pair read end, eq_ℤ-true doc.version (pos 1) one, sym (ok-injective h4)),
    )

file_info-found : (s : Stat) (info : FileInfo) → file_info s ≡ ok info → s ≡ found info
file_info-found not_exist info h = cc
file_info-found stat_failed info h = cc
file_info-found (found i) info h = ap found (ok-injective h)

check_owner-IsOwned :
    (uid : ℕ) (owner : Option ℕ) → check_owner uid owner ≡ ok tt → IsOwned uid owner
check_owner-IsOwned uid none h = tt
check_owner-IsOwned uid (some owner) h = ground arith

write_bits :
    (perm : ℕ) → is_writable_by_others perm ≡ false → (perm / 16 % 2 ≡ 0) × (perm / 2 % 2 ≡ 0)
write_bits perm h = ground arith

load_runtime_config-IsFrom :
    (sys : System) (path : Text) (c : RuntimeConfig)
    → load_runtime_config sys path ≡ ok c
    → AreAccepted c × IsFrom sys path c
unfolding load_runtime_config
load_runtime_config-IsFrom sys path c h =
    let (info, there, h1) = >>=-eq-ok (file_info (sys.stat path)) _ h in
    let (_, regular, h2) = >>=-eq-ok (fail_if (not info.is_regular) bad_config) _ h1 in
    let (_, private, h3) = >>=-eq-ok (fail_if (is_writable_by_others info.perm) bad_config) _ h2 in
    let (_, owned, h4) = >>=-eq-ok (check_owner sys.uid info.owner) _ h3 in
    let (body, opened, h5) = >>=-eq-ok (or_failure bad_config (sys.open_file path)) _ h4 in
    let (group, world) =
      write_bits info.perm
        (given _ private (fail_if-OnValue (is_writable_by_others info.perm) bad_config)) in
    let (accepted, document) = decode_runtime_config-IsDocument body.0 body.1 c h5 in
    (
      accepted,
      (
        (
          info,
          file_info-found (sys.stat path) info there,
          (
            not-false _ (given _ regular (fail_if-OnValue (not info.is_regular) bad_config)),
            group,
            world,
            check_owner-IsOwned sys.uid info.owner owned,
          ),
        ),
        (body, or_failure-some bad_config _ body opened, document),
      ),
    )

-- Where a configuration comes from: the flag's file, else the environment's, else the system file,
-- else nothing where that file does not exist.
abbrev pub IsSelected : System → Text → Text → RuntimeConfig → Type 0
IsSelected sys [] [] c =
    ((sys.stat (codes "/etc/unifi-emu-herder/runtimes.json") ≡ not_exist) × (c ≡ []))
    ⊎ IsFrom sys (codes "/etc/unifi-emu-herder/runtimes.json") c
IsSelected sys [] (e ∷ env) c = IsFrom sys (e ∷ env) c
IsSelected sys (f ∷ flag) env c = IsFrom sys (f ∷ flag) c

system_config-ok :
    (sys : System) (s : Stat) (c : RuntimeConfig)
    → sys.stat default_runtime_config_path ≡ s
    → system_config sys s ≡ ok c
    → AreAccepted c × IsSelected sys [] [] c
unfolding AreAccepted
system_config-ok sys not_exist c e h =
    let empty : [] ≡ c = ok-injective h in (subst AreAccepted empty tt, inl (e, sym empty))
system_config-ok sys stat_failed c e h = cc
system_config-ok sys (found info) c e h =
    let (accepted, from) = load_runtime_config-IsFrom sys default_runtime_config_path c h in
    (accepted, inr from)

without_flag :
    (sys : System) (env : Text) (c : RuntimeConfig)
    → (if not (is_empty env)
        then load_runtime_config sys env
        else system_config sys (sys.stat default_runtime_config_path))
      ≡ ok c
    → AreAccepted c × IsSelected sys [] env c
without_flag sys [] c h = system_config-ok sys (sys.stat default_runtime_config_path) c refl h
without_flag sys (e ∷ env) c h = load_runtime_config-IsFrom sys (e ∷ env) c h

-- A configuration that is resolved routes each model to an image that a sha256 digest pins, with
-- capabilities of the allowlist that do not repeat. Its mappings are those of the one document, of
-- version 1, of the file that is selected: the flag's, else the environment's, else the system file;
-- without any of them it is empty. That file is regular, neither group nor others may write it, and
-- its owner, where the file system tells one, is root or the user.
pub resolve_runtime_config-IsResolved :
    (sys : System) (flag_path : Text) (getenv : Text → Text) (c : RuntimeConfig)
    → resolve_runtime_config sys flag_path getenv ≡ ok c
    → AreAccepted c × IsSelected sys flag_path (getenv (codes "UNIFI_EMU_RUNTIME_CONFIG")) c
unfolding resolve_runtime_config
resolve_runtime_config-IsResolved sys [] getenv c h =
    without_flag sys (getenv runtime_config_env) c h
resolve_runtime_config-IsResolved sys (f ∷ flag_path) getenv c h =
    load_runtime_config-IsFrom sys (f ∷ flag_path) c h
