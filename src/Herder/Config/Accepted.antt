-- ===== src/Herder/Config/Accepted.antt =====
-- internal/herder/runtimeconfig.go: the configurations that are accepted.
use unifi_emu.Common.{
  ℕ, ◌≤◌, ◌≡◌, ◌≢◌, ◌⊎◌, unequal, arith, ap, ◌∙◌, true, false, not, List, [], ◌∷◌, ◌++◌, some, Text,
  codes, length, text_eq, ◌==◌, ok, fail_if, given, fail_if-OnValue, not-false, All, Bool-cases,
  inl, inr, ==_iff, >>=-eq-ok,
}
use unifi_emu.Common.Strings.{cut, cut-append}
use unifi_emu.Inform.Session.{is_empty}
use unifi_emu.Herder.Plan.{RuntimeConfig, text_among}
use unifi_emu.Herder.Readiness.{or_failure, or_failure-some}
use unifi_emu.Herder.Config.{
  bad_config, capability_allowlist, cut_prefix, is_lower_hex, check_hex, check_image_digest,
  check_capabilities, check_models,
}

-- A decimal digit, or a letter from a to f in lower case.
abbrev pub IsHexDigit : ℕ → Type 0
IsHexDigit c = ((b'0' ≤ c) × (c ≤ b'9')) ⊎ ((b'a' ≤ c) × (c ≤ b'f'))

-- repository@sha256:<64 lowercase hexadecimal digits>.
abbrev pub IsPinned : Text → Type 0
IsPinned image =
    (repo : Text) × (hex : Text) × (repo ≢ [])
    × (length hex ≡ 64)
    × All IsHexDigit hex
    × (image ≡ repo ++ (b'@' ∷ codes "sha256:" ++ hex))

-- Capabilities of the vocabulary, none of which is in `seen` or listed twice.
unfoldable pub AreAllowed : List Text → List Text → Type 0
AreAllowed seen [] = Unit {0}
AreAllowed seen (c ∷ cs) =
    (c ≢ codes "ALL")
    × (text_among c capability_allowlist ≡ true)
    × (text_among c seen ≡ false)
    × AreAllowed (c ∷ seen) cs

unfoldable pub AreAccepted : RuntimeConfig → Type 0
AreAccepted [] = Unit {0}
AreAccepted ((model, rt) ∷ rest) = IsPinned rt.image × AreAllowed [] rt.cap_add × AreAccepted rest

is_lower_hex-IsHexDigit : (c : ℕ) → is_lower_hex c ≡ true → IsHexDigit c
is_lower_hex-IsHexDigit c h = ground arith

check_hex-All : (s : Text) → check_hex s ≡ ok tt → All IsHexDigit s
unfolding check_hex
check_hex-All [] h = tt
check_hex-All (c ∷ s) h = elim (Bool-cases (is_lower_hex c)) [
  | inl e ↦ (is_lower_hex-IsHexDigit c e, check_hex-All s (rw e at h))
  | inr e ↦ cc (rw e at h)
]

cons_both : (c d : ℕ) {s t : Text} → c ≡ d → s ≡ t → ◌≡◌ {A = Text} (d ∷ s) (c ∷ t)
cons_both c d e h = cc

has_length : (hex : Text) → not (length hex == 64) ≡ false → length hex ≡ 64
has_length hex h = (==_iff (length hex) 64).0 (not-false _ h)

cut_prefix-append : (p s rest : Text) → cut_prefix p s ≡ some rest → s ≡ p ++ rest
unfolding cut_prefix
cut_prefix-append [] s rest h = cc
cut_prefix-append (c ∷ p) [] rest h = cc
cut_prefix-append (c ∷ p) (d ∷ s) rest h = elim (Bool-cases (c == d)) [
  | inl e ↦ cons_both c d ((==_iff c d).0 e) (cut_prefix-append p s rest (rw e at h))
  | inr e ↦ cc (rw e at h)
]

is_empty-ne : (s : Text) → is_empty s ≡ false → s ≢ []
is_empty-ne [] h = cc
is_empty-ne (c ∷ s) h = λ e. cc

check_image_digest-IsPinned : (image : Text) → check_image_digest image ≡ ok tt → IsPinned image
unfolding check_image_digest
check_image_digest-IsPinned image h =
    let ((repo, digest), split, h1) = >>=-eq-ok (or_failure bad_config (cut b'@' image)) _ h in
    let (_, named, h2) = >>=-eq-ok (fail_if (is_empty repo) bad_config) _ h1 in
    let (hex, prefixed, h3) =
      >>=-eq-ok (or_failure bad_config (cut_prefix (codes "sha256:") digest)) _ h2 in
    let (_, long, h4) = >>=-eq-ok (fail_if (not (length hex == 64)) bad_config) _ h3 in
    let digest_is : digest ≡ codes "sha256:" ++ hex =
      cut_prefix-append (codes "sha256:") digest hex (or_failure-some bad_config _ hex prefixed) in
    let image_is : image ≡ repo ++ (b'@' ∷ digest) =
      cut-append b'@' image repo digest (or_failure-some bad_config _ (repo, digest) split) in
    (
      repo,
      hex,
      is_empty-ne repo (given _ named (fail_if-OnValue (is_empty repo) bad_config)),
      has_length hex (given _ long (fail_if-OnValue (not (length hex == 64)) bad_config)),
      check_hex-All hex h4,
      image_is ∙ ap (λ t. repo ++ (b'@' ∷ t)) digest_is,
    )

check_capabilities-AreAllowed :
    (seen cs : List Text) → check_capabilities seen cs ≡ ok tt → AreAllowed seen cs
unfolding check_capabilities AreAllowed
check_capabilities-AreAllowed seen [] h = tt
check_capabilities-AreAllowed seen (c ∷ cs) h =
    let (_, all, h1) = >>=-eq-ok (fail_if (text_eq c (codes "ALL")) bad_config) _ h in
    let (_, listed, h2) =
      >>=-eq-ok (fail_if (not (text_among c capability_allowlist)) bad_config) _ h1 in
    let (_, new, h3) = >>=-eq-ok (fail_if (text_among c seen) bad_config) _ h2 in
    (
      unequal c (codes "ALL") (given _ all (fail_if-OnValue (text_eq c (codes "ALL")) bad_config)),
      not-false _
          (given _ listed (fail_if-OnValue (not (text_among c capability_allowlist)) bad_config)),
      given _ new (fail_if-OnValue (text_among c seen) bad_config),
      check_capabilities-AreAllowed (c ∷ seen) cs h3,
    )

pub check_models-AreAccepted : (c : RuntimeConfig) → check_models c ≡ ok tt → AreAccepted c
unfolding check_models AreAccepted
check_models-AreAccepted [] h = tt
check_models-AreAccepted ((model, rt) ∷ rest) h =
    let (_, pinned, h1) = >>=-eq-ok (check_image_digest rt.image) _ h in
    let (_, allowed, h2) = >>=-eq-ok (check_capabilities [] rt.cap_add) _ h1 in
    (
      check_image_digest-IsPinned rt.image pinned,
      check_capabilities-AreAllowed [] rt.cap_add allowed,
      check_models-AreAccepted rest h2,
    )
