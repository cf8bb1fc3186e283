-- ===== src/Herder/Allocation/Failures.antt =====
-- internal/herder/identity.go: what `Allocate` fails with.
use unifi_emu.Common.{
  arith, ℕ, zero, suc, ◌+◌, ◌≡◌, refl, List, [], ◌∷◌, Option, none, some, Text, Bytes, length, take,
  drop, ltb, Result, ok, err, OnError, OnError->>=, if-OnError,
}
use unifi_emu.Common.Mac.{mac_string, parse_mac}
use unifi_emu.Herder.Protocol.{Identity}
use unifi_emu.Herder.Readiness.{Failure}
use unifi_emu.Herder.Identity.{
  bad_request, check_model, check_serial, check_name, canonical_mac, parsed, unicast_local, mac_hex,
  derived_serial, derived_name,
}
use unifi_emu.Herder.Allocation.{
  RequestDevice, IdentitySet, new_identity_set, claim, keep_mac, supply, supply_one, supply_all,
  pick, or_taken, complete_one, complete_entry, complete_all, accept_or, candidate, local_unicast,
  generate, generate_entry, generate_all, allocate, Generated, mac_retries,
}

abbrev pub IsBad : Failure → Type 0
IsBad f = f ≡ bad_request

check_model-OnError : (m : Text) → OnError IsBad (check_model m)
unfolding check_model
check_model-OnError m = ground arith

check_serial-OnError : (m : Text) → OnError IsBad (check_serial m)
unfolding check_serial
check_serial-OnError m = ground arith

check_name-OnError : (m : Text) → OnError IsBad (check_name m)
unfolding check_name
check_name-OnError m = ground arith

parsed-OnError : (m : Option Bytes) → OnError IsBad (parsed m)
parsed-OnError m = ground arith

unicast_local-OnError : (hw : Bytes) → OnError IsBad (unicast_local hw)
unicast_local-OnError hw = ground arith

canonical_mac-OnError : (m : Text) → OnError IsBad (canonical_mac m)
unfolding canonical_mac
canonical_mac-OnError m =
    OnError->>= IsBad _ _ (parsed-OnError (parse_mac m))
      (λ hw. OnError->>= IsBad _ _ (unicast_local-OnError hw) (λ _. tt))

claim-OnError : (v : Text) (set : List Text) → OnError IsBad (claim v set)
unfolding claim
claim-OnError v set = ground arith

keep_mac-OnError : (s mac : Text) → OnError IsBad (keep_mac s mac)
keep_mac-OnError [] mac = tt
keep_mac-OnError (c ∷ s) mac = canonical_mac-OnError mac

supply-OnError :
    (s : Text) (check : Text → Result Failure (Unit {0})) (set : List Text)
    → ((t : Text) → OnError IsBad (check t))
    → OnError IsBad (supply s check set)
supply-OnError [] check set h = tt
supply-OnError (c ∷ s) check set h =
    OnError->>= IsBad _ _ (h (c ∷ s)) (λ _. claim-OnError (c ∷ s) set)

supply_one-OnError :
    (i : ℕ) (d : RequestDevice) (set : IdentitySet) → OnError IsBad (supply_one i d set)
unfolding supply_one
supply_one-OnError i d set = OnError->>= IsBad _ _ (check_model-OnError d.model) (λ _.
    OnError->>= IsBad _ _ (keep_mac-OnError d.mac d.mac) (λ mac.
      OnError->>= IsBad _ _ (supply-OnError mac (λ m. ok tt) set.macs (λ _. tt)) (λ _.
        OnError->>= IsBad _ _
          (supply-OnError d.serial check_serial set.serials check_serial-OnError)
          (λ _.
            OnError->>= IsBad _ _ (supply-OnError d.name check_name set.names check_name-OnError)
              (λ _. tt)))))

supply_all-OnError :
    (i : ℕ) (ds : List RequestDevice) (set : IdentitySet) → OnError IsBad (supply_all i ds set)
unfolding supply_all
supply_all-OnError i [] set = tt
supply_all-OnError i (d ∷ ds) set =
    OnError->>= IsBad _ _ (supply_one-OnError i d set)
      (λ r. OnError->>= IsBad _ _ (supply_all-OnError (i + 1) ds r.1) (λ _. tt))

or_taken-OnError {ℓ} : {A : Type ℓ} (o : Option A) → OnError IsBad (or_taken o)
or_taken-OnError none = refl
or_taken-OnError (some a) = tt

complete_one-OnError :
    (reserved final : IdentitySet) (id : Identity) → OnError IsBad (complete_one reserved final id)
unfolding complete_one
complete_one-OnError reserved final id =
    OnError->>= IsBad _ _
      (or_taken-OnError
        (pick reserved.serials final.serials id.serial (derived_serial (mac_hex id.mac))))
      (λ _.
        OnError->>= IsBad _ _
          (or_taken-OnError
            (pick reserved.names final.names id.name (derived_name id.model (mac_hex id.mac))))
          (λ _. tt))

complete_entry-OnError :
    (reserved final : IdentitySet) (id : Identity) (mac : Text)
    → OnError IsBad (complete_entry reserved final id mac)
complete_entry-OnError reserved final id [] = tt
complete_entry-OnError reserved final id (c ∷ mac) = complete_one-OnError reserved final id

complete_all-OnError :
    (reserved final : IdentitySet) (ids : List Identity)
    → OnError IsBad (complete_all reserved final ids)
unfolding complete_all
complete_all-OnError reserved final [] = tt
complete_all-OnError reserved final (id ∷ ids) =
    OnError->>= IsBad _ _ (complete_entry-OnError reserved final id id.mac)
      (λ r. OnError->>= IsBad _ _ (complete_all-OnError reserved r.1 ids) (λ _. tt))

accept_or-OnError :
    (final : IdentitySet) (rest : Bytes) (o : Option Identity) (retry : Result Failure Generated)
    → OnError IsBad retry
    → OnError IsBad (accept_or final rest o retry)
accept_or-OnError final rest none retry h = h
accept_or-OnError final rest (some id) retry h = tt

generate-OnError :
    (n : ℕ) (id : Identity) (reserved final : IdentitySet) (source : Bytes)
    → OnError IsBad (generate n id reserved final source)
unfolding generate
generate-OnError zero id reserved final source = refl
generate-OnError (suc n) id reserved final source =
    if-OnError IsBad (ltb (length source) 6) (err bad_request) _ refl (
      accept_or-OnError final (drop 6 source)
        (candidate reserved final id (mac_string (local_unicast (take 6 source))))
        (generate n id reserved final (drop 6 source))
        (generate-OnError n id reserved final (drop 6 source)))

generate_entry-OnError :
    (reserved final : IdentitySet) (id : Identity) (mac : Text) (source : Bytes)
    → OnError IsBad (generate_entry reserved final id mac source)
generate_entry-OnError reserved final id [] source =
    generate-OnError mac_retries id reserved final source
generate_entry-OnError reserved final id (c ∷ mac) source = tt

generate_all-OnError :
    (reserved final : IdentitySet) (ids : List Identity) (source : Bytes)
    → OnError IsBad (generate_all reserved final ids source)
unfolding generate_all
generate_all-OnError reserved final [] source = tt
generate_all-OnError reserved final (id ∷ ids) source =
    OnError->>= IsBad _ _ (generate_entry-OnError reserved final id id.mac source)
      (λ r. OnError->>= IsBad _ _ (generate_all-OnError reserved r.1.0 ids r.1.1) (λ _. tt))

pub allocate-OnError :
    (ds : List RequestDevice) (source : Bytes) → OnError IsBad (allocate ds source)
unfolding allocate
allocate-OnError ds source = OnError->>= IsBad _ _ (supply_all-OnError 0 ds new_identity_set) (λ r.
    OnError->>= IsBad _ _ (complete_all-OnError r.1 new_identity_set r.0)
      (λ s. OnError->>= IsBad _ _ (generate_all-OnError r.1 s.1 s.0 source) (λ _. tt)))
