-- ===== src/Herder/Readiness/Verdicts.antt =====
-- internal/herder/readiness.go: the containers that pass, and the codes of those that do not.
use unifi_emu.Common.{
  ◌≡◌, ◌≢◌, refl, sym, ◌∙◌, ap, ◌⊎◌, inl, inr, Bool, true, false, not, ◌&&◌, ◌||◌, List, [], ◌∷◌,
  Option, none, some, Text, codes, length, text_eq, text_eq_iff, unequal, if◌then◌else◌, ok, err,
  >>=-eq-ok, arith, ◌==◌, ok-injective, fail_if, map,
}
use unifi_emu.Common.Int.{ℤ, pos, negsuc, is_positive}
use unifi_emu.Common.Assoc.{lookup}
use unifi_emu.Common.Strings.{lower}
use unifi_emu.Inform.Session.{is_empty}
use unifi_emu.Herder.Protocol.{allows_phase, code_matrix}
use unifi_emu.Herder.Plan.{Container, Plan, endpoint_mac}
use unifi_emu.Herder.Readiness.{
  Endpoint, ContainerState, Failure, same_mac, check_attachment, check_runtime_state, eq_ℤ,
  or_failure, is_none,
}

fail_if-ok {ℓ} : {E : Type ℓ} (t : Bool) (e : E) {u : Unit {0}} → fail_if t e ≡ ok u → t ≡ false
fail_if-ok true e h = cc
fail_if-ok false e h = refl

-- The one network of a container that is attached as planned.
pub record IsAttached (plan : Plan) (unit : Container) (state : ContainerState) (ip : Text)
    : Type 0 where
  pub endpoint : Endpoint
  pub only_network : state.networks ≡ (plan.network, endpoint) ∷ []
  pub unpublished : is_positive state.host_port_bindings ≡ false
  pub planned_mac :
      (endpoint_mac unit ≡ []) ⊎ (map lower endpoint.mac ≡ map lower (endpoint_mac unit))
  pub address : ip ≡ endpoint.ipv4
  pub has_address : ip ≢ []

one_network :
    (k : Text) (m : List (Text × Endpoint)) (e : Endpoint)
    → (if length m == 1 then false else true) ≡ false
    → lookup k m ≡ some e
    → m ≡ (k, e) ∷ []
unfolding lookup
one_network k [] e h g = cc
one_network k ((j, f) ∷ []) e h g = ground (arith, text_eq_iff j k)
one_network k ((j, f) ∷ p ∷ m) e h g = absurd (ground arith)

or_failure-some {ℓ} :
    {A : Type ℓ} (e : Failure) (o : Option A) {a : A} → or_failure e o ≡ ok a → o ≡ some a
or_failure-some e none h = cc
or_failure-some e (some b) h = ap some (ok-injective h)

mac_planned :
    (want got : Text)
    → (not (is_empty want) && not (same_mac got want)) ≡ false
    → (want ≡ []) ⊎ (map lower got ≡ map lower want)
unfolding same_mac
mac_planned [] got h = inl refl
mac_planned (c ∷ want) got h = ground (arith, text_eq_iff (map lower got) (map lower (c ∷ want)))

is_empty-false : (t : Text) → is_empty t ≡ false → t ≢ []
is_empty-false [] h = cc
is_empty-false (c ∷ t) h = λ e. cc

-- A container that `checkAttachment` accepts is attached to the caller's network only, publishes
-- nothing, carries the planned MAC up to case where one is planned, and the address returned is the
-- one on that network, and is not empty.
pub check_attachment-IsAttached :
    (plan : Plan) (unit : Container) (state : ContainerState) (ip : Text)
    → check_attachment plan unit state ≡ ok ip
    → IsAttached plan unit state ip
unfolding check_attachment
check_attachment-IsAttached plan unit state ip h =
    let (_, h1, g1) = >>=-eq-ok (fail_if _ _) _ h in
    let (e, h2, g2) = >>=-eq-ok (or_failure _ (lookup plan.network state.networks)) _ g1 in
    let (_, h3, g3) = >>=-eq-ok (fail_if _ _) _ g2 in
    let (_, h4, g4) = >>=-eq-ok (fail_if _ _) _ g3 in
    let (_, h5, g5) = >>=-eq-ok (fail_if _ _) _ g4 in
    let same = ok-injective g5 in
    record {
      endpoint = e;
      only_network =
          one_network plan.network state.networks e (fail_if-ok _ _ h1) (or_failure-some _ _ h2);
      unpublished = fail_if-ok _ _ h3;
      planned_mac = mac_planned (endpoint_mac unit) e.mac (fail_if-ok _ _ h4);
      address = sym same;
      has_address = λ q. is_empty-false e.ipv4 (fail_if-ok _ _ h5) (same ∙ q);
    }

-- A container that runs on as it did at the baseline, on the caller's network only.
pub record IsSteady (plan : Plan) (baseline state : ContainerState) : Type 0 where
  pub is_running : state.running ≡ true
  pub not_unhealthy : state.health ≢ codes "unhealthy"
  pub same_count : state.restart_count ≡ baseline.restart_count
  pub same_start : state.started_at ≡ baseline.started_at
  pub one_endpoint : (e : Endpoint) × (state.networks ≡ (plan.network, e) ∷ [])

pub eq_ℤ-true : (a b : ℤ) → eq_ℤ a b ≡ true → a ≡ b
eq_ℤ-true (pos a) (pos b) h = ground arith
eq_ℤ-true (pos a) (negsuc b) h = cc
eq_ℤ-true (negsuc a) (pos b) h = cc
eq_ℤ-true (negsuc a) (negsuc b) h = ground arith

not-false : (b : Bool) → not b ≡ false → b ≡ true
not-false true h = refl
not-false false h = cc

found : (o : Option Endpoint) → is_none o ≡ false → (e : Endpoint) × (o ≡ some e)
found none h = cc
found (some e) h = (e, refl)

unrestarted :
    (baseline state : ContainerState)
    → (not (eq_ℤ state.restart_count baseline.restart_count)
        || not (text_eq state.started_at baseline.started_at))
      ≡ false
    → (state.restart_count ≡ baseline.restart_count) × (state.started_at ≡ baseline.started_at)
unrestarted baseline state h = ground (
  arith,
  eq_ℤ-true state.restart_count baseline.restart_count,
  text_eq_iff state.started_at baseline.started_at,
)

-- A container that `checkRuntimeState` accepts is running, is not unhealthy, was not restarted since
-- the baseline, and is attached to the caller's network only.
pub check_runtime_state-IsSteady :
    (plan : Plan) (baseline state : ContainerState)
    → check_runtime_state plan baseline state ≡ ok tt
    → IsSteady plan baseline state
unfolding check_runtime_state
check_runtime_state-IsSteady plan baseline state h =
    let (_, h1, g1) = >>=-eq-ok (fail_if _ _) _ h in
    let (_, h2, g2) = >>=-eq-ok (fail_if _ _) _ g1 in
    let (_, h3, g3) = >>=-eq-ok (fail_if _ _) _ g2 in
    let (_, h4, g4) = >>=-eq-ok (fail_if _ _) _ g3 in
    let (_, h5, g5) = >>=-eq-ok (fail_if _ _) _ g4 in
    let (count, start) = unrestarted baseline state (fail_if-ok _ _ h3) in
    let (e, at) = found (lookup plan.network state.networks) (fail_if-ok _ _ h5) in
    record {
      is_running = not-false state.running (fail_if-ok _ _ h1);
      not_unhealthy = unequal state.health (codes "unhealthy") (fail_if-ok _ _ h2);
      same_count = count;
      same_start = start;
      one_endpoint = (e, one_network plan.network state.networks e (fail_if-ok _ _ h4) at);
    }

attachment_legal :
    (plan : Plan) (unit : Container) (state : ContainerState) (f : Failure)
    → check_attachment plan unit state ≡ err f
    → allows_phase f.code f.phase ≡ true
unfolding check_attachment allows_phase code_matrix
attachment_legal plan unit state f h = ground arith

runtime_legal :
    (plan : Plan) (baseline state : ContainerState) (f : Failure)
    → check_runtime_state plan baseline state ≡ err f
    → allows_phase f.code f.phase ≡ true
unfolding check_runtime_state allows_phase code_matrix
runtime_legal plan baseline state f h = ground arith

-- Every failure of both checks has a code that the protocol's matrix defines for its phase, so the
-- writer does not refuse to publish it.
pub verdicts_legal :
    (plan : Plan) (unit : Container) (baseline state : ContainerState) (f : Failure)
    → (check_attachment plan unit state ≡ err f) ⊎ (check_runtime_state plan baseline state ≡ err f)
    → allows_phase f.code f.phase ≡ true
verdicts_legal plan unit baseline state f (inl h) = attachment_legal plan unit state f h
verdicts_legal plan unit baseline state f (inr h) = runtime_legal plan baseline state f h
