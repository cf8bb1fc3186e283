-- ===== src/Emu/Loop/Runs.antt =====
-- loop.go: the loop of `run`, one inform after the other, until the context ends it.
use unifi_emu.Common.{
  ℕ, ◌≡◌, ◌≢◌, refl, ap, ◌⊎◌, inl, inr, List, [], ◌∷◌, ◌++◌, Text, Bytes, ok, >>=-eq-ok, arith,
}
use unifi_emu.Common.Mac.{parse_mac}
use unifi_emu.Inform.Session.{new_session}
use unifi_emu.Emu.Profile.{Registry, DeviceSpec, profile}
use unifi_emu.Emu.Device.{
  Device, DeviceState, pending, adopting, connected, new_device, or_unknown, six_bytes, check_type,
}
use unifi_emu.Emu.Device.Laws.{IsCoherent}
use unifi_emu.Emu.Loop.{World, Exchange, inform_once}
use unifi_emu.Emu.Loop.Handshake.{inform_once-IsCoherent, connected_from_adopting}

-- One round of the loop: its time, its IV, and what the network does.
pub record Round : Type 0 where
  pub now : ℕ
  pub iv : Bytes
  pub network : Text → Bytes → Exchange

unfoldable pub run : World → Device → List Round → Device
run w d [] = d
run w d (r ∷ rs) = run w (inform_once w d r.now r.iv r.network).0 rs

run-IsCoherent : (w : World) (d : Device) (rs : List Round) → IsCoherent d → IsCoherent (run w d rs)
unfolding run
run-IsCoherent w d [] h = h
run-IsCoherent w d (r ∷ rs) h =
    run-IsCoherent w (inform_once w d r.now r.iv r.network).0 rs
      (inform_once-IsCoherent w d r.now r.iv r.network h)

new_device-IsCoherent :
    (registry : Registry) (spec : DeviceSpec) (url : Text) (now : ℕ) {d : Device}
    → new_device registry spec url now ≡ ok d
    → IsCoherent d × (d.state ≡ pending)
unfolding new_device new_session
new_device-IsCoherent registry spec url now h =
    let (prof, h1, g1) = >>=-eq-ok (or_unknown (profile registry spec.model)) _ h in
    let (hw, h2, g2) = >>=-eq-ok (six_bytes (parse_mac spec.mac)) _ g1 in
    let (type, h3, g3) = >>=-eq-ok (check_type spec.type prof.type) _ g2 in ground arith

-- A device that `newDevice` accepted is, after any number of informs, PENDING exactly while its
-- session is not adopted.
pub new_device-run-IsCoherent :
    (registry : Registry) (spec : DeviceSpec) (url : Text) (boot : ℕ) (d : Device) (w : World)
    (rs : List Round)
    → new_device registry spec url boot ≡ ok d
    → IsCoherent (run w d rs)
new_device-run-IsCoherent registry spec url boot d w rs h =
    run-IsCoherent w d rs (new_device-IsCoherent registry spec url boot h).0

connected-cases : (st : DeviceState) → (st ≡ connected) ⊎ (st ≢ connected)
connected-cases pending = inr (λ e. cc)
connected-cases adopting = inr (λ e. cc)
connected-cases connected = inl refl

-- A device that was not CONNECTED and is so after some rounds has been ADOPTING before one of them.
pub connected_after_adopting :
    (w : World) (d : Device) (rs : List Round)
    → d.state ≢ connected
    → (run w d rs).state ≡ connected
    → (before : List Round) × (after : List Round) × (before ++ after ≡ rs)
      × ((run w d before).state ≡ adopting)
unfolding run
connected_after_adopting w d [] n h = absurd (n h)
connected_after_adopting w d (r ∷ rs) n h =
    let d1 = (inform_once w d r.now r.iv r.network).0 in
    elim (connected-cases d1.state) [
      | inl c ↦ elim (connected_from_adopting w d r.now r.iv r.network c) [
        | inl old ↦ absurd (n old)
        | inr ad ↦ ([], r ∷ rs, refl, ad)
      ]
      | inr m ↦
          let (before, after, e, ad) = connected_after_adopting w d1 rs m h in
          (r ∷ before, after, ap (λ t. r ∷ t) e, ad)
    ]
