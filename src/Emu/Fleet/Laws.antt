-- ===== src/Emu/Fleet/Laws.antt =====
-- emu.go: adding devices under several spellings of a MAC, and starting.
use unifi_emu.Common.{
  ℕ, ◌≤◌, ◌≡◌, ap, ◌∙◌, List, some, Text, Bytes, length, text_eq_refl, ok, err, >>=-eq-ok, arith,
  ok-injective,
}
use unifi_emu.Common.Assoc.{lookup, insert, lookup-insert}
use unifi_emu.Common.Mac.{parse_mac}
use unifi_emu.Emu.Profile.{Registry, DeviceSpec, profile}
use unifi_emu.Emu.Device.{
  Device, pending, duplicate_mac, after_start, six_bytes, new_device, or_unknown, check_type,
}
use unifi_emu.Emu.Fleet.{
  Emu, normalize_mac, fail_if_some, add_one, add, state, start, already_started,
}

six_bytes-some : (hw : Bytes) {b : Bytes} → six_bytes (some hw) ≡ ok b → (length hw ≡ 6) × (hw ≡ b)
six_bytes-some hw h = ground arith

-- Two spellings of one address have one normal form.
normalize_mac_congr : (s t : Text) → parse_mac s ≡ parse_mac t → normalize_mac s ≡ normalize_mac t
unfolding normalize_mac
normalize_mac_congr s t e = rw e

-- What a successful `Add` of one specification did.
add_one_inv :
    (registry : Registry) (now : ℕ) (e : Emu) (spec : DeviceSpec) {e1 : Emu}
    → add_one registry now e spec ≡ ok e1
    → (mac : Text) × (d : Device) × (normalize_mac spec.mac ≡ ok mac)
      × (new_device registry (record spec { mac = mac }) e.inform_url now ≡ ok d)
      × (record e { devices = insert mac (record d { interval = e.interval }) e.devices } ≡ e1)
unfolding add_one
add_one_inv registry now e spec h =
    let (mac, h1, g1) = >>=-eq-ok (normalize_mac spec.mac) _ h in
    let (_, h2, g2) = >>=-eq-ok (fail_if_some (lookup mac e.devices) duplicate_mac) _ g1 in
    let (d, h3, g3) =
      >>=-eq-ok (new_device registry (record spec { mac = mac }) e.inform_url now) _ g2 in
    (mac, d, h1, h3, ok-injective g3)

new_device_pending :
    (registry : Registry) (spec : DeviceSpec) (url : Text) (now : ℕ) {d : Device}
    → new_device registry spec url now ≡ ok d
    → d.state ≡ pending
unfolding new_device
new_device_pending registry spec url now h =
    let (prof, h1, g1) = >>=-eq-ok (or_unknown (profile registry spec.model)) _ h in
    let (hw, h2, g2) = >>=-eq-ok (six_bytes (parse_mac spec.mac)) _ g1 in
    let (type, h3, g3) = >>=-eq-ok (check_type spec.type prof.type) _ g2 in ground arith

-- After a specification was added, `State` finds its device PENDING under every spelling of its MAC,
-- and a second specification with any spelling of that MAC is refused as a duplicate.
pub add_one_known :
    (registry : Registry) (now : ℕ) (e e1 : Emu) (spec : DeviceSpec) (again : DeviceSpec) (s : Text)
    → add_one registry now e spec ≡ ok e1
    → parse_mac s ≡ parse_mac spec.mac
    → parse_mac again.mac ≡ parse_mac spec.mac
    → (state e1 s ≡ some pending) × (add_one registry now e1 again ≡ err duplicate_mac)
unfolding state add_one
add_one_known registry now e e1 spec again s h p q =
    let (mac, d, hm, hd, he) = add_one_inv registry now e spec h in
    let d1 = record d { interval = e.interval } in
    let found : lookup mac e1.devices ≡ some d1 =
      rw (← he) (lookup-insert mac mac d1 e.devices ∙ rw (text_eq_refl mac)) in
    (
      rw (normalize_mac_congr s spec.mac p, hm)
          (rw found (ap some (new_device_pending registry _ e.inform_url now hd))),
      rw (normalize_mac_congr again.mac spec.mac q, hm) (rw found),
    )

-- A fleet starts once: a started fleet refuses to start again and to take devices, and stays as it
-- is.
pub start_once :
    (registry : Registry) (now : ℕ) (e e1 : Emu) (specs : List DeviceSpec)
    → start e ≡ ok e1
    → (1 ≤ length e.devices)
      × (start e1 ≡ err already_started)
      × (add registry now e1 specs ≡ (e1, some after_start))
unfolding start add
start_once registry now e e1 specs h = ground arith
