-- ===== src/Adopt/Tests.antt =====
-- A device that is adopted at the second try, and one that is there already.
use unifi_emu.Common.{ℕ, ◌≡◌, refl, Bool, true, false, List, [], ◌∷◌, Text, codes, Result, ok, err}
use unifi_emu.Common.Int.{pos}
use unifi_emu.Common.Strings.{lower, has_prefix, contains}
use unifi_emu.Adopt.{
  Device, Turn, AdoptError, on_pending, on_connected, adopt_sent, complete, wait_pending,
  adopt_with_retry, wait_adopted, adopt_device, fleet,
}
use unifi_emu.Adopt.Traces.{at, IsTrace, fleet-IsTrace}

abbrev mac : Text
mac = codes "02:00:00:00:00:0a"

abbrev other : Text
other = codes "02:00:00:00:00:0b"

abbrev device : Text → ℕ → Bool → Device
device m state adopted = record { mac = m; state = pos state; adopted = adopted }

abbrev turn : Result Text Device → Result AdoptError (Unit {0}) → Turn
turn lookup adopt = record { lookup = lookup; adopt = adopt; alive = true; is_done = false }

abbrev young : AdoptError
young = record { booting = false; message = codes "api.err.CannotAdopt" }

abbrev turns : List Turn
turns =
    turn (err (codes "device not found")) (ok tt)
    ∷ turn (ok (device mac 2 false)) (ok tt)
    ∷ turn (ok (device mac 2 false)) (err young)
    ∷ turn (ok (device mac 2 false)) (ok tt)
    ∷ turn (ok (device mac 7 true)) (ok tt)
    ∷ turn (ok (device mac 1 true)) (ok tt)
    ∷ turn (ok (device other 1 true)) (ok tt)
    ∷ []

fleet_lem : fleet false (mac ∷ other ∷ []) turns ≡ (
  on_pending mac (device mac 2 false)
      ∷ adopt_sent mac
      ∷ adopt_sent mac
      ∷ on_connected mac (device mac 1 true)
      ∷ on_connected other (device other 1 true)
      ∷ [],
  complete,
)
unfolding wait_pending has_prefix contains adopt_with_retry wait_adopted adopt_device fleet lower
fleet_lem = refl

fleet-IsTrace_example : IsTrace (at (mac ∷ other ∷ []) false) (fleet false (mac ∷ other ∷ []) turns)
fleet-IsTrace_example = fleet-IsTrace false (mac ∷ other ∷ []) turns
