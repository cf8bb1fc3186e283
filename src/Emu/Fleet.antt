-- ===== src/Emu/Fleet.antt =====
-- emu.go: the fleet, its devices keyed by normalized MAC. Goroutines and timers are left out.
pub mod Laws
mod Tests
use unifi_emu.Common.{
  ℕ, zero, suc, ◌*◌, ◌≡◌, Bool, true, false, not, List, [], ◌∷◌, Option, none, some, Text, Bytes,
  length, text_eq, ◌==◌, if◌then◌else◌, Result, ok, err, ◌>>=◌, ◌>>◌, fail_if,
}
use unifi_emu.Common.Int.{ℤ, pos, is_positive, nanoseconds}
use unifi_emu.Common.Assoc.{lookup, insert}
use unifi_emu.Common.Mac.{parse_mac, mac_string}
use unifi_emu.Emu.Profile.{Registry, DeviceSpec}
use unifi_emu.Emu.Device.{
  Device, DeviceState, Error, bad_mac, after_start, duplicate_mac, six_bytes, new_device,
}

pub record Emu : Type 0 where
  pub inform_url : Text
  pub interval : ℤ
  pub devices : List (Text × Device)
  pub started : Bool

-- `New` with the options already folded into the interval.
unfoldable pub new_emu : Text → Option ℤ → Emu
new_emu url none = record {
  inform_url = url;
  interval = pos (10 * nanoseconds);
  devices = [];
  started = false;
}
new_emu url (some interval) = record {
  inform_url = url;
  interval = interval;
  devices = [];
  started = false;
}

unfoldable pub normalize_mac : Text → Result Error Text
normalize_mac s = do hw ← six_bytes (parse_mac s); ok (mac_string hw)

abbrev pub fail_if_some {ℓ} : {A : Type ℓ} → Option A → Error → Result Error (Unit {0})
fail_if_some none e = ok tt
fail_if_some (some a) e = err e

-- The body of the loop of `Add`.
unfoldable pub add_one : Registry → ℕ → Emu → DeviceSpec → Result Error Emu
add_one registry now e spec = do
  mac ← normalize_mac spec.mac
  fail_if_some (lookup mac e.devices) duplicate_mac
  d ← new_device registry (record spec { mac = mac }) e.inform_url now
  ok (record e { devices = insert mac (record d { interval = e.interval }) e.devices })

-- The first invalid specification ends the call, and what was added before stays.
abbrev pub add_rest : (Emu → Emu × Option Error) → Emu → Result Error Emu → Emu × Option Error
add_rest rest e (err x) = (e, some x)
add_rest rest e (ok e1) = rest e1

unfoldable pub add_all : Registry → ℕ → List DeviceSpec → Emu → Emu × Option Error
unfolding add_one
add_all registry now [] e = (e, none)
add_all registry now (spec ∷ specs) e =
    add_rest (add_all registry now specs) e (add_one registry now e spec)

unfoldable pub add : Registry → ℕ → Emu → List DeviceSpec → Emu × Option Error
add registry now e specs = if e.started then (e, some after_start) else add_all registry now specs e

pub data StartError : Type 0 where
  already_started no_devices bad_interval : StartError

unfoldable pub start : Emu → Result StartError Emu
start e = do
  fail_if e.started already_started
  fail_if (length e.devices == 0) no_devices
  fail_if (not (is_positive e.interval)) bad_interval
  ok (record e { started = true })

abbrev pub state_of : Option Device → Option DeviceState
state_of none = none
state_of (some d) = some d.state

abbrev pub state_at : Emu → Result Error Text → Option DeviceState
state_at e (err x) = none
state_at e (ok mac) = state_of (lookup mac e.devices)

-- `State`: none where the MAC does not parse or the fleet does not know it.
unfoldable pub state : Emu → Text → Option DeviceState
state e mac = state_at e (normalize_mac mac)
