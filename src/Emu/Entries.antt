-- ===== src/Emu/Entries.antt =====
-- emu.go: WaitState; device.go: the names of the states and the entries of a fleet file; profile.go:
-- Models. What a fleet is at each tick is a list, and a YAML node is given with its own decoding.
mod Tests
use unifi_emu.Common.{
  ℕ, Bool, true, false, not, ◌&&◌, ◌||◌, List, [], ◌∷◌, Option, none, some, Text, codes, text_eq,
  ltb, ◌==◌, if◌then◌else◌, Result, ok, err,
}
use unifi_emu.Emu.Profile.{DeviceSpec, Registry}
use unifi_emu.Emu.Device.{DeviceState, pending, adopting, connected}
use unifi_emu.Emu.Fleet.{Emu, state}
use unifi_emu.Herder.Plan.{text_among}

unfoldable pub state_text : DeviceState → Text
state_text pending = codes "PENDING"
state_text adopting = codes "ADOPTING"
state_text connected = codes "CONNECTED"

-- How a wait ends: reached, an unknown device, the context with the last state, or no ticks left.
pub data Waited : Type 0 where
  reached unknown_device no_ticks : Waited
  context_over : DeviceState → Waited

abbrev pub state_number : DeviceState → ℕ
state_number pending = 0
state_number adopting = 1
state_number connected = 2

-- A turn of the select: the context is done, or a tick, with the fleet as it is then.
pub data WaitTick : Type 0 where
  over : WaitTick
  tick : Emu → WaitTick

abbrev pub wait_known : Option DeviceState → (DeviceState → Waited) → Waited
wait_known none next = unknown_device
wait_known (some got) next = next got

unfoldable pub wait_from : Text → DeviceState → List WaitTick → DeviceState → Waited
wait_from mac want [] got = if state_number got == state_number want then reached else no_ticks
wait_from mac want (over ∷ ts) got =
    if state_number got == state_number want then reached else context_over got
wait_from mac want (tick e ∷ ts) got =
    let next = wait_known (state e mac) (wait_from mac want ts) in
    if state_number got == state_number want then reached else next

unfoldable pub wait_state : Emu → Text → DeviceState → List WaitTick → Waited
wait_state e mac want ticks = wait_known (state e mac) (wait_from mac want ticks)

abbrev pub device_spec_keys : List Text
device_spec_keys =
    codes "mac"
    ∷ codes "serial"
    ∷ codes "type"
    ∷ codes "model"
    ∷ codes "modeldisplay"
    ∷ codes "version"
    ∷ codes "name"
    ∷ codes "ip"
    ∷ codes "ports"
    ∷ codes "ssids"
    ∷ codes "fwcaps"
    ∷ []

-- A YAML node: a scalar, a mapping with its keys and what it decodes to, or another kind.
pub data Node : Type 0 where
  scalar : Text → Node
  mapping : List Text → Option DeviceSpec → Node
  other_kind : ℕ → Node

pub data EntryError : Type 0 where
  bad_kind : ℕ → EntryError
  unknown_key : Text → EntryError
  not_decoded : EntryError

unfoldable pub check_keys : List Text → Result EntryError (Unit {0})
check_keys [] = ok tt
check_keys (k ∷ ks) =
    let rest = check_keys ks in if text_among k device_spec_keys then rest else err (unknown_key k)

abbrev pub decoded_spec : Option DeviceSpec → Result EntryError DeviceSpec
decoded_spec none = err not_decoded
decoded_spec (some s) = ok s

abbrev pub after_keys :
    Result EntryError (Unit {0}) → Option DeviceSpec → Result EntryError DeviceSpec
after_keys (err e) s = err e
after_keys (ok u) s = decoded_spec s

-- On the specification as it was.
unfoldable pub unmarshal_yaml : DeviceSpec → Node → Result EntryError DeviceSpec
unmarshal_yaml d (scalar value) = ok (record d { model = value })
unmarshal_yaml d (other_kind kind) = err (bad_kind kind)
unmarshal_yaml d (mapping keys s) = after_keys (check_keys keys) s

-- Texts in the order of their bytes.
unfoldable pub less_text : Text → Text → Bool
less_text s [] = false
less_text [] (d ∷ t) = true
less_text (c ∷ s) (d ∷ t) = ltb c d || (c == d && less_text s t)

unfoldable pub insert_text : Text → List Text → List Text
insert_text s [] = s ∷ []
insert_text s (t ∷ ts) =
    let rest = insert_text s ts in if less_text t s then t ∷ rest else s ∷ t ∷ ts

-- The names of the registry, sorted; sort.Strings orders distinct texts in one way.
unfoldable pub models : Registry → List Text
models [] = []
models ((m, p) ∷ rest) = insert_text m (models rest)
