-- ===== src/Herder/Allocation.antt =====
-- internal/herder/identity.go: `Allocate`, in its three passes, and `generate`. The random source is
-- the bytes that it has left.
pub mod Filling
pub mod Claims
pub mod Steps
pub mod Unique
pub mod Failures
pub mod Filled
pub mod Outcomes
mod Tests
use unifi_emu.Common.{
  ℕ, zero, suc, ◌+◌, ◌*◌, ◌/◌, ◌≡◌, Bool, true, false, ◌||◌, List, [], ◌∷◌, Option, none, some,
  Text, Bytes, length, take, drop, ltb, if◌then◌else◌, Result, ok, err, ◌>>=◌, ◌>>◌,
}
use unifi_emu.Common.Int.{ℤ, pos}
use unifi_emu.Common.Mac.{mac_string}
use unifi_emu.Inform.Session.{is_empty}
use unifi_emu.Herder.Protocol.{Identity}
use unifi_emu.Herder.Plan.{text_among}
use unifi_emu.Herder.Readiness.{Failure}
use unifi_emu.Herder.Identity.{
  bad_request, check_model, check_serial, check_name, canonical_mac, mac_hex, derived_serial,
  derived_name,
}

abbrev pub mac_retries : ℕ
mac_retries = 64

-- internal/herder/request.go.
pub record RequestDevice : Type 0 where
  pub model : Text
  pub mac : Text
  pub serial : Text
  pub name : Text

pub record IdentitySet : Type 0 where
  pub macs : List Text
  pub serials : List Text
  pub names : List Text

abbrev pub new_identity_set : IdentitySet
new_identity_set = record { macs = []; serials = []; names = [] }

-- `add`, where a value that is already claimed is an error.
unfoldable pub claim : Text → List Text → Result Failure (List Text)
claim v set = if text_among v set then err bad_request else ok (v ∷ set)

-- `add`, whose result is not looked at.
unfoldable pub add_text : Text → List Text → List Text
add_text v set = if text_among v set then set else v ∷ set

abbrev pub keep_mac : Text → Text → Result Failure Text
keep_mac [] s = ok []
keep_mac (c ∷ s) mac = canonical_mac mac

-- A value that is supplied is checked and claimed.
abbrev pub supply :
    Text → (Text → Result Failure (Unit {0})) → List Text → Result Failure (List Text)
supply [] check set = ok set
supply (c ∷ s) check set = do check (c ∷ s); claim (c ∷ s) set

-- Pass 1, of one device.
unfoldable pub supply_one :
    ℕ → RequestDevice → IdentitySet → Result Failure (Identity × IdentitySet)
supply_one i d set = do
  check_model d.model
  mac ← keep_mac d.mac d.mac
  macs ← supply mac (λ m. ok tt) set.macs
  serials ← supply d.serial check_serial set.serials
  names ← supply d.name check_name set.names
  ok (
    record { index = pos i; model = d.model; mac = mac; serial = d.serial; name = d.name },
    record { macs = macs; serials = serials; names = names },
  )

unfoldable pub supply_all :
    ℕ → List RequestDevice → IdentitySet → Result Failure (List Identity × IdentitySet)
supply_all i [] set = ok ([], set)
supply_all i (d ∷ ds) set = do
  (id, set1) ← supply_one i d set
  (ids, set2) ← supply_all (i + 1) ds set1
  ok (id ∷ ids, set2)

-- A supplied value, or the derived one unless it is taken.
unfoldable pub pick : List Text → List Text → Text → Text → Option Text
pick reserved final [] derived =
    if text_among derived reserved || text_among derived final then none else some derived
pick reserved final (c ∷ s) derived = some (c ∷ s)

-- `final.add` of a derived value only.
abbrev pub add_derived : Text → Text → List Text → List Text
add_derived [] v set = add_text v set
add_derived (c ∷ s) v set = set

abbrev pub or_taken {ℓ} : {A : Type ℓ} → Option A → Result Failure A
or_taken none = err bad_request
or_taken (some a) = ok a

-- Pass 2, of an entry whose MAC is supplied.
unfoldable pub complete_one :
    IdentitySet → IdentitySet → Identity → Result Failure (Identity × IdentitySet)
complete_one reserved final id = do
  serial ←
      or_taken (pick reserved.serials final.serials id.serial (derived_serial (mac_hex id.mac)))
  name ← or_taken (pick reserved.names final.names id.name (derived_name id.model (mac_hex id.mac)))
  ok (
    record id { serial = serial; name = name },
    record final {
      serials = add_derived id.serial serial final.serials;
      names = add_derived id.name name final.names;
    },
  )

abbrev pub complete_entry :
    IdentitySet → IdentitySet → Identity → Text → Result Failure (Identity × IdentitySet)
complete_entry reserved final id [] = ok (id, final)
complete_entry reserved final id (c ∷ mac) = complete_one reserved final id

unfoldable pub complete_all :
    IdentitySet → IdentitySet → List Identity → Result Failure (List Identity × IdentitySet)
complete_all reserved final [] = ok ([], final)
complete_all reserved final (id ∷ ids) = do
  (id1, final1) ← complete_entry reserved final id id.mac
  (ids1, final2) ← complete_all reserved final1 ids
  ok (id1 ∷ ids1, final2)

-- `raw[0] &^= 0x01` and `raw[0] |= 0x02`.
abbrev pub local_unicast : Bytes → Bytes
local_unicast [] = []
local_unicast (b ∷ raw) = (b / 4 * 4 + 2) ∷ raw

abbrev pub with_mac : Identity → Text → Option Text → Option Text → Option Identity
with_mac id mac none name = none
with_mac id mac (some serial) none = none
with_mac id mac (some serial) (some name) =
    some (record id { mac = mac; serial = serial; name = name })

-- The identity that a MAC gives, unless something of it is taken.
unfoldable pub candidate : IdentitySet → IdentitySet → Identity → Text → Option Identity
candidate reserved final id mac =
    if text_among mac reserved.macs || text_among mac final.macs
    then none
    else with_mac id mac
        (pick reserved.serials final.serials id.serial (derived_serial (mac_hex mac)))
        (pick reserved.names final.names id.name (derived_name id.model (mac_hex mac)))

unfoldable pub claim_all : Identity → IdentitySet → IdentitySet
claim_all id final = record {
  macs = add_text id.mac final.macs;
  serials = add_text id.serial final.serials;
  names = add_text id.name final.names;
}

abbrev pub Generated : Type 0
Generated = Identity × (IdentitySet × Bytes)

abbrev pub accept_or :
    IdentitySet → Bytes → Option Identity → Result Failure Generated → Result Failure Generated
accept_or final rest none retry = retry
accept_or final rest (some id) retry = ok (id, (claim_all id final, rest))

-- The loop of `generate`, with the attempts that are left.
unfoldable pub generate :
    ℕ → Identity → IdentitySet → IdentitySet → Bytes → Result Failure Generated
generate zero id reserved final source = err bad_request
generate (suc attempts) id reserved final source =
    let rest = drop 6 source in
    let retry = generate attempts id reserved final rest in
    let mac = mac_string (local_unicast (take 6 source)) in
    if ltb (length source) 6
    then err bad_request
    else accept_or final rest (candidate reserved final id mac) retry

abbrev pub generate_entry :
    IdentitySet → IdentitySet → Identity → Text → Bytes → Result Failure Generated
generate_entry reserved final id [] source = generate mac_retries id reserved final source
generate_entry reserved final id (c ∷ mac) source = ok (id, (final, source))

-- Pass 3.
unfoldable pub generate_all :
    IdentitySet → IdentitySet → List Identity → Bytes → Result Failure (List Identity × IdentitySet)
generate_all reserved final [] source = ok ([], final)
generate_all reserved final (id ∷ ids) source = do
  (id1, (final1, rest)) ← generate_entry reserved final id id.mac source
  (ids1, final2) ← generate_all reserved final1 ids rest
  ok (id1 ∷ ids1, final2)

unfoldable pub allocate : List RequestDevice → Bytes → Result Failure (List Identity)
allocate devices source = do
  (supplied, reserved) ← supply_all 0 devices new_identity_set
  (completed, final) ← complete_all reserved new_identity_set supplied
  (ids, final1) ← generate_all reserved final completed source
  ok ids
