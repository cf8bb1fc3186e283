-- ===== src/Inform/Json.antt =====
-- The JSON values that the payload is built from. A table of rows is a list of objects, and an
-- object a list of members; `raw` is a json.RawMessage.
use unifi_emu.Common.{Bool, List, [], ◌∷◌, map, Text, Bytes}
use unifi_emu.Common.Int.{ℤ}

mutual
  pub data Json : Type 0 where
    str : Text → Json
    num : ℤ → Json
    decimal : Text → Json
    bool : Bool → Json
    raw : Bytes → Json
    arr : Items → Json
    obj : Members → Json

  pub data Items : Type 0 where
    nil : Items
    item : Json → Items → Items

  pub data Members : Type 0 where
    end : Members
    member : Text → Json → Members → Members

abbrev pub items : List Json → Items
items [] = nil
items (j ∷ js) = item j (items js)

abbrev pub members : List (Text × Json) → Members
members [] = end
members ((k, j) ∷ m) = member k j (members m)

abbrev pub object : List (Text × Json) → Json
object m = obj (members m)

-- A Go slice of maps, as the array it marshals to.
abbrev pub table : List (List (Text × Json)) → Json
table rows = arr (items (map (λ m. object m) rows))
