-- ===== src/Herder/Plan/Order.antt =====
-- internal/herder/plan.go: the order that `sortByIndex` gives.
use unifi_emu.Common.{◌≡◌, refl, true, false, List, [], ◌∷◌, arith, All, Bool-cases, inl, inr}
use unifi_emu.Common.Int.{ℤ, pos, negsuc}
use unifi_emu.Herder.Protocol.{Identity}
use unifi_emu.Herder.Plan.{Plan, less_ℤ, sink, sort_from, turned, sort_by_index, devices}

-- No later index is smaller.
abbrev pub IsAscending : List Identity → Type 0
IsAscending [] = Unit {0}
IsAscending (d ∷ ds) = All (λ e. less_ℤ e.index d.index ≡ false) ds × IsAscending ds

abbrev IsDescending : List Identity → Type 0
IsDescending [] = Unit {0}
IsDescending (d ∷ ds) = All (λ e. less_ℤ d.index e.index ≡ false) ds × IsDescending ds

less_ℤ_asym : (a b : ℤ) → less_ℤ a b ≡ true → less_ℤ b a ≡ false
less_ℤ_asym (pos a) (pos b) h = ground arith
less_ℤ_asym (pos a) (negsuc b) h = cc
less_ℤ_asym (negsuc a) (pos b) h = refl
less_ℤ_asym (negsuc a) (negsuc b) h = ground arith

not_less_trans : (a b c : ℤ) → less_ℤ a b ≡ false → less_ℤ b c ≡ false → less_ℤ a c ≡ false
not_less_trans (pos a) (pos b) (pos c) h k = ground arith
not_less_trans (pos a) (pos b) (negsuc c) h k = refl
not_less_trans (pos a) (negsuc b) (pos c) h k = cc
not_less_trans (pos a) (negsuc b) (negsuc c) h k = refl
not_less_trans (negsuc a) (pos b) c h k = cc
not_less_trans (negsuc a) (negsuc b) (pos c) h k = cc
not_less_trans (negsuc a) (negsuc b) (negsuc c) h k = ground arith

All-sink :
    (P : Identity → Type 0) (d : Identity) (es : List Identity) → P d → All P es → All P (sink d es)
unfolding sink
All-sink P d [] p h = (p, tt)
All-sink P d (e ∷ es) p h =
    let rest = All-sink P d es p h.1 in
    elim (Bool-cases (less_ℤ d.index e.index)) [ inl q ↦ rw q (h.0, rest) | inr q ↦ rw q (p, h) ]

bounded :
    (d e : Identity) (es : List Identity)
    → less_ℤ d.index e.index ≡ false
    → All (λ x. less_ℤ e.index x.index ≡ false) es
    → All (λ x. less_ℤ d.index x.index ≡ false) es
bounded d e [] h k = tt
bounded d e (x ∷ es) h k = (not_less_trans d.index e.index x.index h k.0, bounded d e es h k.1)

sink-IsDescending : (d : Identity) (es : List Identity) → IsDescending es → IsDescending (sink d es)
unfolding sink
sink-IsDescending d [] h = (tt, tt)
sink-IsDescending d (e ∷ es) h =
    let rest = sink-IsDescending d es h.1 in
    elim (Bool-cases (less_ℤ d.index e.index)) [
      | inl q ↦ rw q (
        All-sink (λ x. less_ℤ e.index x.index ≡ false) d es (less_ℤ_asym d.index e.index q) h.0,
        rest,
      )
      | inr q ↦ rw q ((q, bounded d e es q h.0), h)
    ]

sort_from-IsDescending :
    (sorted ds : List Identity) → IsDescending sorted → IsDescending (sort_from sorted ds)
unfolding sort_from
sort_from-IsDescending sorted [] h = h
sort_from-IsDescending sorted (d ∷ ds) h =
    sort_from-IsDescending (sink d sorted) ds (sink-IsDescending d sorted h)

-- Turning a descending list onto an ascending one whose elements are no smaller.
abbrev IsAbove : List Identity → List Identity → Type 0
IsAbove acc ds = All (λ d. All (λ e. less_ℤ e.index d.index ≡ false) acc) ds

push-IsAbove :
    (d : Identity) (acc ds : List Identity)
    → All (λ e. less_ℤ d.index e.index ≡ false) ds
    → IsAbove acc ds
    → IsAbove (d ∷ acc) ds
push-IsAbove d acc [] h k = tt
push-IsAbove d acc (e ∷ ds) h k = ((h.0, k.0), push-IsAbove d acc ds h.1 k.1)

turned-IsAscending :
    (acc ds : List Identity)
    → IsAscending acc
    → IsDescending ds
    → IsAbove acc ds
    → IsAscending (turned acc ds)
unfolding turned
turned-IsAscending acc [] a d b = a
turned-IsAscending acc (x ∷ ds) a d b =
    turned-IsAscending (x ∷ acc) ds (b.0, a) d.1 (push-IsAbove x acc ds d.0 b.1)

IsAbove-nil : (ds : List Identity) → IsAbove [] ds
IsAbove-nil [] = tt
IsAbove-nil (d ∷ ds) = (tt, IsAbove-nil ds)

-- `Devices` of any plan comes in the order of the request's indices: none is smaller than one before
-- it.
pub devices-IsAscending : (p : Plan) → IsAscending (devices p)
unfolding devices sort_by_index
devices-IsAscending p =
    let sorted = sort_from-IsDescending [] _ tt in turned-IsAscending [] _ tt sorted (IsAbove-nil _)
