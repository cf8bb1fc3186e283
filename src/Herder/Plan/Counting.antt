-- ===== src/Herder/Plan/Counting.antt =====
-- internal/herder/plan.go: counting devices, in a sorted list and over units.
use unifi_emu.Common.{ℕ, ◌+◌, ◌≡◌, refl, Bool, List, [], ◌∷◌, ◌++◌, if◌then◌else◌, arith}
use unifi_emu.Herder.Protocol.{Identity}
use unifi_emu.Herder.Plan.{Container, all_devices, sink, sort_from, turned, sort_by_index}

-- How many devices of a list pass a test.
unfoldable pub count : (Identity → Bool) → List Identity → ℕ
count f [] = 0
count f (d ∷ ds) = (if f d then 1 else 0) + count f ds

module _ (f : Identity → Bool) where
  pub count-append : (xs ys : List Identity) → count f (xs ++ ys) ≡ count f xs + count f ys
  unfolding count
  count-append [] ys = omega arith
  count-append (x ∷ xs) ys = omega (arith, count-append xs ys)

  count-sink : (d : Identity) (es : List Identity) → count f (sink d es) ≡ count f (d ∷ es)
  unfolding sink count
  count-sink d [] = refl
  count-sink d (e ∷ es) = ground (arith, count-sink d es)

  count-sort_from :
      (sorted ds : List Identity) → count f (sort_from sorted ds) ≡ count f sorted + count f ds
  unfolding sort_from count
  count-sort_from sorted [] = omega arith
  count-sort_from sorted (d ∷ ds) =
      let e : count f (sink d sorted) ≡ (if f d then 1 else 0) + count f sorted =
        count-sink d sorted in
      omega (arith, count-sort_from (sink d sorted) ds, e)

  count-turned : (acc ds : List Identity) → count f (turned acc ds) ≡ count f acc + count f ds
  unfolding turned count
  count-turned acc [] = omega arith
  count-turned acc (d ∷ ds) = omega (arith, count-turned (d ∷ acc) ds)

  pub count-sort_by_index : (ds : List Identity) → count f (sort_by_index ds) ≡ count f ds
  unfolding sort_by_index count
  count-sort_by_index ds = omega (arith, count-turned [] (sort_from [] ds), count-sort_from [] ds)

  pub all_devices-append :
      (us vs : List Container)
      → count f (all_devices (us ++ vs)) ≡ count f (all_devices us) + count f (all_devices vs)
  unfolding all_devices count
  all_devices-append [] vs = omega arith
  all_devices-append (u ∷ us) vs = omega (
    arith,
    count-append u.devices (all_devices (us ++ vs)),
    count-append u.devices (all_devices us),
    all_devices-append us vs,
  )
