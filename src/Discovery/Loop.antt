-- ===== src/Discovery/Loop.antt =====
-- The loop of `parse` on the fields that `marshal` writes, and on any bytes at all.
use unifi_emu.Common.{
  ℕ, zero, suc, ◌≤◌, ◌≡◌, refl, ◌∙◌, List, [], ◌∷◌, ◌++◌, Bytes, length, take, drop, ltb, ok, err,
  arith, length-append, length-drop, length-take, take-append, drop-append, ◌≢◌, ltb-false,
  Bool-cases, inl, inr,
}
use unifi_emu.Common.Endian.{u16, put_uint16, uint16}
use unifi_emu.Discovery.{Announcement, out_of_fuel, apply_tlv, parse_loop, parse, blank}
use unifi_emu.Discovery.Shape.{Tlv, encode}

abbrev pub apply_all : Announcement → List Tlv → Announcement
apply_all a [] = a
apply_all a ((t, v) ∷ r) = apply_all (apply_tlv a t v) r

pub apply_all-append :
    (a : Announcement) (xs ys : List Tlv) → apply_all a (xs ++ ys) ≡ apply_all (apply_all a xs) ys
apply_all-append a [] ys = refl
apply_all-append a ((t, v) ∷ r) ys = apply_all-append (apply_tlv a t v) r ys

-- One round on a field whose value fits a 16-bit length.
parse_loop_step :
    (fuel t : ℕ) (v rest : Bytes) (a : Announcement)
    → length v ≤ 0xffff
    → parse_loop (suc fuel) (t ∷ put_uint16 (u16 (length v)) ++ v ++ rest) a
      ≡ parse_loop fuel rest (apply_tlv a t v)
unfolding parse_loop
parse_loop_step fuel t v rest a h =
    let e : uint16 (put_uint16 (u16 (length v))) ≡ length v = omega arith in
    rw (
      e,
      ltb-false (length (v ++ rest)) (length v) (omega (arith, length-append v rest)),
      take-append v rest,
      drop-append v rest,
    )

pub parse_loop-encode :
    (ts : List Tlv) (fuel : ℕ) (a : Announcement)
    → length (encode ts) ≤ fuel
    → length (encode ts) ≤ 0xffff
    → parse_loop fuel (encode ts) a ≡ ok (apply_all a ts)
parse_loop-encode [] fuel a h g = unfold parse_loop in refl
parse_loop-encode ((t, v) ∷ r) zero a h g = absurd (omega arith)
parse_loop-encode ((t, v) ∷ r) (suc fuel) a h g =
    let s = length-append v (encode r) in
    parse_loop_step fuel t v (encode r) a (omega (arith, s))
    ∙ parse_loop-encode r fuel (apply_tlv a t v) (omega (arith, s)) (omega (arith, s))

parse_loop-ne-out_of_fuel :
    (fuel : ℕ) (b : Bytes) (a : Announcement)
    → length b ≤ fuel
    → parse_loop fuel b a ≢ err out_of_fuel
unfolding parse_loop
parse_loop-ne-out_of_fuel fuel [] a h = λ e. cc
parse_loop-ne-out_of_fuel zero (t ∷ b) a h = absurd (omega arith)
parse_loop-ne-out_of_fuel (suc fuel) (t ∷ []) a h = λ e. cc
parse_loop-ne-out_of_fuel (suc fuel) (t ∷ hi ∷ []) a h = λ e. cc
parse_loop-ne-out_of_fuel (suc fuel) (t ∷ hi ∷ lo ∷ r) a h =
    let n = uint16 (hi ∷ lo ∷ []) in
    let ih =
      parse_loop-ne-out_of_fuel fuel (drop n r) (apply_tlv a t (take n r))
        (omega (arith, length-drop n r)) in
    elim (Bool-cases (ltb (length r) n)) [ inl e ↦ rw e (λ p. cc) | inr e ↦ rw e ih ]

-- `parse` ends on every packet: each round of its loop takes three bytes at least, so the body's
-- length is fuel enough.
pub parse-ne-out_of_fuel : (pkt : Bytes) → parse pkt ≢ err out_of_fuel
unfolding parse
parse-ne-out_of_fuel [] = λ e. cc
parse-ne-out_of_fuel (a ∷ []) = λ e. cc
parse-ne-out_of_fuel (a ∷ b ∷ []) = λ e. cc
parse-ne-out_of_fuel (a ∷ b ∷ c ∷ []) = λ e. cc
parse-ne-out_of_fuel (version ∷ command ∷ hi ∷ lo ∷ body) =
    let n = uint16 (hi ∷ lo ∷ []) in
    let ended =
      parse_loop-ne-out_of_fuel (length body) (take n body) (blank version command)
        (omega (arith, length-take n body)) in
    elim (Bool-cases (ltb (length body) n)) [ inl e ↦ rw e (λ p. cc) | inr e ↦ rw e ended ]
