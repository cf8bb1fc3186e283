-- ===== src/Herder/Plan/Images.antt =====
-- internal/herder/plan.go: the images of a plan against those of its units.
use unifi_emu.Common.{
  ◌≡◌, ◌∙◌, true, false, not, ◌&&◌, List, [], ◌∷◌, map, Text, text_eq, text_eq_iff, text_eq_refl,
  arith, Bool-cases, inl, inr,
}
use unifi_emu.Herder.Plan.{Container, Plan, text_among, images_from, images}

abbrev pub unit_images : List Container → List Text
unit_images us = map (λ u. u.image) us

abbrev pub IsDistinct : List Text → Type 0
IsDistinct [] = Unit {0}
IsDistinct (t ∷ ts) = (text_among t ts ≡ false) × IsDistinct ts

equal_texts : (s t : Text) → text_eq s t ≡ true → s ≡ t
equal_texts s t h = (text_eq_iff s t).0 h

text_among-images_from :
    (t : Text) (seen : List Text) (us : List Container)
    → text_among t (images_from seen us)
      ≡ (not (text_among t seen) && text_among t (unit_images us))
unfolding images_from text_among
text_among-images_from t seen [] = ground arith
text_among-images_from t seen (u ∷ us) =
    let ih = text_among-images_from t seen us in
    let ih' = text_among-images_from t (u.image ∷ seen) us in
    elim (Bool-cases (text_among u.image seen)) [
      | inl s ↦ elim (Bool-cases (text_eq u.image t)) [
        | inl e ↦
            let among : text_among t seen ≡ true = rw (equal_texts u.image t e) at s in
            rw (s, e, ih, among)
        | inr e ↦ rw (s, e, ih)
      ]
      | inr s ↦ elim (Bool-cases (text_eq u.image t)) [
        | inl e ↦
            let among : text_among t seen ≡ false = rw (equal_texts u.image t e) at s in
            rw (s, e, among)
        | inr e ↦ rw (s, e) (rw e at ih')
      ]
    ]

images_from-IsDistinct : (seen : List Text) (us : List Container) → IsDistinct (images_from seen us)
unfolding images_from text_among
images_from-IsDistinct seen [] = tt
images_from-IsDistinct seen (u ∷ us) =
    let later = text_among-images_from u.image (u.image ∷ seen) us in
    elim (Bool-cases (text_among u.image seen)) [
      | inl s ↦ rw s (images_from-IsDistinct seen us)
      | inr s ↦ rw s (later ∙ rw (text_eq_refl u.image), images_from-IsDistinct (u.image ∷ seen) us)
    ]

-- `Images` lists every image of the plan's units and no other, and lists none twice.
pub images-IsDistinct :
    (p : Plan) (t : Text)
    → IsDistinct (images p) × (text_among t (images p) ≡ text_among t (unit_images p.units))
unfolding images text_among
images-IsDistinct p t = (images_from-IsDistinct [] p.units, text_among-images_from t [] p.units)
