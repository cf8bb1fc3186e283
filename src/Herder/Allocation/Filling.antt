-- ===== src/Herder/Allocation/Filling.antt =====
-- internal/herder/identity.go: sets of claimed values, and lists whose empty entries are filled with
-- values that no set holds.
use unifi_emu.Common.{
  ◌≡◌, ◌≢◌, refl, sym, ◌∙◌, ◌⊎◌, inl, inr, true, false, List, [], ◌∷◌, Text, text_eq_refl, arith,
  All, Bool-cases,
}
use unifi_emu.Herder.Plan.{text_among}
use unifi_emu.Herder.Allocation.{add_text}

abbrev pub Has : List Text → Text → Type 0
Has set v = text_among v set ≡ true

abbrev pub Lacks : List Text → Text → Type 0
Lacks set v = text_among v set ≡ false

abbrev pub Within : List Text → List Text → Type 0
Within set larger = (v : Text) → Has set v → Has larger v

pub Has-add_text : (v : Text) (set : List Text) → Has (add_text v set) v
unfolding add_text text_among
Has-add_text v set = elim (Bool-cases (text_among v set)) [
  | inl e ↦ rw e e
  | inr e ↦ rw (e, text_eq_refl v)
]

pub Within-cons : (v : Text) (set : List Text) → Within set (v ∷ set)
unfolding text_among
Within-cons v set = λ t h. ground (arith, h)

pub Within-add_text : (v : Text) (set : List Text) → Within set (add_text v set)
unfolding add_text
Within-add_text v set = elim (Bool-cases (text_among v set)) [
  | inl e ↦ rw e (λ t h. h)
  | inr e ↦ rw e (Within-cons v set)
]

pub Has-cons : (v : Text) (set : List Text) → Has (v ∷ set) v
unfolding text_among
Has-cons v set = rw (text_eq_refl v)

-- No two entries agree, unless they are empty.
pub IsSeparate : List Text → Type 0
IsSeparate [] = Unit {0}
IsSeparate (v ∷ vs) = All (λ w. v ≡ w → v ≡ []) vs × IsSeparate vs

-- Each entry was empty, or is claimed by the set that grows from `set` to `last` and was not before.
unfoldable pub Claimed : List Text → List Text → List Text → Type 0
Claimed set last [] = Within set last
Claimed set last (v ∷ vs) =
    (next : List Text) × Within set next
    × ((v ≡ []) ⊎ (Lacks set v × Has next v))
    × Claimed next last vs

Claimed-Within : (set last vs : List Text) → Claimed set last vs → Within set last
unfolding Claimed
Claimed-Within set last [] h = h
Claimed-Within set last (v ∷ vs) h =
    let (next, grows, _, rest) = h in λ t has. Claimed-Within next last vs rest t (grows t has)

apart : (set : List Text) (v w : Text) → Has set v → Lacks set w → v ≢ w
apart set v w h k = λ e. cc (rw e at h)

later_differs :
    (v : Text) (set last vs : List Text)
    → Has set v
    → Claimed set last vs
    → All (λ w. v ≡ w → v ≡ []) vs
unfolding Claimed
later_differs v set last [] has h = tt
later_differs v set last (w ∷ vs) has h =
    let (next, grows, new, rest) = h in
    (
      elim new [
        | inl empty ↦ λ e. e ∙ empty
        | inr fresh ↦ λ e. absurd (apart set v w has fresh.0 e)
      ],
      later_differs v next last vs (grows v has) rest,
    )

empty_differs : (vs : List Text) → All (λ w. [] ≡ w → ◌≡◌ {A = Text} [] []) vs
empty_differs [] = tt
empty_differs (w ∷ vs) = (λ e. refl, empty_differs vs)

pub Claimed-IsSeparate : (set last vs : List Text) → Claimed set last vs → IsSeparate vs
unfolding Claimed IsSeparate
Claimed-IsSeparate set last [] h = tt
Claimed-IsSeparate set last (v ∷ vs) h =
    let (next, grows, new, rest) = h in
    (
      elim new [
        | inl empty ↦ rw empty (empty_differs vs)
        | inr fresh ↦ later_differs v next last vs fresh.1 rest
      ],
      Claimed-IsSeparate next last vs rest,
    )

-- Each entry is empty or in one of the two sets.
abbrev pub IsKnown : List Text → List Text → List Text → Type 0
IsKnown reserved set vs = All (λ v. (v ≡ []) ⊎ (Has reserved v ⊎ Has set v)) vs

pub Claimed-IsKnown : (set last vs final : List Text) → Claimed set last vs → IsKnown last final vs
unfolding Claimed
Claimed-IsKnown set last [] final h = tt
Claimed-IsKnown set last (v ∷ vs) final h =
    let (next, grows, new, rest) = h in
    (
      elim new [
        | inl empty ↦ inl empty
        | inr fresh ↦ inr (inl (Claimed-Within next last vs rest v fresh.1))
      ],
      Claimed-IsKnown next last vs final rest,
    )

-- An entry stays, or an empty one becomes a value that neither set had and the new set has.
abbrev pub IsStep : List Text → List Text → List Text → Text → Text → Type 0
IsStep reserved set next s o =
    Within set next × ((o ≡ s) ⊎ ((s ≡ []) × (Lacks reserved o × (Lacks set o × Has next o))))

unfoldable pub Filled : List Text → List Text → List Text → List Text → List Text → Type 0
Filled reserved set last [] [] = Within set last
Filled reserved set last [] (o ∷ os) = ⊥
Filled reserved set last (s ∷ ss) [] = ⊥
Filled reserved set last (s ∷ ss) (o ∷ os) =
    (next : List Text) × IsStep reserved set next s o × Filled reserved next last ss os

IsKnown-Within :
    (reserved set next vs : List Text)
    → Within set next
    → IsKnown reserved set vs
    → IsKnown reserved next vs
IsKnown-Within reserved set next [] grows h = tt
IsKnown-Within reserved set next (v ∷ vs) grows h = (
  elim (h.0) [
    | inl e ↦ inl e
    | inr known ↦ elim known [ inl r ↦ inr (inl r) | inr f ↦ inr (inr (grows v f)) ]
  ],
  IsKnown-Within reserved set next vs grows h.1,
)

-- A value that is empty or known is apart from the entries that are filled after it.
Filled-differs :
    (o : Text) (reserved set last ss os : List Text)
    → (o ≡ []) ⊎ (Has reserved o ⊎ Has set o)
    → All (λ s. o ≡ s → o ≡ []) ss
    → Filled reserved set last ss os
    → All (λ w. o ≡ w → o ≡ []) os
unfolding Filled
Filled-differs o reserved set last [] [] k h f = tt
Filled-differs o reserved set last [] (w ∷ os) k h f = absurd f
Filled-differs o reserved set last (s ∷ ss) [] k h f = absurd f
Filled-differs o reserved set last (s ∷ ss) (w ∷ os) k h f =
    let (next, (grows, step), rest) = f in
    let known : (o ≡ []) ⊎ (Has reserved o ⊎ Has next o) =
      (IsKnown-Within reserved set next (o ∷ []) grows (k, tt)).0 in
    (
      elim step [
        | inl kept ↦ λ e. h.0 (e ∙ kept)
        | inr new ↦ elim k [
          | inl empty ↦ λ e. empty
          | inr has ↦ elim has [
            | inl r ↦ λ e. absurd (apart reserved o w r new.1.0 e)
            | inr g ↦ λ e. absurd (apart set o w g new.1.1.0 e)
          ]
        ]
      ],
      Filled-differs o reserved next last ss os known h.1 rest,
    )

-- A value that neither set has is apart from all entries that are known.
fresh_differs :
    (o : Text) (reserved set ss : List Text)
    → Lacks reserved o
    → Lacks set o
    → IsKnown reserved set ss
    → All (λ s. o ≡ s → o ≡ []) ss
fresh_differs o reserved set [] r f k = tt
fresh_differs o reserved set (s ∷ ss) r f k = (
  elim (k.0) [
    | inl empty ↦ λ e. e ∙ empty
    | inr has ↦ elim has [
      | inl h ↦ λ e. absurd (apart reserved s o h r (sym e))
      | inr h ↦ λ e. absurd (apart set s o h f (sym e))
    ]
  ],
  fresh_differs o reserved set ss r f k.1,
)

-- Filling keeps the entries apart and known.
pub Filled-IsSeparate :
    (reserved set last ss os : List Text)
    → Filled reserved set last ss os
    → IsKnown reserved set ss
    → IsSeparate ss
    → IsSeparate os × IsKnown reserved last os × Within set last
unfolding Filled IsSeparate
Filled-IsSeparate reserved set last [] [] f k h = (tt, tt, f)
Filled-IsSeparate reserved set last [] (o ∷ os) f k h = absurd f
Filled-IsSeparate reserved set last (s ∷ ss) [] f k h = absurd f
Filled-IsSeparate reserved set last (s ∷ ss) (o ∷ os) f k h =
    let (next, (grows, step), rest) = f in
    let known = IsKnown-Within reserved set next (s ∷ ss) grows k in
    let (apart_rest, known_rest, wider) =
      Filled-IsSeparate reserved next last ss os rest known.1 h.1 in
    let head : ((o ≡ []) ⊎ (Has reserved o ⊎ Has next o)) × All (λ t. o ≡ t → o ≡ []) ss =
      elim step [
        | inl kept ↦ rw kept (known.0, h.0)
        | inr new ↦ (inr (inr new.1.1.1), fresh_differs o reserved set ss new.1.0 new.1.1.0 k.1)
      ] in
    (
      (Filled-differs o reserved next last ss os head.0 head.1 rest, apart_rest),
      ((IsKnown-Within reserved next last (o ∷ []) wider (head.0, tt)).0, known_rest),
      λ t has. wider t (grows t has),
    )
