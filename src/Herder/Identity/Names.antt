-- ===== src/Herder/Identity/Names.antt =====
-- internal/herder/identity.go: `derivedName` against `checkName`.
use unifi_emu.Common.{
  ◌≢◌, ℕ, zero, suc, ◌+◌, ◌≤◌, ◌≡◌, refl, sym, ap, ◌∙◌, Bool, true, false, ◌||◌, [], ◌∷◌, ◌++◌,
  Text, codes, length, take, ltb, ltb-false, ◌==◌, ok, arith, All, All-append, length-append,
  length-take, Bool-cases, inl, inr, append_assoc,
}
use unifi_emu.Herder.Identity.{
  is_alnum, Buffer, normalize_byte, normalize_bytes, trim_left_dash, keep_byte, trim_right_dash,
  trim_dashes, or_device, normalize_model, name_budget, shorten, derived_name, label_bytes, last_of,
  dns_label, check_name, is_upper,
}

-- A byte that a label may hold.
abbrev pub IsLabelByte : ℕ → Type 0
IsLabelByte c = (is_alnum c || c == b'-') ≡ true

abbrev pub IsAlnum : ℕ → Type 0
IsAlnum c = is_alnum c ≡ true

upper-IsLabelByte : (c : ℕ) → is_upper c ≡ true → IsLabelByte (c + 32)
unfolding is_alnum
upper-IsLabelByte c h = ground arith

normalize_byte-IsLabelByte :
    (b : Buffer) (c : ℕ) → All IsLabelByte b.text → All IsLabelByte (normalize_byte b c).text
unfolding normalize_byte
normalize_byte-IsLabelByte b c h = elim (Bool-cases (is_upper c)) [
  | inl e ↦ rw e (All-append IsLabelByte b.text _ h (upper-IsLabelByte c e, tt))
  | inr e ↦ elim (Bool-cases (is_alnum c)) [
    | inl f ↦ rw (e, f) (All-append IsLabelByte b.text _ h (rw f refl, tt))
    | inr f ↦ rw (e, f) (ground (arith, All-append IsLabelByte b.text (b'-' ∷ []) h))
  ]
]

normalize_bytes-IsLabelByte :
    (b : Buffer) (s : Text) → All IsLabelByte b.text → All IsLabelByte (normalize_bytes b s).text
unfolding normalize_bytes
normalize_bytes-IsLabelByte b [] h = h
normalize_bytes-IsLabelByte b (c ∷ s) h =
    normalize_bytes-IsLabelByte (normalize_byte b c) s (normalize_byte-IsLabelByte b c h)

trim_left_dash-IsLabelByte : (s : Text) → All IsLabelByte s → All IsLabelByte (trim_left_dash s)
unfolding trim_left_dash
trim_left_dash-IsLabelByte [] h = h
trim_left_dash-IsLabelByte (c ∷ s) h = ground (arith, trim_left_dash-IsLabelByte s h.1)

keep_byte-IsLabelByte :
    (b : Bool) (c : ℕ) (s : Text)
    → IsLabelByte c
    → All IsLabelByte s
    → All IsLabelByte (keep_byte b c s)
keep_byte-IsLabelByte true c [] p h = tt
keep_byte-IsLabelByte true c (d ∷ s) p h = (p, h)
keep_byte-IsLabelByte false c s p h = (p, h)

trim_right_dash-IsLabelByte : (s : Text) → All IsLabelByte s → All IsLabelByte (trim_right_dash s)
unfolding trim_right_dash
trim_right_dash-IsLabelByte [] h = h
trim_right_dash-IsLabelByte (c ∷ s) h =
    keep_byte-IsLabelByte (c == b'-') c _ h.0 (trim_right_dash-IsLabelByte s h.1)

trim_dashes-IsLabelByte : (s : Text) → All IsLabelByte s → All IsLabelByte (trim_dashes s)
trim_dashes-IsLabelByte s h = trim_right_dash-IsLabelByte _ (trim_left_dash-IsLabelByte s h)

or_device-IsLabelByte : (s : Text) → All IsLabelByte s → All IsLabelByte (or_device s)
unfolding is_alnum
or_device-IsLabelByte [] h = (refl, (refl, (refl, (refl, (refl, (refl, tt))))))
or_device-IsLabelByte (c ∷ s) h = h

take-IsLabelByte : (n : ℕ) (s : Text) → All IsLabelByte s → All IsLabelByte (take n s)
take-IsLabelByte zero s h = tt
take-IsLabelByte (suc n) [] h = tt
take-IsLabelByte (suc n) (c ∷ s) h = (h.0, take-IsLabelByte n s h.1)

length-trim_left_dash : (s : Text) → length (trim_left_dash s) ≤ length s
unfolding trim_left_dash
length-trim_left_dash [] = omega arith
length-trim_left_dash (c ∷ s) = ground (arith, length-trim_left_dash s)

length-keep_byte : (b : Bool) (c : ℕ) (s : Text) → length (keep_byte b c s) ≤ suc (length s)
length-keep_byte true c [] = omega arith
length-keep_byte true c (d ∷ s) = omega arith
length-keep_byte false c s = omega arith

length-trim_right_dash : (s : Text) → length (trim_right_dash s) ≤ length s
unfolding trim_right_dash
length-trim_right_dash [] = omega arith
length-trim_right_dash (c ∷ s) =
    omega (arith, length-keep_byte (c == b'-') c (trim_right_dash s), length-trim_right_dash s)

length-or_device : (s : Text) → length s ≤ name_budget → length (or_device s) ≤ name_budget
length-or_device [] h = omega arith
length-or_device (c ∷ s) h = h

normalize_model-IsLabelByte : (model : Text) → All IsLabelByte (normalize_model model)
unfolding normalize_model
normalize_model-IsLabelByte model = or_device-IsLabelByte _ (
    trim_dashes-IsLabelByte _
      (normalize_bytes-IsLabelByte (record { text = []; dash = false }) model tt))

-- The part of the model in a name: label bytes, and no more of them than the budget.
shorten_fits :
    (norm : Text)
    → All IsLabelByte norm
    → All IsLabelByte (shorten norm) × (length (shorten norm) ≤ name_budget)
shorten_fits norm h =
    let short = take name_budget norm in
    let trimmed : length (trim_dashes short) ≤ name_budget = omega (
      arith,
      length-trim_right_dash (trim_left_dash short),
      length-trim_left_dash short,
      length-take name_budget norm,
    ) in
    elim (Bool-cases (ltb name_budget (length norm))) [
      | inl e ↦ rw e (
        or_device-IsLabelByte _
            (trim_dashes-IsLabelByte short (take-IsLabelByte name_budget norm h)),
        length-or_device (trim_dashes short) trimmed,
      )
      | inr e ↦ rw e (h, ground arith)
    ]

label_bytes-All : (s : Text) → All IsLabelByte s → label_bytes s ≡ true
unfolding label_bytes
label_bytes-All [] h = refl
label_bytes-All (c ∷ s) h = rw (h.0, label_bytes-All s h.1)

alnum_label : (s : Text) → All IsAlnum s → All IsLabelByte s
alnum_label [] h = tt
alnum_label (c ∷ s) h = (rw h.0 refl, alnum_label s h.1)

last_of-append : (c : ℕ) (xs : Text) (d : ℕ) (ys : Text) → last_of c (xs ++ (d ∷ ys)) ≡ last_of d ys
last_of-append c [] d ys = refl
last_of-append c (x ∷ xs) d ys = last_of-append x xs d ys

last_of-IsAlnum : (c : ℕ) (s : Text) → IsAlnum c → All IsAlnum s → IsAlnum (last_of c s)
last_of-IsAlnum c [] p h = p
last_of-IsAlnum c (d ∷ s) p h = last_of-IsAlnum d s h.0 h.1

name_label :
    (norm : Text) (x : ℕ) (hex : Text)
    → All IsLabelByte norm
    → All IsAlnum (x ∷ hex)
    → dns_label (codes "emu-" ++ (norm ++ (b'-' ∷ x ∷ hex))) ≡ true
unfolding dns_label label_bytes is_alnum
name_label norm x hex n h =
    let ends : is_alnum (last_of b'-' (norm ++ (b'-' ∷ x ∷ hex))) ≡ true =
      ap is_alnum (last_of-append b'-' norm b'-' (x ∷ hex)) ∙ last_of-IsAlnum x hex h.0 h.1 in
    let all : label_bytes (norm ++ (b'-' ∷ x ∷ hex)) ≡ true =
      label_bytes-All _ (All-append IsLabelByte norm _ n (refl, alnum_label (x ∷ hex) h)) in
    rw (ends, all)

-- A derived name passes the check of supplied names, whatever the model: for the twelve digits of a
-- MAC it is a lower-case DNS label of at most 63 bytes.
pub check_name-derived_name :
    (model hex : Text)
    → length hex ≡ 12
    → All IsAlnum hex
    → check_name (derived_name model hex) ≡ ok tt
unfolding check_name derived_name
check_name-derived_name model [] h a = absurd (omega arith)
check_name-derived_name model (x ∷ hex) h a =
    let (n, fits) = shorten_fits (normalize_model model) (normalize_model-IsLabelByte model) in
    let name = codes "emu-" ++ (shorten (normalize_model model) ++ (b'-' ∷ x ∷ hex)) in
    let small : length name ≤ 63 =
      omega (arith, length-append (shorten (normalize_model model)) (b'-' ∷ x ∷ hex)) in
    rw (ltb-false 63 (length name) small, name_label _ x hex n a)

append-right : (xs ys : Text) {zs ws : Text} → length zs ≡ length ws → xs ++ zs ≡ ys ++ ws → zs ≡ ws
append-right [] [] h e = e
append-right [] (y ∷ ys) {ws = ws} h e =
    absurd (omega (arith, h, ap length e, length-append (y ∷ ys) ws))
append-right (x ∷ xs) [] {zs = zs} h e =
    absurd (omega (arith, h, ap length e, length-append (x ∷ xs) zs))
append-right (x ∷ xs) (y ∷ ys) {zs} {ws} h e =
    let tails : xs ++ zs ≡ ys ++ ws = cc in append-right xs ys h tails

derived_name-injective :
    (model other hex digits : Text)
    → length hex ≡ length digits
    → derived_name model hex ≡ derived_name other digits
    → hex ≡ digits
unfolding derived_name
derived_name-injective model other hex digits h e =
    let left = codes "emu-" ++ (shorten (normalize_model model) ++ (b'-' ∷ [])) in
    let right = codes "emu-" ++ (shorten (normalize_model other) ++ (b'-' ∷ [])) in
    append-right left right h (
      ap (λ t. codes "emu-" ++ t) (append_assoc (shorten (normalize_model model)) (b'-' ∷ []) hex)
      ∙ e
      ∙ ap (λ t. codes "emu-" ++ t)
          (sym (append_assoc (shorten (normalize_model other)) (b'-' ∷ []) digits)))

-- Names derived from the digits of different MACs differ, whatever the models.
pub derived_name-ne :
    (model other hex digits : Text)
    → length hex ≡ length digits
    → hex ≢ digits
    → derived_name model hex ≢ derived_name other digits
derived_name-ne model other hex digits h n =
    λ e. n (derived_name-injective model other hex digits h e)
