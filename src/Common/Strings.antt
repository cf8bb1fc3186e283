-- ===== src/Common/Strings.antt =====
-- The functions of Go's strings and strconv packages that the program uses.
-- Where white space matters a text is the list of its code points, elsewhere of its bytes.
use unifi_emu.Common.{
  ℕ, ◌+◌, ◌-◌, Bool, true, false, ◌&&◌, ◌||◌, List, [], ◌∷◌, Option, none, some, Text, codes, leb,
  ◌==◌, if◌then◌else◌, text_eq, ◌≡◌, ap, ◌++◌, Bool-cases, inl, inr, ==_iff,
}

-- unicode.IsSpace.
pub is_space : ℕ → Bool
is_space c =
    leb 9 c && leb c 13
    || c == 0x20
    || c == 0x85
    || c == 0xa0
    || c == 0x1680
    || leb 0x2000 c && leb c 0x200a
    || c == 0x2028
    || c == 0x2029
    || c == 0x202f
    || c == 0x205f
    || c == 0x3000

pub trim_left : Text → Text
trim_left [] = []
trim_left (c ∷ s) = let rest = trim_left s in if is_space c then rest else c ∷ s

-- The rest of a text that is already trimmed on the right.
pub keep_right : Bool → ℕ → Text → Text
keep_right true c [] = []
keep_right _ c s = c ∷ s

pub trim_right : Text → Text
trim_right [] = []
trim_right (c ∷ s) = keep_right (is_space c) c (trim_right s)

-- strings.TrimSpace.
unfoldable pub trim_space : Text → Text
unfolding is_space trim_left keep_right trim_right
trim_space s = trim_right (trim_left s)

pub cons_first : ℕ → List Text → List Text
cons_first c [] = (c ∷ []) ∷ []
cons_first c (w ∷ ws) = (c ∷ w) ∷ ws

-- strings.Split with a separator of one character.
unfoldable pub split : ℕ → Text → List Text
unfolding cons_first
split sep [] = [] ∷ []
split sep (c ∷ s) = let rest = split sep s in if c == sep then [] ∷ rest else cons_first c rest

pub cut_after : ℕ → Option (Text × Text) → Option (Text × Text)
cut_after c none = none
cut_after c (some (before, after)) = some (c ∷ before, after)

-- strings.Cut at a separator of one character: `none` where it does not occur.
unfoldable pub cut : ℕ → Text → Option (Text × Text)
unfolding cut_after
cut sep [] = none
cut sep (c ∷ s) = let rest = cut sep s in if c == sep then some ([], s) else cut_after c rest

-- strconv.ParseBool.
unfoldable pub parse_bool : Text → Option Bool
parse_bool s =
    if text_eq s (codes "1")
      || text_eq s (codes "t")
      || text_eq s (codes "T")
      || text_eq s (codes "TRUE")
      || text_eq s (codes "true")
      || text_eq s (codes "True")
    then some true
    else if text_eq s (codes "0")
        || text_eq s (codes "f")
        || text_eq s (codes "F")
        || text_eq s (codes "FALSE")
        || text_eq s (codes "false")
        || text_eq s (codes "False")
    then some false
    else none

unfoldable pub has_prefix : Text → Text → Bool
has_prefix [] s = true
has_prefix (c ∷ p) [] = false
has_prefix (c ∷ p) (d ∷ s) = c == d && has_prefix p s

-- strings.Contains.
unfoldable pub contains : Text → Text → Bool
contains [] p = has_prefix p []
contains (c ∷ s) p = has_prefix p (c ∷ s) || contains s p

-- strings.ToUpper on the ASCII letters.
unfoldable pub upper : ℕ → ℕ
upper c = if leb b'a' c && leb c b'z' then c - 32 else c

-- strings.ToLower on the ASCII letters.
unfoldable pub lower : ℕ → ℕ
lower c = if leb b'A' c && leb c b'Z' then c + 32 else c

cut_after-some :
    (c : ℕ) (o : Option (Text × Text)) (before after : Text)
    → cut_after c o ≡ some (before, after)
    → (rest : Text) × (o ≡ some (rest, after)) × (before ≡ (c ∷ rest))
unfolding cut_after
cut_after-some c none before after h = cc
cut_after-some c (some (x, y)) before after h = (x, cc, cc)

cut_here :
    (sep c : ℕ) (s before after : Text)
    → c ≡ sep
    → ◌≡◌ {A = Option (Text × Text)} (some ([], s)) (some (before, after))
    → (c ∷ s) ≡ before ++ (sep ∷ after)
cut_here sep c s [] after e h = cc
cut_here sep c s (b ∷ bs) after e h = cc

-- The two parts of a text that is cut, with the separator between.
pub cut-append :
    (sep : ℕ) (s before after : Text)
    → cut sep s ≡ some (before, after)
    → s ≡ before ++ (sep ∷ after)
unfolding cut
cut-append sep [] before after h = cc
cut-append sep (c ∷ s) before after h = elim (Bool-cases (c == sep)) [
  | inl e ↦ cut_here sep c s before after ((==_iff c sep).0 e) (rw e at h)
  | inr e ↦
      let (rest, o, b) = cut_after-some c (cut sep s) before after (rw e at h) in
      rw b (ap (λ t. c ∷ t) (cut-append sep s rest after o))
]
