-- ===== src/Common/Results.antt =====
-- Go's (value, error) pairs.
use mathlib.Core.Path.{◌≡◌, refl, subst}
use mathlib.Core.Bool.{Bool, true, false}
use unifi_emu.Common.Tests.{if◌then◌else◌}

pub data Result {ℓ κ} (E : Type κ) (A : Type ℓ) : Type (ℓ ⊔ κ) where
  ok : A → Result E A
  err : E → Result E A

pub ok-injective {ℓ μ} :
    {E : Type μ} {A : Type ℓ} {a b : A} → ◌≡◌ {A = Result E A} (ok a) (ok b) → a ≡ b
ok-injective h = cc

module _ {μ} {E : Type μ} where
  -- `if test { return err }`.
  abbrev pub fail_if : Bool → E → Result E (Unit {0})
  fail_if false e = ok tt
  fail_if true e = err e

infixl 5 ◌>>=◌ ◌>>◌
abbrev pub ◌>>=◌ {μ ℓ κ} :
    {E : Type μ} {X : Type ℓ} {Y : Type κ} → Result E X → (X → Result E Y) → Result E Y
err failure >>= next = err failure
ok value >>= next = next value

-- What the first part of a call that succeeds has returned.
pub >>=-eq-ok {μ ℓ κ} :
    {E : Type μ} {X : Type ℓ} {Y : Type κ} (first : Result E X) (next : X → Result E Y) {y : Y}
    → (first >>= next) ≡ ok y
    → (x : X) × (first ≡ ok x) × (next x ≡ ok y)
>>=-eq-ok (err failure) next h = cc
>>=-eq-ok (ok value) next h = (value, refl, h)

abbrev pub ◌>>◌ {μ ℓ} : {E : Type μ} {Y : Type ℓ} → Result E (Unit {0}) → Result E Y → Result E Y
step >> rest = step >>= λ done. rest

-- What holds of the error, when there is one.
abbrev pub OnError {ℓ κ} : {E : Type κ} {A : Type ℓ} → (E → Type 0) → Result E A → Type 0
OnError P (ok a) = Unit {0}
OnError P (err e) = P e

pub OnError->>= {ℓ μ κ} :
    {E : Type κ} {A : Type ℓ} {B : Type μ} (P : E → Type 0) (first : Result E A)
    (next : A → Result E B)
    → OnError P first
    → ((a : A) → OnError P (next a))
    → OnError P (first >>= next)
OnError->>= P (ok a) next h k = k a
OnError->>= P (err e) next h k = h

pub fail_if-OnError {κ} :
    {E : Type κ} (P : E → Type 0) (b : Bool) (e : E) → P e → OnError P (fail_if b e)
fail_if-OnError P true e h = h
fail_if-OnError P false e h = tt

pub if-OnError {ℓ κ} :
    {E : Type κ} {A : Type ℓ} (P : E → Type 0) (b : Bool) (x y : Result E A)
    → OnError P x
    → OnError P y
    → OnError P (if b then x else y)
if-OnError P true x y h k = h
if-OnError P false x y h k = k

-- What holds of the value, when there is one.
abbrev pub OnValue {ℓ κ} : {E : Type κ} {A : Type ℓ} → (A → Type 0) → Result E A → Type 0
OnValue P (ok a) = P a
OnValue P (err e) = Unit {0}

pub OnValue->>= {ℓ μ κ} :
    {E : Type κ} {A : Type ℓ} {B : Type μ} (P : B → Type 0) (first : Result E A)
    (next : A → Result E B)
    → ((a : A) → first ≡ ok a → OnValue P (next a))
    → OnValue P (first >>= next)
OnValue->>= P (ok a) next k = k a refl
OnValue->>= P (err e) next k = tt

-- A value that a call has given.
pub given {ℓ κ} :
    {E : Type κ} {A : Type ℓ} (P : A → Type 0) {r : Result E A} {a : A}
    → r ≡ ok a
    → OnValue P r
    → P a
given P eq h = subst (OnValue P) eq h

pub fail_if-OnValue {κ} : {E : Type κ} (b : Bool) (e : E) → OnValue (λ u. b ≡ false) (fail_if b e)
fail_if-OnValue true e = tt
fail_if-OnValue false e = refl
