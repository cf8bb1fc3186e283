-- ===== src/Inform/Packet/Padding.antt =====
-- inform/crypto.go: the padding of a plain text and its removal.
use unifi_emu.Common.{
  ℕ, zero, suc, ◌+◌, ◌-◌, ◌%◌, ◌≤◌, ◌≡◌, refl, ◌∙◌, true, [], ◌∷◌, ◌++◌, Bytes, length, replicate,
  ok, arith, length-append, length-replicate, take_exact, drop_exact, ltb-false,
}
use unifi_emu.Inform.Crypto.{pad, unpad, all_equal, last_byte}

all_equal-replicate : (k n : ℕ) → all_equal n (replicate k n) ≡ true
unfolding all_equal
all_equal-replicate zero n = refl
all_equal-replicate (suc k) n = ground (arith, all_equal-replicate k n)

last_byte-append :
    (xs : Bytes) (y : ℕ) (ys : Bytes) → last_byte (xs ++ (y ∷ ys)) ≡ last_byte (y ∷ ys)
last_byte-append [] y ys = refl
last_byte-append (x ∷ []) y ys = refl
last_byte-append (x ∷ z ∷ xs) y ys = last_byte-append (z ∷ xs) y ys

last_byte-replicate : (k n : ℕ) → last_byte (replicate (suc k) n) ≡ n
last_byte-replicate zero n = refl
last_byte-replicate (suc k) n = last_byte-replicate k n

unpad-replicate :
    (plain : Bytes) (k : ℕ) → suc k ≤ 16 → unpad (plain ++ replicate (suc k) (suc k)) ≡ ok plain
unfolding unpad
unpad-replicate plain k h =
    let out = plain ++ replicate (suc k) (suc k) in
    let last : last_byte out ≡ suc k =
      last_byte-append plain (suc k) (replicate k (suc k)) ∙ last_byte-replicate k (suc k) in
    let total : length out ≡ length plain + suc k =
      omega (
        arith,
        length-append plain (replicate (suc k) (suc k)),
        length-replicate (suc k) (suc k),
      ) in
    let rest : length out - suc k ≡ length plain = omega arith in
    rw
      (
        last,
        rest,
        ltb-false 16 (suc k) h,
        ltb-false (length out) (suc k) (omega arith),
        drop_exact (length plain) plain (replicate (suc k) (suc k)) refl,
        take_exact (length plain) plain (replicate (suc k) (suc k)) refl,
        all_equal-replicate (suc k) (suc k),
      )
      (ground arith)

pub length-pad :
    (plain : Bytes)
    → (length (pad plain) % 16 ≡ 0)
      × (1 ≤ length (pad plain))
      × (length (pad plain) ≤ length plain + 16)
unfolding pad
length-pad plain =
    let n = 16 - length plain % 16 in
    omega (arith, length-append plain (replicate n n), length-replicate n n)

-- Padding and then unpadding gives every plain text back.
pub unpad-pad : (plain : Bytes) → unpad (pad plain) ≡ ok plain
unfolding pad
unpad-pad plain =
    let k = 15 - length plain % 16 in
    let e : 16 - length plain % 16 ≡ suc k = omega arith in
    rw e (unpad-replicate plain k (omega arith))
