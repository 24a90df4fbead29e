-- ===== src/Common/Lists.antt =====
-- Byte lists: lists measured and cut by native numbers, and `memcpy` into the front of a buffer.
use Prim.Native.Nat.{ℕ, zero, suc, ◌+◌, ◌-◌, min}
use mathlib.Core.Path.{◌≡◌, refl, ap}
use mathlib.Core.Bool.{Bool, true, false, ◌&&◌}
use mathlib.Core.List.{List, [], ◌∷◌, ◌++◌}
use native.Mathlib.Omega.{arith}
use pst_boitier_pki.Common.Tests.{◌==◌}

abbrev pub Bytes : Type 0
Bytes = List ℕ

module _ {ℓ} {A : Type ℓ} where
  abbrev pub length : List A → ℕ
  length [] = 0
  length (x ∷ xs) = suc (length xs)

  abbrev pub take : ℕ → List A → List A
  take zero xs = []
  take (suc n) [] = []
  take (suc n) (x ∷ xs) = x ∷ take n xs

  abbrev pub drop : ℕ → List A → List A
  drop zero xs = xs
  drop (suc n) [] = []
  drop (suc n) (x ∷ xs) = drop n xs

  abbrev pub replicate : ℕ → A → List A
  replicate zero a = []
  replicate (suc n) a = a ∷ replicate n a

  pub length-append : (xs ys : List A) → length (xs ++ ys) ≡ length xs + length ys
  length-append [] ys = omega arith
  length-append (x ∷ xs) ys = omega (arith, length-append xs ys)

  pub length-take : (n : ℕ) (xs : List A) → length (take n xs) ≡ min n (length xs)
  length-take zero xs = omega arith
  length-take (suc n) [] = omega arith
  length-take (suc n) (x ∷ xs) = omega (arith, length-take n xs)

  pub length-drop : (n : ℕ) (xs : List A) → length (drop n xs) ≡ length xs - n
  length-drop zero xs = omega arith
  length-drop (suc n) [] = omega arith
  length-drop (suc n) (x ∷ xs) = omega (arith, length-drop n xs)

  pub length-replicate : (n : ℕ) (a : A) → length (replicate n a) ≡ n
  length-replicate zero a = refl
  length-replicate (suc n) a = ap suc (length-replicate n a)

  pub take-append : (xs ys : List A) → take (length xs) (xs ++ ys) ≡ xs
  take-append [] ys = refl
  take-append (x ∷ xs) ys = ap (◌∷◌ x) (take-append xs ys)

  pub take-all : (xs : List A) → take (length xs) xs ≡ xs
  take-all [] = refl
  take-all (x ∷ xs) = ap (◌∷◌ x) (take-all xs)

  pub drop-append : (xs ys : List A) → drop (length xs) (xs ++ ys) ≡ ys
  drop-append [] ys = refl
  drop-append (x ∷ xs) ys = drop-append xs ys

  pub drop-all : (xs : List A) → drop (length xs) xs ≡ []
  drop-all [] = refl
  drop-all (x ∷ xs) = drop-all xs

  -- `memcpy(dst, src, len)` with `len` the length of `src`: the rest of `dst` stays.
  abbrev pub memcpy : List A → List A → List A
  memcpy dst [] = dst
  memcpy [] (x ∷ xs) = []
  memcpy (y ∷ ys) (x ∷ xs) = x ∷ memcpy ys xs

  pub length-memcpy : (dst src : List A) → length (memcpy dst src) ≡ length dst
  length-memcpy dst [] = refl
  length-memcpy [] (x ∷ xs) = refl
  length-memcpy (y ∷ ys) (x ∷ xs) = ap suc (length-memcpy ys xs)

  pub memcpy-all : (dst src : List A) → length dst ≡ length src → memcpy dst src ≡ src
  memcpy-all [] [] h = refl
  memcpy-all [] (x ∷ xs) h = refl_of h
    where
      refl_of : 0 ≡ suc (length xs) → [] ≡ x ∷ xs
      refl_of e = absurd (omega arith)
  memcpy-all (y ∷ ys) [] h = absurd (omega arith)
  memcpy-all (y ∷ ys) (x ∷ xs) h = ap (◌∷◌ x) (memcpy-all ys xs (omega arith))

-- `memcmp(a, b, n) == 0` on two buffers of one length.
abbrev pub memeq : Bytes → Bytes → Bool
memeq [] [] = true
memeq [] (y ∷ ys) = false
memeq (x ∷ xs) [] = false
memeq (x ∷ xs) (y ∷ ys) = x == y && memeq xs ys

pub memeq_refl : (xs : Bytes) → memeq xs xs ≡ true
memeq_refl [] = refl
memeq_refl (x ∷ xs) = ground (arith, memeq_refl xs)

pub eq_of_memeq : (xs ys : Bytes) → memeq xs ys ≡ true → xs ≡ ys
eq_of_memeq [] [] h = refl
eq_of_memeq [] (y ∷ ys) h = cc
eq_of_memeq (x ∷ xs) [] h = cc
eq_of_memeq (x ∷ xs) (y ∷ ys) h = ground (arith, eq_of_memeq xs ys)
