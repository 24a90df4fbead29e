-- ===== src/Common/Arrays.antt =====
-- C arrays as functions of the index: writes, the first index that passes a test, and the number of
-- entries in use.
use Prim.Native.Nat.{ℕ, zero, suc, ◌+◌, ◌≤◌, ◌<◌}
use mathlib.Core.Path.{◌≡◌, refl, ap, sym, fun_ext}
use mathlib.Core.Logic.{◌≢◌, ◌⊎◌, inl, inr}
use mathlib.Core.Bool.{Bool, true, false}
use mathlib.Core.Option.{Option, none, some}
use native.Mathlib.Omega.{arith}
use pst_boitier_pki.Common.Tests.{◌==◌, if◌then◌else◌, Bool-cases, Option-cases, eq_of_==}

module _ {ℓ} {A : Type ℓ} where
  -- `a[i] = v`
  unfoldable pub update : (ℕ → A) → ℕ → A → ℕ → A
  update f i v j = if j == i then v else f j

  pub update-eq : (f : ℕ → A) (i : ℕ) (v : A) → update f i v i ≡ v
  unfolding update
  update-eq f i v = ground arith

  pub update-ne : (f : ℕ → A) (i : ℕ) (v : A) (j : ℕ) → j ≢ i → update f i v j ≡ f j
  unfolding update
  update-ne f i v j h = ground arith

  pub update-update : (f : ℕ → A) (i : ℕ) (v w : A) → update (update f i v) i w ≡ update f i w
  unfolding update
  update-update f i v w = fun_ext λ j. ground arith

  abbrev pub is_some : Option A → Bool
  is_some none = false
  is_some (some a) = true

  abbrev pub is_none : Option A → Bool
  is_none none = true
  is_none (some a) = false

-- `for (; n rounds left; i++) if (p(i)) break;`, `none` if the loop runs to its end.
unfoldable pub find_from : (ℕ → Bool) → ℕ → ℕ → Option ℕ
find_from p zero i = none
find_from p (suc n) i = let rest = find_from p n (suc i) in if p i then some i else rest

-- `for (i = 0; i < n; i++) if (p(i)) break;`
pub is_none-none {ℓ} : {A : Type ℓ} (o : Option A) → is_none o ≡ true → o ≡ none
is_none-none none e = refl
is_none-none (some a) e = absurd (ground (arith, e))

abbrev pub find_index : (ℕ → Bool) → ℕ → Option ℕ
find_index p n = find_from p n 0

pub record First (p : ℕ → Bool) (i n k : ℕ) : Type 0 where
  pub from : i ≤ k
  pub below : k < i + n
  pub hit : p k ≡ true
  pub first : (j : ℕ) → i ≤ j → j < k → p j ≡ false

First-here : (p : ℕ → Bool) (i n : ℕ) {k : ℕ} → p i ≡ true → i ≡ k → First p i (suc n) k
First-here p i n hit e = record {
  from = omega arith;
  below = omega arith;
  hit = rw (← e) hit;
  first = λ j a b. absurd (omega arith);
}

First-later : (p : ℕ → Bool) (i n k : ℕ) → p i ≡ false → First p (suc i) n k → First p i (suc n) k
First-later p i n k miss f = record {
  from = omega arith;
  below = omega arith;
  hit = f.hit;
  first = λ j a b. ground (arith, f.first j);
}

pub find_from-First : (p : ℕ → Bool) (n i : ℕ) {k : ℕ} → find_from p n i ≡ some k → First p i n k
unfolding find_from
find_from-First p zero i e = cc
find_from-First p (suc n) i {k} e = elim (Bool-cases (p i)) [
  | inl hit ↦ First-here p i n hit (ground arith)
  | inr miss ↦ First-later p i n k miss (find_from-First p n (suc i) (ground arith))
]

-- The search fails only where no index of the range passes.
pub find_from-none :
    (p : ℕ → Bool) (n i : ℕ) → find_from p n i ≡ none → (j : ℕ) → i ≤ j → j < i + n → p j ≡ false
unfolding find_from
find_from-none p zero i e j a b = absurd (omega arith)
find_from-none p (suc n) i e j a b = ground (
  arith,
  find_from-none p n (suc i),
  λ (q : find_from p n (suc i) ≡ none). find_from-none p n (suc i) q j,
)

First-eq : {p : ℕ → Bool} {i n k : ℕ} → First p i n k → p i ≡ true → i ≡ k
First-eq {i} f hit = ground (arith, f.first i)

First-tail : (p : ℕ → Bool) (i n k : ℕ) → p i ≡ false → First p i (suc n) k → First p (suc i) n k
First-tail p i n k miss f =
    let ne : i ≢ k = λ e. cc (f.hit) in
    record {
      from = omega arith;
      below = omega arith;
      hit = f.hit;
      first = λ j a b. f.first j (omega arith) b;
    }

pub find_from_complete : (p : ℕ → Bool) (n i k : ℕ) → First p i n k → find_from p n i ≡ some k
unfolding find_from
find_from_complete p zero i k f = absurd (omega arith)
find_from_complete p (suc n) i k f = elim (Bool-cases (p i)) [
  | inl hit ↦ rw hit (ap some (First-eq f hit))
  | inr miss ↦ rw miss (find_from_complete p n (suc i) k (First-tail p i n k miss f))
]

module _ {ℓ} {A : Type ℓ} where
  -- How many of the first `n` entries are not NULL.
  unfoldable pub count_used : ℕ → (ℕ → Option A) → ℕ
  count_used zero f = 0
  count_used (suc n) f = (if is_some (f n) then 1 else 0) + count_used n f

  pub count_used-le : (n : ℕ) (f : ℕ → Option A) → count_used n f ≤ n
  unfolding count_used
  count_used-le zero f = omega arith
  count_used-le (suc n) f = ground (arith, count_used-le n f)

  pub count_used-outside :
      (n : ℕ) (f : ℕ → Option A) (i : ℕ) (v : Option A)
      → n ≤ i
      → count_used n (update f i v) ≡ count_used n f
  unfolding count_used update
  count_used-outside zero f i v h = refl
  count_used-outside (suc n) f i v h = ground (arith, count_used-outside n f i v)

  -- A write inside the range moves the count by what it puts in and what it takes out.
  pub count_used-update :
      (n : ℕ) (f : ℕ → Option A) (i : ℕ) (v : Option A)
      → i < n
      → count_used n (update f i v) + (if is_some (f i) then 1 else 0)
        ≡ count_used n f + (if is_some v then 1 else 0)
  unfolding count_used update
  count_used-update zero f i v h = absurd (omega arith)
  count_used-update (suc n) f i v h =
      ground (arith, count_used-update n f i v, count_used-outside n f i v)

  pub count_used-full :
      (n : ℕ) (f : ℕ → Option A) → ((j : ℕ) → j < n → is_none (f j) ≡ false) → count_used n f ≡ n
  unfolding count_used
  count_used-full zero f h = refl
  count_used-full (suc n) f h =
      ground (arith, h n (omega arith), count_used-full n f (λ j b. h j (omega arith)))

  -- While fewer entries are used than there are, the search for a NULL entry succeeds.
  pub find_free :
      (n : ℕ) (f : ℕ → Option A)
      → count_used n f < n
      → (k : ℕ) × (find_index (λ j. is_none (f j)) n ≡ some k)
  find_free n f h = elim (Option-cases (find_index (λ j. is_none (f j)) n)) [
    | inl e ↦ absurd (
        omega (
          arith,
          count_used-full n f (λ j b. find_from-none _ n 0 e j (omega arith) (omega arith)),
        ))
    | inr found ↦ found
  ]

  -- What stands in a table after a write.
  pub update-some_cases :
      (f : ℕ → Option A) (i : ℕ) (v : A) (j : ℕ) {x : A}
      → update f i (some v) j ≡ some x
      → ((j ≡ i) × (v ≡ x)) ⊎ ((j ≢ i) × (f j ≡ some x))
  unfolding update
  update-some_cases f i v j e = elim (Bool-cases (j == i)) [
    | inl same ↦ inl (eq_of_== j i same, ground arith)
    | inr other ↦ inr (ground arith, ground arith)
  ]

  pub update-none_cases :
      (f : ℕ → Option A) (i j : ℕ) {x : A} → update f i none j ≡ some x → (j ≢ i) × (f j ≡ some x)
  unfolding update
  update-none_cases f i j e = (λ q. ground arith, ground arith)

  -- A positive count has a used entry behind it.
  pub used_of_count :
      (n : ℕ) (f : ℕ → Option A)
      → 0 < count_used n f
      → (j : ℕ) × (j < n) × ((a : A) × (f j ≡ some a))
  unfolding count_used
  used_of_count zero f h = absurd (omega arith)
  used_of_count (suc n) f h = elim (Option-cases (f n)) [
    | inr (a, e) ↦ (n, omega arith, (a, e))
    | inl e ↦ let (j, b, r) = used_of_count n f (ground arith) in (j, omega arith, r)
  ]

  pub update-same : (f : ℕ → A) (i : ℕ) (v : A) → f i ≡ v → update f i v ≡ f
  unfolding update
  update-same f i v e = fun_ext λ j. elim (Bool-cases (j == i)) [
    | inl q ↦ rw (q, ← e) (ap f (sym (eq_of_== j i q)))
    | inr q ↦ rw q
  ]
