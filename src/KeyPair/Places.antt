-- ===== src/KeyPair/Places.antt =====
-- The loop of C_GenerateKeyPair (hsm/src/pkcs11/crypto_ops.c) that looks for two free entries.
use pst_boitier_pki.Common.{
  ℕ, zero, suc, ◌+◌, ◌≡◌, ◌≢◌, ◌<◌, ◌≤◌, ◌⊎◌, false, Option, none, some, inl, inr, arith, is_none,
  Option-cases, update, update-eq, update-ne, count_used, count_used-full, count_used-update, refl,
  ap, ltb, Bool-cases, ◌==◌, eq_of_==,
}
use pst_boitier_pki.Hsm.State.{HsmObject}
use pst_boitier_pki.Objects.{blank_object}
use pst_boitier_pki.KeyPair.{free_pair}

-- All of the `n` entries from `i`, but for entry `p`, are in use.
abbrev pub AllUsedBut : ℕ → (ℕ → Option HsmObject) → (n i : ℕ) → Type 0
AllUsedBut p objects n i = (j : ℕ) → i ≤ j → j < i + n → j ≢ p → is_none (objects j) ≡ false

-- Two free entries, the first before the second.
pub record Places (objects : ℕ → Option HsmObject) (n i p q : ℕ) : Type 0 where
  pub from : i ≤ p
  pub order : p < q
  pub below : q < i + n
  pub first : objects p ≡ none
  pub second : objects q ≡ none

module _ (objects : ℕ → Option HsmObject) where
  second_cases :
      (n i p : ℕ)
      → p < i
      → ((q : ℕ) × (free_pair objects n i (some p) ≡ (some p, some q))
          × (i ≤ q)
          × (q < i + n)
          × (objects q ≡ none))
        ⊎ ((free_pair objects n i (some p) ≡ (some p, none)) × AllUsedBut p objects n i)
  unfolding free_pair
  second_cases zero i p le = inr (refl, λ j a b. absurd (omega arith))
  second_cases (suc n) i p le = elim (Option-cases (objects i)) [
    | inl e ↦ inl (i, rw (e, free_pair) refl, omega arith, omega arith, e)
    | inr (x, e) ↦ elim (second_cases n (suc i) p (omega arith)) [
      | inl (q, r, a, b, f) ↦ inl (q, rw (e, free_pair) r, omega arith, omega arith, f)
      | inr (r, all) ↦ inr (
        rw (e, free_pair) r,
        λ j a b ne. elim (Bool-cases (j == i)) [
          | inl s ↦ ground (arith, ap objects (eq_of_== j i s), e)
          | inr s ↦ all j (ground arith) (omega arith) ne
        ],
      )
    ]
  ]

  pub pair_cases :
      (n i : ℕ)
      → ((p q : ℕ) × (free_pair objects n i none ≡ (some p, some q)) × Places objects n i p q)
        ⊎ ((a : Option ℕ) × (p : ℕ) × (free_pair objects n i none ≡ (a, none))
            × AllUsedBut p objects n i)
  unfolding free_pair
  pair_cases zero i = inr (none, 0, refl, λ j a b. absurd (omega arith))
  pair_cases (suc n) i = elim (Option-cases (objects i)) [
    | inl e ↦ elim (second_cases n (suc i) i (omega arith)) [
      | inl (q, r, a, b, f) ↦ inl (
        i,
        q,
        rw (e, free_pair) r,
        record {
          from = omega arith;
          order = omega arith;
          below = omega arith;
          first = e;
          second = f;
        },
      )
      | inr (r, all) ↦
          inr (some i, i, rw (e, free_pair) r, λ j a b ne. all j (ground arith) (omega arith) ne)
    ]
    | inr (x, e) ↦ elim (pair_cases n (suc i)) [
      | inl (p, q, r, f) ↦ inl (
        p,
        q,
        rw (e, free_pair) r,
        record {
          from = omega (arith, f.from);
          order = f.order;
          below = omega (arith, f.below);
          first = f.first;
          second = f.second;
        },
      )
      | inr (a, p, r, all) ↦ inr (
        a,
        p,
        rw (e, free_pair) r,
        λ j a' b ne. elim (Bool-cases (j == i)) [
          | inl s ↦ ground (arith, ap objects (eq_of_== j i s), e)
          | inr s ↦ all j (ground arith) (omega arith) ne
        ],
      )
    ]
  ]

  -- With two entries that are not in use, the loop finds two.
  pub free_pair-Places :
      (n : ℕ)
      → count_used n objects + 2 ≤ n
      → (p q : ℕ) × (free_pair objects n 0 none ≡ (some p, some q)) × Places objects n 0 p q
  free_pair-Places n room = elim (pair_cases n 0) [
    | inl found ↦ found
    | inr (a, p, r, all) ↦ absurd (short n p room all)
  ]
    where
      full :
          (n p : ℕ)
          → AllUsedBut p objects n 0
          → count_used n (update objects p (some blank_object)) ≡ n
      full n p all = count_used-full n (update objects p (some blank_object)) λ j b.
          elim (Bool-cases (j == p)) [
            | inl s ↦ ground (
              arith,
              ap (update objects p (some blank_object)) (eq_of_== j p s),
              update-eq objects p (some blank_object),
            )
            | inr s ↦ ground (
              arith,
              update-ne objects p (some blank_object) j (λ q. ground arith),
              all j (omega arith) (omega arith) (λ q. ground arith),
            )
          ]

      short : (n p : ℕ) → count_used n objects + 2 ≤ n → AllUsedBut p objects n 0 → ⊥
      short n p room all = elim (Bool-cases (ltb p n)) [
        | inl s ↦
            let less : p < n = ground arith in
            ground (arith, full n p all, count_used-update n objects p (some blank_object) less)
        | inr s ↦ omega (
          arith,
          count_used-full n objects (λ j b. all j (omega arith) (omega arith) (λ q. ground arith)),
        )
      ]
