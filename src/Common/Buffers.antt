-- ===== src/Common/Buffers.antt =====
-- Byte buffers as functions of the index: bytes written to them, and read back.
use Prim.Native.Nat.{ℕ, zero, suc, ◌+◌, ◌≤◌, ◌<◌}
use mathlib.Core.Path.{◌≡◌, refl, ap, ◌∙◌}
use mathlib.Core.List.{List, [], ◌∷◌, ◌++◌}
use native.Mathlib.Omega.{arith}
use pst_boitier_pki.Common.Lists.{length}
use pst_boitier_pki.Common.Arrays.{update, update-eq, update-ne}

-- `n` entries of an array from entry `i`.
abbrev pub window : (ℕ → ℕ) → (i n : ℕ) → List ℕ
window f i zero = []
window f i (suc n) = f i ∷ window f (suc i) n

-- An array with bytes written from entry `i`.
unfoldable pub write_at : (ℕ → ℕ) → (i : ℕ) → List ℕ → ℕ → ℕ
write_at f i [] = f
write_at f i (b ∷ bs) = update (write_at f (suc i) bs) i b

pub write_at-before : (f : ℕ → ℕ) (i : ℕ) (bs : List ℕ) (j : ℕ) → j < i → write_at f i bs j ≡ f j
unfolding write_at
write_at-before f i [] j less = refl
write_at-before f i (b ∷ bs) j less =
    update-ne (write_at f (suc i) bs) i b j (λ e. absurd (omega (arith, e, less)))
    ∙ write_at-before f (suc i) bs j (omega arith)

window-update_before : (f : ℕ → ℕ) (i n c h : ℕ) → c < i → window (update f c h) i n ≡ window f i n
window-update_before f i zero c h less = refl
window-update_before f i (suc n) c h less =
    rw
      (
        update-ne f c h i (λ e. absurd (omega (arith, e, less))),
        window-update_before f (suc i) n c h (omega arith),
      )
      refl

-- What was written is read back.
pub window-write_at :
    (f : ℕ → ℕ) (i : ℕ) (bs : List ℕ) → window (write_at f i bs) i (length bs) ≡ bs
unfolding write_at
window-write_at f i [] = refl
window-write_at f i (b ∷ bs) =
    rw
      (
        update-eq (write_at f (suc i) bs) i b,
        window-update_before (write_at f (suc i) bs) (suc i) (length bs) i b (omega arith),
        window-write_at f (suc i) bs,
      )
      refl

pub write_at-after :
    (f : ℕ → ℕ) (i : ℕ) (bs : List ℕ) (j : ℕ) → i + length bs ≤ j → write_at f i bs j ≡ f j
unfolding write_at
write_at-after f i [] j le = refl
write_at-after f i (b ∷ bs) j le =
    update-ne (write_at f (suc i) bs) i b j (λ e. absurd (omega (arith, e, le)))
    ∙ write_at-after f (suc i) bs j (omega arith)

pub window-eq :
    (f g : ℕ → ℕ) (i n : ℕ) → ((j : ℕ) → i ≤ j → f j ≡ g j) → window f i n ≡ window g i n
window-eq f g i zero h = refl
window-eq f g i (suc n) h =
    rw (h i (omega arith), window-eq f g (suc i) n (λ j le. h j (omega arith))) refl

-- A header, and a body written behind it, are one message.
pub window-message :
    (f : ℕ → ℕ) (head body : List ℕ)
    → window (write_at (write_at f (length head) body) 0 head) 0 (length head + length body)
      ≡ head ++ body
window-message f head body =
    let g = write_at f (length head) body in
    window-append (write_at g 0 head) 0 (length head) (length body)
    ∙ rw (window-write_at g 0 head) (
        ap (λ (xs : List ℕ). head ++ xs)
          (window-eq (write_at g 0 head) g (0 + length head) (length body)
              (λ j le. write_at-after g 0 head j le)
            ∙ ap (λ (k : ℕ). window g k (length body)) (omega arith)
            ∙ window-write_at f (length head) body))
  where
    window-append :
        (f : ℕ → ℕ) (i n m : ℕ) → window f i (n + m) ≡ window f i n ++ window f (i + n) m
    window-append f i zero m =
        ap (λ (k : ℕ). window f i k) (omega arith) ∙ ap (λ (k : ℕ). window f k m) (omega arith)
    window-append f i (suc n) m =
        let longer : suc n + m ≡ suc (n + m) = omega arith in
        let next : suc i + n ≡ i + suc n = omega arith in
        ap (window f i) longer
        ∙ ap (◌∷◌ (f i))
            (window-append f (suc i) n m ∙ ap (λ (k : ℕ). window f (suc i) n ++ window f k m) next)
