-- ===== src/TokenInfo/Label.antt =====
-- C_GetTokenInfo of hsm/src/pkcs11/pkcs11_impl.c.
use pst_boitier_pki.Common.{
  ℕ, ◌/◌, ◌%◌, suc, ◌≡◌, ◌<◌, ◌≤◌, refl, true, false, some, [], ◌∷◌, ◌++◌, Bytes, length, take,
  replicate, arith, ap, ◌∙◌, sym, ltb, take-append, memcpy-all, length-replicate, Option-cases, inl,
  inr, ◌==◌, Bool-cases,
}
use pst_boitier_pki.Cryptoki.{ckr_ok}
use pst_boitier_pki.Hsm.State.{HsmContext, HsmSlot}
use pst_boitier_pki.Hsm.State
use pst_boitier_pki.Hsm.Cmd.{done}
use pst_boitier_pki.Hsm.Slots.{read_slot-done}
use pst_boitier_pki.Hsm.Invariant.{IsReady}
use pst_boitier_pki.Storage.{little_endian, of_bool}
use pst_boitier_pki.Attributes.{strlen}
use pst_boitier_pki.Attributes.Label.{NonZero}
use pst_boitier_pki.TokenInfo.{
  label_memory, shown_label, token_flags, token_info, c_get_token_info, CkTokenInfo,
}

-- A zero byte somewhere ends the search.
strlen_append :
    (xs ys : Bytes) (n : ℕ) → strlen ys ≡ some n → (k : ℕ) × (strlen (xs ++ ys) ≡ some k)
unfolding strlen
strlen_append [] ys n e = (n, e)
strlen_append (x ∷ xs) ys n e =
    let (k, q) = strlen_append xs ys n e in
    elim (Bool-cases (x == 0)) [
      | inl z ↦ (0, ground (arith, z, q))
      | inr z ↦ (suc k, ground (arith, z, q))
    ]

-- The label's own bytes are at least those before its first zero byte.
strlen-NonZero : (xs ys : Bytes) (k : ℕ) → NonZero xs → strlen (xs ++ ys) ≡ some k → length xs ≤ k
unfolding strlen
strlen-NonZero [] ys k nz e = omega arith
strlen-NonZero (x ∷ xs) ys k nz e = elim (Option-cases (strlen (xs ++ ys))) [
  | inl q ↦ absurd (ground (arith, q, e, nz.0))
  | inr (m, q) ↦ ground (arith, q, e, nz.0, strlen-NonZero xs ys m nz.1 q)
]

-- The highest byte of a retry counter is 0.
counter-ends :
    (n : ℕ)
    → n < 16777216
    → (rest : Bytes) → (k : ℕ) × (strlen (little_endian 4 n ++ rest) ≡ some k)
unfolding little_endian strlen
counter-ends n small rest =
    let d : n / 256 / 256 / 256 % 256 ≡ 0 = omega arith in
    let last : strlen ((n / 256 / 256 / 256 % 256) ∷ rest) ≡ some 0 = rw d refl in
    strlen_append (n % 256 ∷ n / 256 % 256 ∷ n / 256 / 256 % 256 ∷ [])
      ((n / 256 / 256 / 256 % 256) ∷ rest) 0 last

pub memory-ends :
    (t : State.Token)
    → t.user_pin_retry_count < 16777216
    → (k : ℕ) × (strlen (label_memory t) ≡ some k)
unfolding label_memory
memory-ends t small =
    let (a, ea) =
      counter-ends t.user_pin_retry_count small (little_endian 4 t.so_pin_retry_count) in
    let (b, eb) = strlen_append t.so_pin_hash _ a ea in
    let (c, ec) = strlen_append t.user_pin_hash _ b eb in
    let flags : Bytes =
      of_bool t.token_initialized
      ∷ of_bool t.user_pin_initialized
      ∷ of_bool t.so_pin_initialized
      ∷ [] in
    let (d, ed) = strlen_append flags _ c ec in strlen_append t.token_label _ d ed

shown-same :
    (label rest : Bytes) (k : ℕ)
    → length label ≡ 32
    → 32 ≤ k
    → shown_label (label ++ rest) k ≡ label
shown-same label rest k sized le =
    let some_left : ltb 0 k ≡ true = ground arith in
    let long : ltb k 32 ≡ false = ground arith in
    let cut : take 32 (label ++ rest) ≡ label =
      ap (λ (n : ℕ). take n (label ++ rest)) (sym sized) ∙ take-append label rest in
    rw (some_left, long, cut)
      (memcpy-all (replicate 32 b' ') label (length-replicate {A = ℕ} 32 b' ' ∙ sym sized))

-- The library is running with one slot, which has a token whose label array has 32 bytes, none of them
-- 0, and whose retry counter for the user is below 2^24. Then C_GetTokenInfo returns CKR_OK, though it
-- looks for the end of the label in the fields behind it; it leaves the state as it was; it gives all
-- 32 bytes of the label, and flags and session count of the slot.
pub get_token_info-label :
    (unavailable now : ℕ) (g : HsmContext)
    → IsReady g
    → (g.slots 0).token_present ≡ true
    → length (((g.slots 0).token).token_label) ≡ 32
    → NonZero (((g.slots 0).token).token_label)
    → ((g.slots 0).token).user_pin_retry_count < 16777216
    → (info : CkTokenInfo) × (c_get_token_info unavailable now true 0 g
        ≡ done (ckr_ok, some info) g)
      × (info.label ≡ ((g.slots 0).token).token_label)
      × (info.flags ≡ token_flags ((g.slots 0).token))
      × (info.ul_session_count ≡ (g.slots 0).session_count)
unfolding c_get_token_info token_info label_memory
get_token_info-label unavailable now g r present sized nz small =
    let t = (g.slots 0).token in
    let (k, e) = memory-ends t small in
    let le = strlen-NonZero t.token_label _ k nz e in
    (
      token_info unavailable now (g.slots 0) k,
      ground (
        arith,
        r.initialized,
        r.slot_count,
        read_slot-done 0 g (omega (arith, r.slots_len)),
        present,
        e,
      ),
      shown-same t.token_label _ k sized (omega (arith, le, sized)),
      refl,
      refl,
    )
