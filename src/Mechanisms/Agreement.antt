-- ===== src/Mechanisms/Agreement.antt =====
-- C_GetMechanismList and C_GetMechanismInfo of hsm/src/pkcs11/pkcs11_impl.c, one against the
-- other.
use pst_boitier_pki.Common.{
  ℕ, ◌≡◌, ◌<◌, refl, Bool, true, some, List, arith, if◌then◌else◌, inl, inr, Bool-cases, [], ◌∷◌,
  is_some, ◌&&◌, eq_of_==, ◌==◌,
}
use pst_boitier_pki.Cryptoki.{ckr_ok, ckr_mechanism_invalid}
use pst_boitier_pki.Hsm.State.{HsmContext}
use pst_boitier_pki.Mechanisms.{
  mechanisms, supported, is_one_of, mechanism_info, c_get_mechanism_list, c_get_mechanism_info,
}

-- The `switch` has a case for every member of a list.
unfoldable all_known : List ℕ → Bool
all_known [] = true
all_known (x ∷ xs) = is_some (mechanism_info x) && all_known xs

known_of_listed :
    (m : ℕ) (xs : List ℕ)
    → all_known xs ≡ true
    → is_one_of m xs ≡ true
    → is_some (mechanism_info m) ≡ true
unfolding all_known is_one_of
known_of_listed m [] a e = absurd (ground (arith, e))
known_of_listed m (x ∷ xs) a e = elim (Bool-cases (x == m)) [
  | inl same ↦ rw⁻¹ (eq_of_== x m same) (ground (arith, a))
  | inr other ↦ known_of_listed m xs (ground (arith, a)) (ground (arith, e, other))
]

supported-known : (m : ℕ) → is_one_of m supported ≡ true → is_some (mechanism_info m) ≡ true
unfolding all_known mechanism_info
supported-known m = known_of_listed m supported refl

-- With the library running and a slot that exists, C_GetMechanismInfo returns CKR_OK exactly for the
-- mechanisms that C_GetMechanismList lists, and CKR_MECHANISM_INVALID for all others.
pub mechanism_info-listed :
    (slot_id type : ℕ) (g : HsmContext)
    → g.initialized ≡ true
    → slot_id < g.slot_count
    → (c_get_mechanism_list true 17 slot_id g ≡ (ckr_ok, some mechanisms, 17))
      × ((c_get_mechanism_info true slot_id type g).0
          ≡ (if is_one_of type mechanisms then ckr_ok else ckr_mechanism_invalid))
unfolding c_get_mechanism_list c_get_mechanism_info
mechanism_info-listed slot_id type g on inside =
    (ground arith, ground (arith, supported-known type))
