-- ===== src/Keys/Curves.antt =====
-- The two functions about curves in hsm/src/crypto/crypto_ops.c, one against the other.
use pst_boitier_pki.Common.{ℕ, ◌≡◌, ◌⊎◌, inl, inr, true, Bytes, arith, ap, ◌∙◌, sym, refl}
use pst_boitier_pki.Cryptoki.{CkRv, ckr_ok}
use pst_boitier_pki.OpenSsl.{OpenSsl, IsDocumented}
use pst_boitier_pki.Keys.{
  p256_oid, p384_oid, p521_oid, get_curve_nid_from_params, get_ec_params_from_nid,
}

module _ (o : OpenSsl) (law : IsDocumented o) where
  -- Reading back the parameters of a curve, where these are `oid` and read as `nid'`.
  curve_of_params :
      (nid nid' : ℕ) (oid : Bytes)
      → get_ec_params_from_nid o true nid ≡ (ckr_ok, oid)
      → get_curve_nid_from_params o oid ≡ nid'
      → nid' ≡ nid
      → (get_curve_nid_from_params o (get_ec_params_from_nid o true nid).1 ≡ nid)
        × ((get_ec_params_from_nid o true nid).0 ≡ ckr_ok)
  curve_of_params nid nid' oid e back same = (
    ap (λ (p : CkRv × Bytes). get_curve_nid_from_params o p.1) e ∙ back ∙ same,
    ap (λ (p : CkRv × Bytes). p.0) e,
  )

  -- For each of the three curves get_ec_params_from_nid, where memory can be allocated, returns CKR_OK,
  -- and get_curve_nid_from_params reads the parameters that it gives back as the same curve, if the
  -- identifiers of the curves are different.
  pub ec_params-curve_nid :
      (nid : ℕ)
      → (nid ≡ o.nid_p256) ⊎ (nid ≡ o.nid_p384) ⊎ (nid ≡ o.nid_p521)
      → (get_curve_nid_from_params o (get_ec_params_from_nid o true nid).1 ≡ nid)
        × ((get_ec_params_from_nid o true nid).0 ≡ ckr_ok)
  unfolding get_curve_nid_from_params get_ec_params_from_nid
  ec_params-curve_nid nid (inl e) =
      curve_of_params nid o.nid_p256 p256_oid (ground arith) refl (sym e)
  ec_params-curve_nid nid (inr (inl e)) =
      curve_of_params nid o.nid_p384 p384_oid (ground (arith, law.p256_p384)) refl (sym e)
  ec_params-curve_nid nid (inr (inr e)) =
      curve_of_params nid o.nid_p521 p521_oid (ground (arith, law.p256_p521, law.p384_p521)) refl
        (sym e)
