-- ===== src/Tests/Signatures.antt =====
-- The theorems on keys and signatures, at sample inputs.
use pst_boitier_pki.Common.{
  ◌≡◌, ◌≢◌, ◌↔◌, refl, true, false, none, some, [], ◌∷◌, Bytes, update, arith, find_from,
}
use pst_boitier_pki.Cryptoki.{ckr_ok, ckr_mechanism_invalid, ckr_operation_not_initialized, is_ok}
use pst_boitier_pki.Hsm.State.{HsmContext, HsmObject, obj_type_private_key, key_type_rsa, op_sign}
use pst_boitier_pki.Hsm.Cmd.{done, fault, put_slot, read_slot}
use pst_boitier_pki.Hsm.Focus.{focus}
use pst_boitier_pki.Hsm.Invariant.{IsReady}
use pst_boitier_pki.Session.{hsm_get_session}
use pst_boitier_pki.Login.Refine.{Leads}
use pst_boitier_pki.Mechanisms.{
  is_one_of, hsm_check_mechanism_supported, ckm_sha256_rsa_pkcs, ckm_ecdsa, ckm_rsa_pkcs_pss,
}
use pst_boitier_pki.Keys.{
  rsa_public, rsa_private, ec_public, ec_private, hsm_generate_key_pair_rsa,
  hsm_generate_key_pair_ec, p384_oid, get_ec_params_from_nid,
}
use pst_boitier_pki.Signing.{
  hsm_sign_data, sign_rsa, sign_rsa_with, sign_ec_with, rsa_md, digest_sign,
}
use pst_boitier_pki.Signing.Generated.{
  generated_rsa, generated_ec, generate_rsa-sign, generate_ec-sign,
}
use pst_boitier_pki.Signing.Mechanism.{signing, sign_data-signing}
use pst_boitier_pki.SignCalls.{Signed, begun, ended, c_sign_init, c_sign, c_verify_init, c_verify}
use pst_boitier_pki.SignCalls.Refine.{object_of, sign_spec, sign-refines}
use pst_boitier_pki.SignCalls.Verify.{verify_init_spec, verify_spec, verify-refines}
use pst_boitier_pki.SignCalls.Lifecycle.{sign_init-sign}
use pst_boitier_pki.KeyPair.{private_key_object, public_key_object}
use pst_boitier_pki.Tests.{session, busy}
use pst_boitier_pki.Tests.Toy.{toy, toy-IsDocumented, rsa_parts, ec_parts}

abbrev pub message : Bytes
message = 5 ∷ 6 ∷ []

abbrev pub rsa_pub : HsmObject
rsa_pub = rsa_public toy 2048 rsa_parts public_key_object

abbrev pub rsa_key : HsmObject
rsa_key = rsa_private toy 2048 rsa_parts private_key_object

three_ne : rsa_parts.p ≢ 0
three_ne e = omega arith

made_rsa :
    hsm_generate_key_pair_rsa toy true 2048 public_key_object private_key_object
    ≡ some (ckr_ok, rsa_pub, rsa_key)
unfolding hsm_generate_key_pair_rsa
made_rsa = refl

key_is_private : rsa_key.type ≡ obj_type_private_key
unfolding rsa_private
key_is_private = refl

generate_rsa-sign_example :
    hsm_sign_data toy rsa_key ckm_sha256_rsa_pkcs message true 10
    ≡ sign_rsa_with toy (generated_rsa rsa_parts) ckm_sha256_rsa_pkcs message true 10
generate_rsa-sign_example =
    generate_rsa-sign toy toy-IsDocumented true 2048 rsa_parts public_key_object private_key_object
      rsa_pub rsa_key ckm_sha256_rsa_pkcs message true 10 refl three_ne refl refl made_rsa

abbrev ec_pub : HsmObject
ec_pub = ec_public toy 715 p384_oid ec_parts public_key_object

abbrev ec_key : HsmObject
ec_key = ec_private toy 715 p384_oid ec_parts private_key_object

made_ec :
    hsm_generate_key_pair_ec toy true true 715 public_key_object private_key_object
    ≡ some (ckr_ok, ec_pub, ec_key)
unfolding hsm_generate_key_pair_ec get_ec_params_from_nid
made_ec = refl

generate_ec-sign_example :
    hsm_sign_data toy ec_key ckm_ecdsa message true 10
    ≡ sign_ec_with toy (generated_ec 715 ec_parts) ckm_ecdsa message true 10
generate_ec-sign_example =
    generate_ec-sign toy toy-IsDocumented true true 715 ec_parts public_key_object
      private_key_object ec_pub ec_key ckm_ecdsa message true 10 refl refl refl made_ec

-- What the sample key signs.
abbrev pub signed : Signed
signed = (ckr_ok, 4, some (1 ∷ 2 ∷ 3 ∷ 4 ∷ []))

pub key_signs : hsm_sign_data toy rsa_key ckm_sha256_rsa_pkcs message true 10 ≡ some signed
unfolding hsm_sign_data rsa_private sign_rsa sign_rsa_with rsa_md digest_sign
key_signs = refl

key_is_rsa : rsa_key.key_type ≡ key_type_rsa
unfolding rsa_private
key_is_rsa = refl

sign_data-signing_example :
    ((ckr_ok ≡ ckr_mechanism_invalid)
      ↔ (is_one_of ckm_sha256_rsa_pkcs (signing rsa_key.key_type) ≡ false))
    × (hsm_check_mechanism_supported ckm_rsa_pkcs_pss ≡ ckr_ok)
    × (is_one_of ckm_rsa_pkcs_pss (signing rsa_key.key_type) ≡ false)
sign_data-signing_example =
    sign_data-signing toy ckm_sha256_rsa_pkcs message true 10 rsa_key signed key_is_private refl
      refl key_signs

-- One session, and the private key, of handle 77, in the table.
abbrev key_at : HsmObject
key_at = record rsa_key { handle = 77 }

abbrev keyed : HsmContext
keyed =
    put_slot 0
      (record (busy.slots 0) { objects = update (λ _. none) 0 (some key_at); object_count = 1 })
      busy

keyed-IsReady : IsReady keyed
unfolding update
keyed-IsReady = record { initialized = refl; slot_count = refl; slots_len = refl; free = refl }

keyed-Leads : Leads 1 0 session keyed
unfolding hsm_get_session read_slot find_from update
keyed-Leads = record { found = refl; present = refl; home = refl; free = refl }

verify-refines_example :
    let (rv, x') = verify_init_spec ckm_ecdsa 77 (keyed.slots 0) session in
    let (rv2, x2) = verify_spec (keyed.slots 0) session in
    (c_verify_init (some ckm_ecdsa) 77 1 keyed ≡ done rv (focus keyed 0 x' (keyed.slots 0)))
    × (c_verify (some message) (some message) 1 keyed ≡ done rv2 (focus keyed 0 x2 (keyed.slots 0)))
    × (is_ok rv2 ≡ false)
verify-refines_example =
    verify-refines 1 0 session keyed keyed-IsReady keyed-Leads ckm_ecdsa 77 message message

sign-refines_example :
    c_sign toy (some message) true (some 10) 1 keyed
    ≡ elim (sign_spec toy message true 10 (keyed.slots 0) session) [
      | none ↦ fault
      | some (out, x') ↦ done out (focus keyed 0 x' (keyed.slots 0))
    ]
sign-refines_example = sign-refines 1 0 session keyed keyed-IsReady keyed-Leads toy message true 10

key_found : object_of 77 (keyed.slots 0) ≡ some key_at
unfolding find_from update
key_found = refl

key_at-signs : hsm_sign_data toy key_at ckm_sha256_rsa_pkcs message true 10 ≡ some signed
unfolding hsm_sign_data rsa_private sign_rsa sign_rsa_with rsa_md digest_sign
key_at-signs = refl

may_sign : rsa_key.can_sign ≡ true
unfolding rsa_private
may_sign = refl

pub sha256_known : hsm_check_mechanism_supported ckm_sha256_rsa_pkcs ≡ ckr_ok
unfolding hsm_check_mechanism_supported is_one_of
sha256_known = refl

sign_init-sign_example :
    let g1 = focus keyed 0 (begun op_sign ckm_sha256_rsa_pkcs 77 session) (keyed.slots 0) in
    let g2 = focus keyed 0 (ended (begun op_sign ckm_sha256_rsa_pkcs 77 session)) (keyed.slots 0) in
    (c_sign_init (some ckm_sha256_rsa_pkcs) 77 1 keyed ≡ done ckr_ok g1)
    × (c_sign toy (some message) true (some 10) 1 g1 ≡ done signed g2)
    × (c_sign toy (some message) true (some 10) 1 g2
        ≡ done (ckr_operation_not_initialized, 10, none) g2)
sign_init-sign_example =
    sign_init-sign 1 0 session keyed keyed-IsReady keyed-Leads toy message true 10
      ckm_sha256_rsa_pkcs 77 key_at signed refl key_found key_is_private may_sign sha256_known
      key_at-signs
