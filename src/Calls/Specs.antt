-- ===== src/Calls/Specs.antt =====
-- The specifications of the calls of hsm/src/pkcs11/session.c and crypto_ops.c keep the handle, the
-- slot and the lock of a session.
use pst_boitier_pki.Common.{
  ℕ, ◌≡◌, true, none, some, Bytes, inl, inr, arith, Bool-cases, Option-cases, ◌||◌, not,
}
use pst_boitier_pki.Cryptoki.{ckr_operation_not_initialized, ckr_object_handle_invalid}
use pst_boitier_pki.Hsm.State.{HsmSlot, HsmSession, Token, HsmObject}
use pst_boitier_pki.Login.{logged_in, logged_out}
use pst_boitier_pki.Login.Refine.{login_spec, logout_spec}
use pst_boitier_pki.OpenSsl.{OpenSsl}
use pst_boitier_pki.Signing.{
  hsm_sign_data, sign_rsa, sign_ec, sign_rsa_with, sign_ec_with, digest_sign, rsa_raw, ecdsa_raw,
}
use pst_boitier_pki.SignCalls.{Signed, is_sign, inactive, ended}
use pst_boitier_pki.SignCalls.Refine.{object_of, sign_init_spec, sign_spec}
use pst_boitier_pki.SignCalls.Verify.{verify_init_spec, verify_spec}
use pst_boitier_pki.Calls.Keep.{Keeps}

-- Each specification keeps what the table depends on.
pub login-Keeps :
    (sha256 : Bytes → Bytes) (user_type : ℕ) (pin : Bytes) (now : ℕ) (x : HsmSession) (t : Token)
    → Keeps x (login_spec sha256 user_type pin now x t).1
unfolding login_spec logged_in
login-Keeps sha256 user_type pin now x t = ground arith

pub logout-Keeps : (x : HsmSession) → Keeps x (logout_spec x).1
unfolding logout_spec logged_out
logout-Keeps x = ground arith

pub sign_init-Keeps :
    (mechanism key : ℕ) (s : HsmSlot) (x : HsmSession)
    → Keeps x (sign_init_spec mechanism key s x).1
unfolding sign_init_spec
sign_init-Keeps mechanism key s x = elim (Option-cases (object_of key s)) [
  | inl e ↦ ground (arith, e)
  | inr (k, e) ↦ ground (arith, e)
]

pub verify_init-Keeps :
    (mechanism key : ℕ) (s : HsmSlot) (x : HsmSession)
    → Keeps x (verify_init_spec mechanism key s x).1
unfolding verify_init_spec
verify_init-Keeps mechanism key s x = elim (Option-cases (object_of key s)) [
  | inl e ↦ ground (arith, e)
  | inr (k, e) ↦ ground (arith, e)
]

pub verify-Keeps : (s : HsmSlot) (x : HsmSession) → Keeps x (verify_spec s x).1
unfolding verify_spec
verify-Keeps s x = elim (Option-cases (object_of x.operation.key_handle s)) [
  | inl e ↦ ground (arith, e)
  | inr (k, e) ↦ ground (arith, e)
]

-- With a buffer for the signature there is always a result.
pub sign_data-some :
    (o : OpenSsl) (k : HsmObject) (mechanism : ℕ) (data' : Bytes) (len : ℕ)
    → (out : Signed) × (hsm_sign_data o k mechanism data' true len ≡ some out)
unfolding hsm_sign_data sign_rsa sign_ec sign_rsa_with sign_ec_with digest_sign rsa_raw ecdsa_raw
sign_data-some o k mechanism data' len =
    elim (Option-cases (hsm_sign_data o k mechanism data' true len)) [
      | inr found ↦ found
      | inl e ↦ absurd (ground (arith, e))
    ]

pub sign-Keeps :
    (o : OpenSsl) (data' : Bytes) (len : ℕ) (s : HsmSlot) (x : HsmSession)
    → (out : Signed) × (x' : HsmSession) × (sign_spec o data' true len s x ≡ some (out, x'))
      × Keeps x x'
unfolding sign_spec
sign-Keeps o data' len s x =
    elim (Bool-cases (not x.operation.active || not (is_sign x.operation.op))) [
      | inl e ↦ ((ckr_operation_not_initialized, len, none), x, ground (arith, e), ground arith)
      | inr e ↦ elim (Option-cases (object_of x.operation.key_handle s)) [
        | inl q ↦
            ((ckr_object_handle_invalid, len, none), inactive x, ground (arith, e, q), ground arith)
        | inr (k, q) ↦
            let (out, made) = sign_data-some o k x.operation.mechanism data' len in
            (out, ended x, ground (arith, e, q, made), ground arith)
      ]
    ]
