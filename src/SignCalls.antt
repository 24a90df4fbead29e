-- ===== src/SignCalls.antt =====
-- The calls of hsm/src/pkcs11/crypto_ops.c that sign and verify, and C_GenerateRandom of
-- hsm/src/crypto/crypto_ops.c. A pointer to data is `none` where it is NULL, otherwise the bytes that
-- the length beside it counts.
pub mod Refine
pub mod Verify
pub mod Lifecycle
pub mod Random
use pst_boitier_pki.Common.{
  ℕ, ◌%◌, ◌^◌, Bool, true, false, Option, none, some, Bytes, ◌==◌, if◌then◌else◌, not, ◌||◌, inl,
  inr, is_some,
}
use pst_boitier_pki.Cryptoki.{
  CkRv, ckr_ok, is_ok, ckr_arguments_bad, ckr_operation_active, ckr_operation_not_initialized,
  ckr_key_type_inconsistent, ckr_key_function_not_permitted, ckr_function_not_supported,
  ckr_random_no_rng,
}
use pst_boitier_pki.Hsm.State.{
  HsmSession, HsmOperation, HsmOperationType, op_none, op_sign, op_verify, obj_type_private_key,
  obj_type_public_key,
}
use pst_boitier_pki.Hsm.Cmd.{
  Cmd, pure, ◌>>=◌, ◌>>◌, crash, SessionRef, read_session, write_session, lock_session,
}
use pst_boitier_pki.Session.{with_session, hsm_get_session, hsm_verify_session}
use pst_boitier_pki.Login.{leave_session}
use pst_boitier_pki.Objects.{hsm_get_object, read_object}
use pst_boitier_pki.Mechanisms.{hsm_check_mechanism_supported}
use pst_boitier_pki.OpenSsl.{OpenSsl}
use pst_boitier_pki.Signing.{SignResult, hsm_sign_data, hsm_verify_signature}

-- `session->operation.active && session->operation.type == OP_SIGN`, and of `OP_VERIFY`.
abbrev pub is_sign : HsmOperationType → Bool
is_sign op_sign = true
is_sign _ = false

abbrev pub is_verify : HsmOperationType → Bool
is_verify op_verify = true
is_verify _ = false

-- `session->operation.active = false;`
abbrev pub inactive : HsmSession → HsmSession
inactive x = record x { operation = record x.operation { active = false } }

-- `session->operation.active = false; session->operation.type = OP_NONE;`
abbrev pub ended : HsmSession → HsmSession
ended x = record x { operation = record x.operation { op = op_none; active = false } }

-- The assignments that start an operation.
abbrev pub begun : HsmOperationType → (mechanism key : ℕ) → HsmSession → HsmSession
begun op mechanism key x = record x {
  operation = record { op = op; mechanism = mechanism; key_handle = key; active = true };
}

unfoldable pub c_sign_init : (mechanism : Option ℕ) (key handle : ℕ) → Cmd CkRv
c_sign_init none key handle = pure ckr_arguments_bad
c_sign_init (some mechanism) key handle = with_session handle λ r. do
  lock_session r
  x ← read_session r
  if x.operation.active then leave_session r ckr_operation_active else do
    found ← hsm_get_object x.slot_id key
    elim found [
      | inl rv ↦ leave_session r rv
      | inr i ↦ do
        k ← read_object x.slot_id i
        if not (k.type == obj_type_private_key)
            then leave_session r ckr_key_type_inconsistent
            else if not k.can_sign
            then leave_session r ckr_key_function_not_permitted
            else if not (is_ok (hsm_check_mechanism_supported mechanism))
            then leave_session r (hsm_check_mechanism_supported mechanism)
            else do write_session r (begun op_sign mechanism key x); leave_session r ckr_ok
    ]

unfoldable pub c_verify_init : (mechanism : Option ℕ) (key handle : ℕ) → Cmd CkRv
c_verify_init none key handle = pure ckr_arguments_bad
c_verify_init (some mechanism) key handle = with_session handle λ r. do
  lock_session r
  x ← read_session r
  if x.operation.active then leave_session r ckr_operation_active else do
    found ← hsm_get_object x.slot_id key
    elim found [
      | inl rv ↦ leave_session r rv
      | inr i ↦ do
        k ← read_object x.slot_id i
        if not (k.type == obj_type_public_key)
            then leave_session r ckr_key_type_inconsistent
            else do write_session r (begun op_verify mechanism key x); leave_session r ckr_ok
    ]

-- The return value, `*pulSignatureLen` after the call, and the bytes written to `pSignature`.
abbrev pub Signed : Type 0
Signed = CkRv × ℕ × Option Bytes

module _ (o : OpenSsl) where
  -- The end of `C_Sign`, after `hsm_sign_data`.
  unfoldable pub finish_sign : SessionRef → HsmSession → SignResult → Cmd Signed
  finish_sign r x none = crash
  finish_sign r x (some result) = do write_session r (ended x); leave_session r result

  -- With `pulSignatureLen` NULL the length in the result is 0.
  unfoldable pub c_sign :
      (p_data : Option Bytes) (given : Bool) (pul_signature_len : Option ℕ) (handle : ℕ)
      → Cmd Signed
  c_sign none given none handle = pure (ckr_arguments_bad, 0, none)
  c_sign none given (some len) handle = pure (ckr_arguments_bad, len, none)
  c_sign (some data') given none handle = pure (ckr_arguments_bad, 0, none)
  c_sign (some data') given (some len) handle = do
    found ← hsm_get_session handle
    elim found [
      | inl rv ↦ pure (rv, len, none)
      | inr r ↦ do
        lock_session r
        x ← read_session r
        if not x.operation.active || not (is_sign x.operation.op)
            then leave_session r (ckr_operation_not_initialized, len, none)
            else do
              place ← hsm_get_object x.slot_id x.operation.key_handle
              elim place [
                | inl rv ↦ do write_session r (inactive x); leave_session r (rv, len, none)
                | inr i ↦ do
                  k ← read_object x.slot_id i
                  finish_sign r x (hsm_sign_data o k x.operation.mechanism data' given len)
              ]
    ]

  -- The return value, and the bytes written to `RandomData`. `RAND_bytes` takes its number of bytes
  -- as an `int` of 32 bits.
  unfoldable pub c_generate_random :
      (random_data : Bool) (ul_random_len handle : ℕ) → Cmd (CkRv × Option Bytes)
  c_generate_random random_data ul_random_len handle =
      if not random_data then pure (ckr_arguments_bad, none) else do
        rv ← hsm_verify_session handle
        if not (is_ok rv) then pure (rv, none) else elim (o.rand_bytes (ul_random_len % 2 ^ 32)) [
          | none ↦ pure (ckr_random_no_rng, none)
          | some b ↦ pure (ckr_ok, some b)
        ]

unfoldable pub c_verify : (p_data p_signature : Option Bytes) (handle : ℕ) → Cmd CkRv
c_verify none p_signature handle = pure ckr_arguments_bad
c_verify (some data') none handle = pure ckr_arguments_bad
c_verify (some data') (some signature) handle = with_session handle λ r. do
  lock_session r
  x ← read_session r
  if not x.operation.active || not (is_verify x.operation.op)
      then leave_session r ckr_operation_not_initialized
      else do
        place ← hsm_get_object x.slot_id x.operation.key_handle
        elim place [
          | inl rv ↦ do write_session r (inactive x); leave_session r rv
          | inr i ↦ do
            k ← read_object x.slot_id i
            write_session r (ended x)
            leave_session r (hsm_verify_signature k x.operation.mechanism data' signature)
        ]

-- The calls that are stubs, with their arguments left out: `C_SignUpdate`, `C_SignFinal`,
-- `C_VerifyUpdate`, `C_VerifyFinal`, and the digest, encryption and decryption calls.
unfoldable pub c_sign_update : Cmd CkRv
c_sign_update = pure ckr_function_not_supported

unfoldable pub c_sign_final : Cmd CkRv
c_sign_final = pure ckr_function_not_supported

unfoldable pub c_verify_update : Cmd CkRv
c_verify_update = pure ckr_function_not_supported

unfoldable pub c_verify_final : Cmd CkRv
c_verify_final = pure ckr_function_not_supported

-- `C_DigestInit`, `C_Digest`, `C_DigestUpdate`, `C_DigestKey`, `C_DigestFinal`
unfoldable pub c_digest : Cmd CkRv
c_digest = pure ckr_function_not_supported

-- `C_EncryptInit`, `C_Encrypt`, `C_EncryptUpdate`, `C_EncryptFinal`
unfoldable pub c_encrypt : Cmd CkRv
c_encrypt = pure ckr_function_not_supported

-- `C_DecryptInit`, `C_Decrypt`, `C_DecryptUpdate`, `C_DecryptFinal`
unfoldable pub c_decrypt : Cmd CkRv
c_decrypt = pure ckr_function_not_supported
