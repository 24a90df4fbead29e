-- ===== src/SignCalls/Refine.antt =====
-- C_SignInit and C_Sign of hsm/src/pkcs11/crypto_ops.c against specifications
-- without locks.
use pst_boitier_pki.Common.{
  ℕ, ◌≡◌, ◌<◌, Bool, true, Option, none, some, Bytes, ◌==◌, if◌then◌else◌, not, ◌||◌, inl, inr,
  arith, ap, sym, Option-cases, find_from-First,
}
use pst_boitier_pki.Cryptoki.{
  CkRv, ckr_ok, is_ok, ckr_operation_active, ckr_operation_not_initialized,
  ckr_object_handle_invalid, ckr_key_type_inconsistent, ckr_key_function_not_permitted,
}
use pst_boitier_pki.Hsm.State.{
  HsmContext, HsmSlot, HsmSession, HsmObject, op_sign, obj_type_private_key, hsm_max_objects,
}
use pst_boitier_pki.Hsm.Cmd.{done, fault}
use pst_boitier_pki.Hsm.Focus.{
  focus, read_slot-focus, read_session-focus, write_session-focus, unlock_session-focus,
}
use pst_boitier_pki.Hsm.Invariant.{IsReady}
use pst_boitier_pki.Login.Refine.{Leads, lock_session-start}
use pst_boitier_pki.Objects.{hsm_get_object, read_object, find_object, is_object}
use pst_boitier_pki.Mechanisms.{hsm_check_mechanism_supported}
use pst_boitier_pki.OpenSsl.{OpenSsl}
use pst_boitier_pki.Signing.{hsm_sign_data}
use pst_boitier_pki.SignCalls.{
  Signed, is_sign, inactive, ended, begun, c_sign_init, c_sign, finish_sign,
}

-- The object that a handle stands for.
abbrev pub object_of : ℕ → HsmSlot → Option HsmObject
object_of key s = elim (find_object key s) [ none ↦ none | some j ↦ s.objects j ]

unfoldable pub sign_init_spec : (mechanism key : ℕ) → HsmSlot → HsmSession → CkRv × HsmSession
sign_init_spec mechanism key s x =
    if x.operation.active then (ckr_operation_active, x) else elim (object_of key s) [
      | none ↦ (ckr_object_handle_invalid, x)
      | some k ↦
          if not (k.type == obj_type_private_key)
          then (ckr_key_type_inconsistent, x)
          else if not k.can_sign
          then (ckr_key_function_not_permitted, x)
          else if not (is_ok (hsm_check_mechanism_supported mechanism))
          then (hsm_check_mechanism_supported mechanism, x)
          else (ckr_ok, begun op_sign mechanism key x)
    ]

-- `none` where OpenSSL would write through a NULL `pSignature`.
unfoldable pub sign_spec :
    OpenSsl
    → (data' : Bytes) (given : Bool) (len : ℕ) → HsmSlot
    → HsmSession
    → Option (Signed × HsmSession)
sign_spec o data' given len s x =
    if not x.operation.active || not (is_sign x.operation.op)
    then some ((ckr_operation_not_initialized, len, none), x)
    else elim (object_of x.operation.key_handle s) [
      | none ↦ some ((ckr_object_handle_invalid, len, none), inactive x)
      | some k ↦ elim (hsm_sign_data o k x.operation.mechanism data' given len) [
        | none ↦ none
        | some result ↦ some (result, ended x)
      ]
    ]

-- What the two-level lookup of an object finds.
pub data Found (key : ℕ) (s : HsmSlot) : Type 0 where
  missing : find_object key s ≡ none → Found key s
  at' : (j : ℕ) (k : HsmObject) → find_object key s ≡ some j → s.objects j ≡ some k → Found key s

pub look : (key : ℕ) (s : HsmSlot) → Found key s
look key s = elim (Option-cases (find_object key s)) [
  | inl e ↦ missing e
  | inr (j, e) ↦ elim (Option-cases (s.objects j)) [
    | inr (k, q) ↦ at' j k e q
    | inl q ↦
        let f = find_from-First (is_object key s) hsm_max_objects 0 e in
        absurd (ground (arith, f.hit, q))
  ]
]

module _ (g : HsmContext) (i : ℕ) (r : IsReady g) (x : HsmSession) (a : HsmSlot) where
  pub get_object-missing :
      (key : ℕ)
      → find_object key a ≡ none
      → hsm_get_object 0 key (focus g i x a) ≡ done (inl ckr_object_handle_invalid) (focus g i x a)
  unfolding hsm_get_object
  get_object-missing key e =
      ground (arith, r.slot_count, read_slot-focus g i (omega (arith, r.slots_len)) x a, e)

  pub get_object-at :
      (key j : ℕ)
      → find_object key a ≡ some j
      → hsm_get_object 0 key (focus g i x a) ≡ done (inr j) (focus g i x a)
  unfolding hsm_get_object
  get_object-at key j e =
      ground (arith, r.slot_count, read_slot-focus g i (omega (arith, r.slots_len)) x a, e)

  pub read_object-at :
      (j : ℕ) (k : HsmObject)
      → a.objects j ≡ some k
      → read_object 0 j (focus g i x a) ≡ done k (focus g i x a)
  read_object-at j k e = ground (arith, read_slot-focus g i (omega (arith, r.slots_len)) x a, e)

module _ (handle i : ℕ) (x : HsmSession) (g : HsmContext) (r : IsReady g)
    (l : Leads handle i x g) where
  -- The library is running with one slot whose lock is free, and the handle leads to a session whose
  -- lock is free. Then C_SignInit, with a mechanism, returns with the value that `sign_init_spec`
  -- gives: it refuses while an operation is active, and wants an object of the slot that is a private
  -- key that may sign, and a mechanism that hsm_check_mechanism_supported knows. It changes that
  -- session as `sign_init_spec` says, and nothing else, and gives its lock back.
  pub sign_init-refines :
      (mechanism key : ℕ)
      → let (rv, x') = sign_init_spec mechanism key (g.slots 0) x in
        c_sign_init (some mechanism) key handle g ≡ done rv (focus g i x' (g.slots 0))
  unfolding c_sign_init sign_init_spec
  sign_init-refines mechanism key =
      let has : 0 < g.slots_len = omega (arith, r.slots_len) in
      let s = g.slots 0 in
      let y = record x { lock = true } in
      let y' = begun op_sign mechanism key y in
      let same = ap (λ (b : Bool). record x { lock = b }) (sym l.free) in
      let start = lock_session-start g i has x l.present l.free in
      let read = read_session-focus g i has y s in
      let unlock = unlock_session-focus g i has y s in
      elim (look key s) [
        | missing e ↦ ground (
          arith,
          l.found,
          l.home,
          start,
          read,
          unlock,
          e,
          get_object-missing g i r y s key e,
          same,
        )
        | at' j k e q ↦ ground (
          arith,
          l.found,
          l.home,
          start,
          read,
          unlock,
          e,
          q,
          same,
          get_object-at g i r y s key j e,
          read_object-at g i r y s j k q,
          write_session-focus g i has y s y',
          unlock_session-focus g i has y' s,
        )
      ]

  -- The library is running with one slot whose lock is free, and the handle leads to a session whose
  -- lock is free. Then C_Sign, with data and a length, does what `sign_spec` says: with no signing
  -- operation it returns CKR_OPERATION_NOT_INITIALIZED; with a key that is gone it clears the
  -- operation and returns CKR_OBJECT_HANDLE_INVALID; otherwise its value, length and signature are
  -- those of hsm_sign_data on the key and the mechanism of the operation, which ends whatever the
  -- value is. It changes nothing but that session, and gives its lock back. It faults exactly where
  -- hsm_sign_data writes through a NULL pointer.
  pub sign-refines :
      (o : OpenSsl) (data' : Bytes) (given : Bool) (len : ℕ)
      → c_sign o (some data') given (some len) handle g
        ≡ elim (sign_spec o data' given len (g.slots 0) x) [
          | none ↦ fault
          | some (out, x') ↦ done out (focus g i x' (g.slots 0))
        ]
  unfolding c_sign sign_spec finish_sign
  sign-refines o data' given len =
      let has : 0 < g.slots_len = omega (arith, r.slots_len) in
      let s = g.slots 0 in
      let y = record x { lock = true } in
      let key = x.operation.key_handle in
      let same = ap (λ (b : Bool). record x { lock = b }) (sym l.free) in
      let start = lock_session-start g i has x l.present l.free in
      let read = read_session-focus g i has y s in
      let unlock = unlock_session-focus g i has y s in
      elim (look key s) [
        | missing e ↦ ground (
          arith,
          l.found,
          l.home,
          start,
          read,
          unlock,
          e,
          same,
          write_session-focus g i has y s (inactive y),
          unlock_session-focus g i has (inactive y) s,
          get_object-missing g i r y s key e,
        )
        | at' j k e q ↦ ground (
          arith,
          l.found,
          l.home,
          start,
          read,
          unlock,
          e,
          q,
          same,
          write_session-focus g i has y s (ended y),
          unlock_session-focus g i has (ended y) s,
          get_object-at g i r y s key j e,
          read_object-at g i r y s j k q,
        )
      ]
