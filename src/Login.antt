-- ===== src/Login.antt =====
-- The calls of hsm/src/pkcs11/session.c about authentication: C_Login, C_Logout, C_GetSessionInfo,
-- C_InitPIN, C_SetPIN and C_InitToken. A PIN pointer is `none` where it is NULL.
pub mod PinCalls
pub mod PinChange
pub mod InitToken
pub mod Refine
pub mod State
pub mod Carry
use pst_boitier_pki.Common.{
  ℕ, ◌≡◌, ◌+◌, Bool, true, false, Option, none, some, ltb, leb, ◌==◌, if◌then◌else◌, not, ◌&&◌,
  ◌||◌, Bytes, length, take, memcpy, replicate, update, inl, inr,
}
use pst_boitier_pki.Cryptoki.{
  CkRv, ckr_ok, ckr_arguments_bad, ckr_cryptoki_not_initialized, ckr_slot_id_invalid,
  ckr_pin_len_range, ckr_user_not_logged_in, ckr_user_already_logged_in, ckr_user_type_invalid,
  ckr_session_read_only, cku_so, cku_user, ckf_serial_session, ckf_rw_session, is_ok,
}
use pst_boitier_pki.Hsm.State.{
  HsmContext, HsmSlot, HsmSession, HsmSessionState, Token, invalid, ro_public, rw_public, ro_user,
  rw_user, rw_so, hsm_pin_retry_count,
}
use pst_boitier_pki.Hsm.Cmd.{
  Cmd, pure, ◌>>=◌, ◌>>◌, get, put, crash, read_slot, write_slot, lock_slot, unlock_slot,
  SessionRef, read_session, write_session, lock_session, unlock_session,
}
use pst_boitier_pki.Pin.{pin_len_bad, hsm_set_pin, hsm_verify_pin}
use pst_boitier_pki.Storage.{hsm_storage_save_token_info}
use pst_boitier_pki.Session.{with_session, hsm_get_session, destroy_sessions, leave_slot}

-- `HSM_UNLOCK(session->lock); return rv;`
abbrev pub leave_session : {A : Type 0} → SessionRef → A → Cmd A
leave_session r a = do unlock_session r; pure a

-- `HSM_UNLOCK(slot->lock); HSM_UNLOCK(session->lock); return rv;`
abbrev pub leave_both : {A : Type 0} → ℕ → SessionRef → A → Cmd A
leave_both i r a = do unlock_slot i; unlock_session r; pure a

-- A function of utils.c on the token of slot `i`.
unfoldable pub on_token : ℕ → (Token → CkRv × Token) → Cmd CkRv
on_token i f = do
  s ← read_slot i
  write_slot i (record s { token = (f s.token).1 })
  pure (f s.token).0

-- `hsm_storage_save_token_info(slot)`, whose return value no caller looks at.
unfoldable pub save_token : ℕ → Cmd (Unit {0})
save_token i = do
  s ← read_slot i
  g ← get
  put (record g { disk = (hsm_storage_save_token_info s.token g.disk).1 })

-- What `C_GetSessionInfo` writes to `*pInfo`.
pub record CkSessionInfo : Type 0 where
  pub slot_id : ℕ
  pub state : ℕ
  pub flags : ℕ
  pub device_error : ℕ

-- The `CKS_` number of a state.
unfoldable pub cks_number : HsmSessionState → ℕ
cks_number ro_public = 0
cks_number ro_user = 1
cks_number rw_public = 2
cks_number rw_user = 3
cks_number rw_so = 4
cks_number invalid = 2

unfoldable pub session_info : HsmSession → CkSessionInfo
session_info x = record {
  slot_id = x.slot_id;
  state = cks_number x.state;
  flags = if x.is_read_write then ckf_serial_session + ckf_rw_session else ckf_serial_session;
  device_error = 0;
}

unfoldable pub c_get_session_info : (p_info : Bool) → ℕ → Cmd (CkRv × Option CkSessionInfo)
c_get_session_info p_info handle = if not p_info then pure (ckr_arguments_bad, none) else do
  found ← hsm_get_session handle
  elim found [
    | inl rv ↦ pure (rv, none)
    | inr r ↦ do lock_session r; x ← read_session r; leave_session r (ckr_ok, some (session_info x))
  ]

-- The state of a session after `C_Login` and after `C_Logout`.
unfoldable pub logged_in : (user_type now : ℕ) → HsmSession → HsmSession
logged_in user_type now x =
    if user_type == cku_so
    then record x { so_logged_in = true; state = rw_so; last_activity = now }
    else record x {
      user_logged_in = true;
      state = if x.is_read_write then rw_user else ro_user;
      last_activity = now;
    }

unfoldable pub logged_out : HsmSession → HsmSession
logged_out x = record x {
  user_logged_in = false;
  so_logged_in = false;
  state = if x.is_read_write then rw_public else ro_public;
}

unfoldable pub c_logout : ℕ → Cmd CkRv
c_logout handle = with_session handle λ r. do
  lock_session r
  x ← read_session r
  if not x.user_logged_in && not x.so_logged_in
      then leave_session r ckr_user_not_logged_in
      else do write_session r (logged_out x); leave_session r ckr_ok

-- What `C_InitPIN` sets beside the PIN.
unfoldable pub user_pin_ready : Token → Token
user_pin_ready t = record t {
  user_pin_initialized = true;
  user_pin_locked = false;
  user_pin_retry_count = hsm_pin_retry_count;
}

-- `session->user_logged_in ? CKU_USER : CKU_SO`
unfoldable pub session_user : HsmSession → ℕ
session_user x = if x.user_logged_in then cku_user else cku_so

unfoldable pub retries_reset : ℕ → Token → Token
retries_reset user_type t =
    if user_type == cku_user
    then record t { user_pin_retry_count = hsm_pin_retry_count }
    else record t { so_pin_retry_count = hsm_pin_retry_count }

-- The label that `C_InitToken` stores: as many bytes of `pLabel` as the PIN is long, 32 at most.
abbrev pub label_len : Bytes → ℕ
label_len pin = if ltb (length pin) 32 then length pin else 32

-- What `C_InitToken` sets beside the PIN.
unfoldable pub token_ready : (pin label : Bytes) → Token → Token
token_ready pin label t = record t {
  token_label = memcpy (replicate 32 b' ') (take (label_len pin) label);
  token_initialized = true;
  so_pin_initialized = true;
  user_pin_initialized = false;
  user_pin_locked = false;
  so_pin_locked = false;
  user_pin_retry_count = hsm_pin_retry_count;
  so_pin_retry_count = hsm_pin_retry_count;
}

module _ (sha256 : Bytes → Bytes) where
  unfoldable pub c_login : (user_type : ℕ) (pin : Option Bytes) (now handle : ℕ) → Cmd CkRv
  c_login user_type none now handle = pure ckr_arguments_bad
  c_login user_type (some pin) now handle =
      if not (user_type == cku_so) && not (user_type == cku_user)
      then pure ckr_user_type_invalid
      else with_session handle λ r. do
        lock_session r
        x ← read_session r
        if x.user_logged_in || x.so_logged_in
            then leave_session r ckr_user_already_logged_in
            else if (user_type == cku_so) && not x.is_read_write
            then leave_session r ckr_session_read_only
            else do
              lock_slot x.slot_id
              rv ← on_token x.slot_id (hsm_verify_pin sha256 user_type pin)
              if not (is_ok rv)
                  then leave_both x.slot_id r rv
                  else do write_session r (logged_in user_type now x); leave_both x.slot_id r ckr_ok

  -- The end of `C_InitPIN` and of `C_SetPIN`, with both locks held: set the PIN, and if that went
  -- well update the counters and save the token; then unlock.
  unfoldable pub store_pin :
      (user_type : ℕ) (pin : Bytes) (ready : Token → Token) (slot_id : ℕ) → SessionRef → Cmd CkRv
  store_pin user_type pin ready slot_id r = do
    rv ← on_token slot_id (hsm_set_pin sha256 user_type pin)
    if not (is_ok rv) then leave_both slot_id r rv else do
      on_token slot_id (λ t. (ckr_ok, ready t))
      save_token slot_id
      leave_both slot_id r rv

  unfoldable pub c_init_pin : (pin : Option Bytes) (handle : ℕ) → Cmd CkRv
  c_init_pin none handle = pure ckr_arguments_bad
  c_init_pin (some pin) handle =
      if pin_len_bad pin
      then pure ckr_pin_len_range
      else with_session handle λ r. do
        lock_session r
        x ← read_session r
        if not x.so_logged_in
            then leave_session r ckr_user_not_logged_in
            else do lock_slot x.slot_id; store_pin cku_user pin user_pin_ready x.slot_id r

  unfoldable pub c_set_pin : (old new : Option Bytes) (handle : ℕ) → Cmd CkRv
  c_set_pin none new handle = pure ckr_arguments_bad
  c_set_pin (some old) none handle = pure ckr_arguments_bad
  c_set_pin (some old) (some new) handle =
      if pin_len_bad new
      then pure ckr_pin_len_range
      else with_session handle λ r. do
        lock_session r
        x ← read_session r
        if not x.user_logged_in && not x.so_logged_in
            then leave_session r ckr_user_not_logged_in
            else do
              lock_slot x.slot_id
              rv ← on_token x.slot_id (hsm_verify_pin sha256 (session_user x) old)
              if not (is_ok rv)
                  then leave_both x.slot_id r rv
                  else store_pin (session_user x) new (retries_reset (session_user x)) x.slot_id r

  -- The end of `C_InitToken`, with the lock of the slot held. The copy of the label reads past the
  -- end of a label that is shorter.
  unfoldable pub make_token : (slot_id : ℕ) (pin label : Bytes) → Cmd CkRv
  make_token slot_id pin label = do
    rv ← on_token slot_id (hsm_set_pin sha256 cku_so pin)
    if not (is_ok rv)
        then leave_slot slot_id rv
        else if ltb (length label) (label_len pin)
        then crash
        else do
          on_token slot_id (λ t. (ckr_ok, token_ready pin label t))
          s ← read_slot slot_id
          write_slot slot_id (record s { token_present = true })
          save_token slot_id
          leave_slot slot_id ckr_ok

  unfoldable pub c_init_token : (slot_id : ℕ) (pin label : Option Bytes) → Cmd CkRv
  c_init_token slot_id none label = pure ckr_arguments_bad
  c_init_token slot_id (some pin) none = pure ckr_arguments_bad
  c_init_token slot_id (some pin) (some label) =
      if pin_len_bad pin then pure ckr_pin_len_range else do
        g ← get
        if not g.initialized
            then pure ckr_cryptoki_not_initialized
            else if leb g.slot_count slot_id
            then pure ckr_slot_id_invalid
            else do lock_slot slot_id; destroy_sessions slot_id; make_token slot_id pin label
