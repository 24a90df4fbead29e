-- ===== src/Session.antt =====
-- hsm/src/pkcs11/session.c: the session table of a slot and the calls that open, close and query
-- sessions. A pointer that the code only tests for NULL is a Boolean, true where it is not NULL; an
-- output comes back beside the return value. The clock and `calloc` are arguments.
pub mod Table
pub mod Destroy
pub mod Close
pub mod CloseAll
pub mod Create
use pst_boitier_pki.Common.{
  ℕ, suc, zero, ◌+◌, ◌-◌, ◌/◌, ◌%◌, ◌^◌, Bool, true, false, Option, none, some, ltb, leb, ◌==◌,
  if◌then◌else◌, not, is_some, is_none, find_from, find_index, update, ◌⊎◌, inl, inr, ◌&&◌, ◌||◌,
}
use pst_boitier_pki.Cryptoki.{
  CkRv, ckr_ok, ckr_arguments_bad, ckr_cryptoki_not_initialized, ckr_slot_id_invalid,
  ckr_session_count, ckr_host_memory, ckr_session_handle_invalid,
  ckr_session_parallel_not_supported, ckf_rw_session, ckf_serial_session,
}
use pst_boitier_pki.Hsm.State.{
  HsmContext, HsmSlot, HsmSession, HsmSessionState, HsmOperation, ro_public, rw_public, op_none,
  hsm_max_sessions,
}
use pst_boitier_pki.Hsm.Cmd.{
  Cmd, pure, ◌>>=◌, ◌>>◌, get, put, crash, read_slot, write_slot, lock_slot, unlock_slot,
  SessionRef, read_session, write_session,
}

-- `flags & bit`, for a flag of one bit.
abbrev pub has_flag : ℕ → ℕ → Bool
has_flag flags bit = (flags / bit) % 2 == 1

-- `slot->sessions[i] && slot->sessions[i]->handle == hSession`
abbrev pub is_session : ℕ → HsmSlot → ℕ → Bool
is_session handle s i = elim (s.sessions i) [ none ↦ false | some x ↦ x.handle == handle ]

-- The inner loop of the lookups.
abbrev pub find_in_slot : ℕ → HsmSlot → Option ℕ
find_in_slot handle s = find_index (is_session handle s) hsm_max_sessions

-- The loops of `hsm_get_session`, from slot `s`, with `n` slots left.
unfoldable pub get_session_loop : ℕ → ℕ → ℕ → Cmd (Option SessionRef)
get_session_loop handle zero s = pure none
get_session_loop handle (suc n) s =
    let rest = get_session_loop handle n (suc s) in
    do
      slot ← read_slot s
      elim (find_in_slot handle slot) [
        | none ↦ rest
        | some i ↦ pure (some (record { slot = s; index = i }))
      ]

-- A return value other than `CKR_OK`, or a pointer to the session.
unfoldable pub hsm_get_session : ℕ → Cmd (CkRv ⊎ SessionRef)
unfolding get_session_loop
hsm_get_session handle = do
  g ← get
  if not g.initialized then pure (inl ckr_cryptoki_not_initialized) else do
    found ← get_session_loop handle g.slot_count 0
    pure (elim found [ none ↦ inl ckr_session_handle_invalid | some r ↦ inr r ])

unfoldable pub hsm_verify_session : ℕ → Cmd CkRv
hsm_verify_session handle = do
  found ← hsm_get_session handle
  pure (elim found [ inl rv ↦ rv | inr r ↦ ckr_ok ])

-- `rv = hsm_get_session(hSession, &session); if (rv != CKR_OK) return rv;` and the rest.
abbrev pub with_session : ℕ → (SessionRef → Cmd CkRv) → Cmd CkRv
with_session handle body = do
  found ← hsm_get_session handle
  elim found [ inl rv ↦ pure rv | inr r ↦ body r ]

-- The record that `hsm_create_session` fills in.
abbrev pub new_session : (handle slot_id flags now : ℕ) → HsmSession
new_session handle slot_id flags now = record {
  handle = handle;
  slot_id = slot_id;
  state = if has_flag flags ckf_rw_session then rw_public else ro_public;
  is_read_write = has_flag flags ckf_rw_session;
  user_logged_in = false;
  so_logged_in = false;
  operation = record { op = op_none; mechanism = 0; key_handle = 0; active = false };
  find_active = false;
  find_results = λ _. 0;
  find_count = 0;
  find_index = 0;
  created = now;
  last_activity = now;
  lock = false;
}

-- `session->handle = g_next_session_handle++`, a `CK_ULONG`.
unfoldable pub next_session_handle : Cmd ℕ
next_session_handle g =
    (put (record g { next_session_handle = (g.next_session_handle + 1) % 2 ^ 64 })
        >> pure g.next_session_handle)
      g

-- Unlock, and return the value.
abbrev pub leave_slot : {A : Type 0} → ℕ → A → Cmd A
leave_slot i a = do unlock_slot i; pure a

-- The return value and `*phSession`.
unfoldable pub hsm_create_session :
    (alloc_ok : Bool) (now slot_id flags : ℕ) → Cmd (CkRv × Option ℕ)
unfolding next_session_handle
hsm_create_session alloc_ok now slot_id flags = do
  lock_slot slot_id
  slot ← read_slot slot_id
  if leb hsm_max_sessions slot.session_count
      then leave_slot slot_id (ckr_session_count, none)
      else elim (find_index (λ i. is_none (slot.sessions i)) hsm_max_sessions) [
        | none ↦ leave_slot slot_id (ckr_session_count, none)
        | some idx ↦ if not alloc_ok then leave_slot slot_id (ckr_host_memory, none) else do
          handle ← next_session_handle
          write_slot slot_id (record slot {
            sessions = update slot.sessions idx (some (new_session handle slot_id flags now));
            session_count = (slot.session_count + 1) % 2 ^ 32;
          })
          leave_slot slot_id (ckr_ok, some handle)
      ]

-- The search of `hsm_destroy_session`: it takes the lock of each slot, and keeps that of the slot
-- where the session is.
unfoldable pub destroy_session_loop : ℕ → ℕ → ℕ → Cmd (Option SessionRef)
destroy_session_loop handle zero s = pure none
destroy_session_loop handle (suc n) s =
    let rest = destroy_session_loop handle n (suc s) in
    do
      lock_slot s
      slot ← read_slot s
      elim (find_in_slot handle slot) [
        | none ↦ do unlock_slot s; rest
        | some i ↦ pure (some (record { slot = s; index = i }))
      ]

unfoldable pub hsm_destroy_session : ℕ → Cmd CkRv
unfolding destroy_session_loop
hsm_destroy_session handle = do
  g ← get
  if not g.initialized then pure ckr_cryptoki_not_initialized else do
    found ← destroy_session_loop handle g.slot_count 0
    elim found [
      | none ↦ pure ckr_session_handle_invalid
      | some r ↦ do
        slot ← read_slot r.slot
        write_slot r.slot (record slot {
          sessions = update slot.sessions r.index none;
          session_count = (slot.session_count + (2 ^ 32 - 1)) % 2 ^ 32;
        })
        leave_slot r.slot ckr_ok
    ]

unfoldable pub c_open_session :
    (alloc_ok : Bool) (now slot_id flags : ℕ) (ph_session : Bool) → Cmd (CkRv × Option ℕ)
c_open_session alloc_ok now slot_id flags ph_session = do
  g ← get
  if not ph_session
      then pure (ckr_arguments_bad, none)
      else if not g.initialized
      then pure (ckr_cryptoki_not_initialized, none)
      else if leb g.slot_count slot_id
      then pure (ckr_slot_id_invalid, none)
      else if not (has_flag flags ckf_serial_session)
      then pure (ckr_session_parallel_not_supported, none)
      else hsm_create_session alloc_ok now slot_id flags

unfoldable pub c_close_session : ℕ → Cmd CkRv
c_close_session handle = hsm_destroy_session handle

-- `for (i = ...; i < HSM_MAX_SESSIONS; i++) if (slot->sessions[i]) hsm_destroy_session(...)`, with
-- `n` rounds left. The value that `hsm_destroy_session` returns is not looked at.
unfoldable pub destroy_sessions_loop : ℕ → ℕ → ℕ → Cmd (Unit {0})
destroy_sessions_loop slot_id zero i = pure tt
destroy_sessions_loop slot_id (suc n) i =
    let rest = destroy_sessions_loop slot_id n (suc i) in
    do
      slot ← read_slot slot_id
      elim (slot.sessions i) [ none ↦ rest | some x ↦ do hsm_destroy_session x.handle; rest ]

abbrev pub destroy_sessions : ℕ → Cmd (Unit {0})
destroy_sessions slot_id = destroy_sessions_loop slot_id hsm_max_sessions 0

unfoldable pub c_close_all_sessions : ℕ → Cmd CkRv
c_close_all_sessions slot_id = do
  g ← get
  if not g.initialized
      then pure ckr_cryptoki_not_initialized
      else if leb g.slot_count slot_id
      then pure ckr_slot_id_invalid
      else do lock_slot slot_id; destroy_sessions slot_id; leave_slot slot_id ckr_ok
