-- ===== src/Library.antt =====
-- The start and the end of the library: hsm_init_context, hsm_cleanup_context, hsm_init_slot and
-- hsm_cleanup_slot of hsm/src/utils/utils.c, C_Initialize and C_Finalize of
-- hsm/src/pkcs11/pkcs11_impl.c. Locking or
-- unlocking a mutex that was destroyed is undefined behaviour, a fault. Whether `calloc`
-- succeeds is an argument.
pub mod Start
pub mod Stop
use pst_boitier_pki.Common.{
  ℕ, zero, suc, Bool, true, false, Option, none, some, leb, if◌then◌else◌, not, is_some, update,
  replicate,
}
use pst_boitier_pki.Cryptoki.{
  CkRv, ckr_ok, ckr_arguments_bad, ckr_cryptoki_not_initialized, ckr_cryptoki_already_initialized,
  ckr_slot_id_invalid, ckr_host_memory, is_ok,
}
use pst_boitier_pki.Hsm.State.{
  mutex_destroyed, mutex_free, mutex_held, HsmContext, HsmSlot, HsmObject, Token, Disk,
  hsm_max_sessions, hsm_max_objects, hsm_session_timeout, hsm_pin_retry_count,
}
use pst_boitier_pki.Hsm.Cmd.{
  Cmd, pure, ◌>>=◌, ◌>>◌, get, put, deadlock, fault, done, read_slot, write_slot,
}
use pst_boitier_pki.Storage.{hsm_storage_init, hsm_storage_load_token_info}
use pst_boitier_pki.Session.{destroy_sessions}
use pst_boitier_pki.Login.{on_token}

-- `HSM_LOCK(g_hsm_context.global_lock)`
abbrev pub lock_global : Cmd (Unit {0})
lock_global g = elim g.global_lock [
  | mutex_free ↦ done tt (record g { global_lock = mutex_held })
  | mutex_held ↦ deadlock
  | mutex_destroyed ↦ fault
]

-- `HSM_UNLOCK(g_hsm_context.global_lock); return rv;`
abbrev pub leave_global : CkRv → Cmd CkRv
leave_global rv g = elim g.global_lock [
  | mutex_free ↦ done rv (record g { global_lock = mutex_free })
  | mutex_held ↦ done rv (record g { global_lock = mutex_free })
  | mutex_destroyed ↦ fault
]

unfoldable pub hsm_init_context : Cmd CkRv
hsm_init_context = do
  g ← get
  put (record g {
    initialized = false;
    global_lock = mutex_free;
    slots_len = 0;
    slot_count = 0;
    max_sessions = hsm_max_sessions;
    max_objects = hsm_max_objects;
    enforce_timeouts = true;
    session_timeout = hsm_session_timeout;
  })
  pure ckr_ok

unfoldable pub hsm_cleanup_context : Cmd CkRv
hsm_cleanup_context = do g ← get; put (record g { global_lock = mutex_destroyed }); pure ckr_ok

-- The token that `memset` and the assignments of `hsm_init_slot` make.
abbrev pub blank_token : Token
blank_token = record {
  token_label = replicate 32 0;
  token_initialized = false;
  user_pin_initialized = false;
  so_pin_initialized = false;
  user_pin_hash = replicate 32 0;
  so_pin_hash = replicate 32 0;
  user_pin_retry_count = hsm_pin_retry_count;
  so_pin_retry_count = hsm_pin_retry_count;
  user_pin_locked = false;
  so_pin_locked = false;
}

abbrev pub blank_slot : ℕ → HsmSlot
blank_slot slot_id = record {
  slot_id = slot_id;
  token_present = true;
  token = blank_token;
  sessions = λ _. none;
  session_count = 0;
  objects = λ _. none;
  object_count = 0;
  lock = false;
}

unfoldable pub hsm_init_slot : ℕ → Cmd CkRv
hsm_init_slot slot_id = do
  g ← get
  if leb g.slot_count slot_id then pure ckr_slot_id_invalid else do
    read_slot slot_id
    write_slot slot_id (blank_slot slot_id)
    on_token slot_id (hsm_storage_load_token_info g.disk)
    pure ckr_ok

-- The loop that frees the objects, from entry `i`, with `n` rounds left.
unfoldable pub free_objects : ℕ → ℕ → (ℕ → Option HsmObject) → ℕ → Option HsmObject
free_objects zero i f = f
free_objects (suc n) i f = free_objects n (suc i) (if is_some (f i) then update f i none else f)

unfoldable pub hsm_cleanup_slot : ℕ → Cmd CkRv
hsm_cleanup_slot slot_id = do
  g ← get
  if leb g.slot_count slot_id then pure ckr_slot_id_invalid else do
    destroy_sessions slot_id
    s ← read_slot slot_id
    write_slot slot_id
        (record s { objects = free_objects hsm_max_objects 0 s.objects; lock = false })
    pure ckr_ok

-- `hsm_storage_init()`
abbrev pub init_storage : Cmd CkRv
init_storage g = let (rv, d) = hsm_storage_init g.disk in done rv (record g { disk = d })

-- `g_hsm_context.slot_count = 1; g_hsm_context.slots = calloc(1, sizeof(hsm_slot_t));`
abbrev pub alloc_slots : (alloc_ok : Bool) → Cmd (Unit {0})
alloc_slots alloc_ok g =
    done tt (record g { slot_count = 1; slots_len = if alloc_ok then 1 else 0 })

-- `free(g_hsm_context.slots); g_hsm_context.slots = NULL;`
abbrev pub free_slots : Cmd (Unit {0})
free_slots g = done tt (record g { slots_len = 0 })

unfoldable pub c_initialize : (alloc_ok : Bool) → Cmd CkRv
unfolding hsm_init_context hsm_cleanup_context
c_initialize alloc_ok = do
  lock_global
  g ← get
  if g.initialized then leave_global ckr_cryptoki_already_initialized else do
    rv ← hsm_init_context
    if not (is_ok rv) then leave_global rv else do
      stored ← init_storage
      if not (is_ok stored) then (do hsm_cleanup_context; leave_global stored) else do
        alloc_slots alloc_ok
        if not alloc_ok then (do hsm_cleanup_context; leave_global ckr_host_memory) else do
          made ← hsm_init_slot 0
          if not (is_ok made)
              then (do free_slots; hsm_cleanup_context; leave_global made)
              else do h ← get; put (record h { initialized = true }); leave_global ckr_ok

-- `for (i = ...; i < g_hsm_context.slot_count; i++) hsm_cleanup_slot(i);`, with `n` rounds left.
unfoldable pub cleanup_slots : ℕ → ℕ → Cmd (Unit {0})
cleanup_slots zero i = pure tt
cleanup_slots (suc n) i = let rest = cleanup_slots n (suc i) in do hsm_cleanup_slot i; rest

unfoldable pub c_finalize : (p_reserved : Bool) → Cmd CkRv
unfolding cleanup_slots
c_finalize p_reserved = if p_reserved then pure ckr_arguments_bad else do
  lock_global
  g ← get
  if not g.initialized then leave_global ckr_cryptoki_not_initialized else do
    cleanup_slots g.slot_count 0
    free_slots
    h ← get
    put (record h { slot_count = 0; initialized = false })
    leave_global ckr_ok
