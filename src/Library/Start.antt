-- ===== src/Library/Start.antt =====
-- C_Initialize of hsm/src/pkcs11/pkcs11_impl.c.
use pst_boitier_pki.Common.{
  ◌≡◌, ◌≢◌, ◌<◌, refl, Bool, true, false, none, some, if◌then◌else◌, not, arith, update-eq,
  count_used, ap, sym,
}
use pst_boitier_pki.Cryptoki.{CkRv, ckr_ok, ckr_cryptoki_already_initialized, is_ok}
use pst_boitier_pki.Hsm.State.{
  Mutex, mutex_free, HsmContext, HsmSlot, Disk, hsm_max_sessions, hsm_max_objects,
  hsm_session_timeout,
}
use pst_boitier_pki.Hsm.Cmd.{done, put_slot, Run, fault}
use pst_boitier_pki.Hsm.Slots.{read_slot-done}
use pst_boitier_pki.Hsm.Invariant.{IsWell}
use pst_boitier_pki.Storage.{hsm_storage_init, hsm_storage_load_token_info}
use pst_boitier_pki.Login.InitToken.{on_token-put}
use pst_boitier_pki.Library.{blank_token, blank_slot, hsm_init_slot, c_initialize}

-- The slot that `hsm_init_slot` makes.
abbrev pub loaded_slot : Disk → HsmSlot
loaded_slot d = record (blank_slot 0) { token = (hsm_storage_load_token_info d blank_token).1 }

init_slot-done :
    (g : HsmContext)
    → g.slot_count ≡ 1
    → g.slots_len ≡ 1
    → hsm_init_slot 0 g ≡ done ckr_ok (put_slot 0 (loaded_slot g.disk) g)
unfolding hsm_init_slot
init_slot-done g one len =
    let has : 0 < g.slots_len = omega arith in
    ground (
      arith,
      one,
      read_slot-done 0 g has,
      on_token-put (hsm_storage_load_token_info g.disk) (blank_slot 0) g has,
    )

-- The state after `hsm_init_context`, with the storage looked at.
abbrev pub emptied : HsmContext → HsmContext
emptied g = record g {
  initialized = false;
  global_lock = mutex_free;
  slots_len = 0;
  slot_count = 0;
  max_sessions = hsm_max_sessions;
  max_objects = hsm_max_objects;
  enforce_timeouts = true;
  session_timeout = hsm_session_timeout;
  disk = (hsm_storage_init g.disk).1;
}

-- The state after a start that succeeds.
abbrev pub started : HsmContext → HsmContext
started g =
    put_slot 0 (loaded_slot (hsm_storage_init g.disk).1)
      (record (emptied g) { initialized = true; slots_len = 1; slot_count = 1 })

-- The specification of `C_Initialize`, with the storage's answer.
abbrev pub initialize_spec : (alloc_ok : Bool) → CkRv → HsmContext → Run CkRv
initialize_spec alloc_ok stored g =
    if g.initialized
    then done ckr_cryptoki_already_initialized g
    else if not (is_ok stored)
    then fault
    else if not alloc_ok
    then fault
    else done ckr_ok (started g)

-- C_Initialize, called with the global lock free: where the library is running it returns
-- CKR_CRYPTOKI_ALREADY_INITIALIZED and leaves the state as it was. Otherwise, where the directories or
-- the slot cannot be made, it unlocks the global lock after it has destroyed it, so what it does is
-- undefined; and else it returns CKR_OK, with one fresh slot, whose token is what the token file
-- holds, and the global lock free.
pub initialize-result :
    (alloc_ok : Bool) (g : HsmContext)
    → g.global_lock ≡ mutex_free
    → c_initialize alloc_ok g ≡ initialize_spec alloc_ok (hsm_storage_init g.disk).0 g
unfolding c_initialize
initialize-result alloc_ok g free =
    let d = (hsm_storage_init g.disk).1 in
    let h = record (emptied g) { slots_len = 1; slot_count = 1 } in
    let same = ap (λ (b : Mutex). record g { global_lock = b }) (sym free) in
    ground (arith, free, same, init_slot-done h refl refl)

none-some : {A : Type 0} (x : A) → none ≢ some x
none-some x e = ground arith

-- With the library not running, the global lock free, directories that exist or can be made, and
-- memory to allocate, C_Initialize returns CKR_OK and leaves a well-formed state.
pub initialize-IsWell :
    (g : HsmContext)
    → g.global_lock ≡ mutex_free
    → g.initialized ≡ false
    → (hsm_storage_init g.disk).0 ≡ ckr_ok
    → (c_initialize true g ≡ done ckr_ok (started g)) × IsWell (started g)
unfolding count_used
initialize-IsWell g free stopped ok =
    let s = loaded_slot (hsm_storage_init g.disk).1 in
    let at' : (started g).slots 0 ≡ s = update-eq g.slots 0 s in
    (
      ground (arith, stopped, ok, initialize-result true g free),
      record {
        ready = record {
          initialized = refl;
          slot_count = refl;
          slots_len = refl;
          free = ap (λ (t : HsmSlot). t.lock) at';
        };
        sessions = rw at' (record {
          counted = refl;
          below = λ i x e. absurd (none-some x e);
          distinct = λ i j x y e. absurd (none-some x e);
          home = λ i x e. absurd (none-some x e);
          free = λ i x e. absurd (none-some x e);
        });
      },
    )
