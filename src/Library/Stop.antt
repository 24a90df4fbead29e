-- ===== src/Library/Stop.antt =====
-- C_Finalize of hsm/src/pkcs11/pkcs11_impl.c, and C_Initialize after it.
use pst_boitier_pki.Common.{
  ℕ, zero, suc, ◌+◌, ◌≡◌, ◌<◌, ◌≤◌, refl, true, false, some, inl, inr, arith, update-eq, ap, ◌∙◌,
  Option-cases, leb, not,
}
use pst_boitier_pki.Cryptoki.{ckr_ok}
use pst_boitier_pki.Hsm.State.{
  mutex_free, mutex_held, HsmContext, HsmSlot, Token, Disk, hsm_max_sessions,
}
use pst_boitier_pki.Hsm.Cmd.{Run, Ends, ◌>>◌}
use pst_boitier_pki.Hsm.Slots.{read_slot-done}
use pst_boitier_pki.Hsm.Ends.{Ends-and_then}
use pst_boitier_pki.Hsm.Invariant.{IsWell}
use pst_boitier_pki.Storage.{hsm_storage_init, hsm_storage_load_token_info, token_bytes}
use pst_boitier_pki.Storage.TokenFile.{IsSized, restored, parse_token-token_bytes}
use pst_boitier_pki.Session.{destroy_sessions_loop}
use pst_boitier_pki.Session.Table.{At, find_in_slot_complete}
use pst_boitier_pki.Session.Destroy.{closed, closed-IsWell, destroy_session-found}
use pst_boitier_pki.Library.{blank_token, hsm_cleanup_slot, cleanup_slots, c_finalize, c_initialize}
use pst_boitier_pki.Library.Start.{loaded_slot, initialize-IsWell}

-- What closing sessions does not touch.
abbrev pub Kept : HsmContext → HsmContext → Type 0
Kept g g' = (g'.initialized ≡ g.initialized) × (g'.global_lock ≡ g.global_lock) × (g'.disk ≡ g.disk)

-- The run ends well formed, with the same global lock and disk.
abbrev pub EndsWell : HsmContext → Run (Unit {0}) → Type 0
EndsWell g = Ends (λ _ g'. IsWell g' × Kept g g')

-- The loop that closes every session, without the lock of the slot.
destroy_sessions_loop-EndsWell :
    (n i : ℕ) (g : HsmContext)
    → IsWell g
    → i + n ≤ hsm_max_sessions
    → EndsWell g (destroy_sessions_loop 0 n i g)
unfolding destroy_sessions_loop
destroy_sessions_loop-EndsWell zero i g w b = (w, (refl, refl, refl))
destroy_sessions_loop-EndsWell (suc n) i g w b =
    let r = w.ready in
    let s = g.slots 0 in
    let has : 0 < g.slots_len = omega arith in
    elim (Option-cases (s.sessions i)) [
      | inl e ↦
          rw (read_slot-done 0 g has, e)
            (destroy_sessions_loop-EndsWell n (suc i) g w (omega arith))
      | inr (x, e) ↦
          let a : At x.handle s i = record {
            inside = omega arith;
            session = x;
            present = e;
            handle_eq = refl;
          } in
          let found = find_in_slot_complete x.handle g.next_session_handle s i w.sessions a in
          rw (read_slot-done 0 g has, e, destroy_session-found x.handle g r i found)
            (destroy_sessions_loop-EndsWell n (suc i) (closed i g) (closed-IsWell x.handle i g w a)
              (omega arith))
    ]

cleanup_slot-Kept : (g : HsmContext) → IsWell g → Ends (λ rv g'. Kept g g') (hsm_cleanup_slot 0 g)
unfolding hsm_cleanup_slot
cleanup_slot-Kept g w =
    let one : leb g.slot_count 0 ≡ false = ground (arith, w.ready.slot_count) in
    rw one (
      Ends-and_then _ (destroy_sessions_loop 0 hsm_max_sessions 0 g) _
        (destroy_sessions_loop-EndsWell hsm_max_sessions 0 g w (omega arith))
        (λ u h p.
          let has : 0 < h.slots_len = omega (arith, p.0.ready.slots_len) in
          rw (read_slot-done 0 h has) p.1))

cleanup_slots-Kept : (g : HsmContext) → IsWell g → Ends (λ u g'. Kept g g') (cleanup_slots 1 0 g)
unfolding cleanup_slots
cleanup_slots-Kept g w =
    Ends-and_then _ (hsm_cleanup_slot 0 g) _ (cleanup_slot-Kept g w) (λ rv h p. p)

-- The library is not running: no slots, the global lock free.
pub record IsStopped (g : HsmContext) : Type 0 where
  pub initialized : g.initialized ≡ false
  pub free : g.global_lock ≡ mutex_free
  pub slots_len : g.slots_len ≡ 0
  pub slot_count : g.slot_count ≡ 0

-- From a well-formed state with the global lock free, C_Finalize returns CKR_OK however many
-- sessions are open; the library is then stopped, its slots freed, and the files are as they were.
pub finalize-IsStopped :
    (g : HsmContext)
    → IsWell g
    → g.global_lock ≡ mutex_free
    → Ends (λ rv g'. (rv ≡ ckr_ok) × IsStopped g' × (g'.disk ≡ g.disk)) (c_finalize false g)
unfolding c_finalize
finalize-IsStopped g w free =
    let h = record g { global_lock = mutex_held } in
    let w' : IsWell h = record {
      ready = record {
        initialized = w.ready.initialized;
        slot_count = w.ready.slot_count;
        slots_len = w.ready.slots_len;
        free = w.ready.free;
      };
      sessions = w.sessions;
    } in
    let running : not g.initialized ≡ false = ap not w.ready.initialized in
    let one : cleanup_slots g.slot_count 0 h ≡ cleanup_slots 1 0 h =
      ap (λ (n : ℕ). cleanup_slots n 0 h) w.ready.slot_count in
    rw (free, running, one)
      (Ends-and_then _ (cleanup_slots 1 0 h) _ (cleanup_slots-Kept h w') (λ u k p. rw p.1 (
        refl,
        record { initialized = refl; free = refl; slots_len = refl; slot_count = refl },
        p.2,
      )))

storage_init-made :
    (d : Disk)
    → d.storage_dir ≡ true
    → d.key_dir ≡ true
    → ((hsm_storage_init d).0 ≡ ckr_ok) × ((hsm_storage_init d).1.token_file ≡ d.token_file)
unfolding hsm_storage_init
storage_init-made d a b = ground (arith, a, b)

load-saved :
    (d : Disk) (t t' : Token)
    → d.token_file ≡ some (token_bytes t)
    → IsSized t
    → IsSized t'
    → (hsm_storage_load_token_info d t').1 ≡ restored t t'
unfolding hsm_storage_load_token_info
load-saved d t t' file s s' = rw file (parse_token-token_bytes t t' s s')

-- From a well-formed state with the global lock free, where the token file holds a token `t`
-- whose arrays have the sizes of their declarations and its directories exist: C_Finalize and
-- then C_Initialize return CKR_OK, in a well-formed state whose token has the label, the flags
-- and the hashes of `t`, with no PIN locked and three attempts for each, whatever `t` and the
-- running token had. A restart lifts the lockout of a PIN.
pub restart-unlocks :
    (t : Token) (g : HsmContext)
    → IsWell g
    → g.global_lock ≡ mutex_free
    → g.disk.token_file ≡ some (token_bytes t)
    → IsSized t
    → g.disk.storage_dir ≡ true
    → g.disk.key_dir ≡ true
    → Ends
        (λ rv h. (rv ≡ ckr_ok) × IsWell h × ((h.slots 0).token ≡ restored t blank_token))
        ((c_finalize false >> c_initialize true) g)
restart-unlocks t g w free file sized dir keys =
    Ends-and_then _ (c_finalize false g) (λ _. c_initialize true) (finalize-IsStopped g w free)
      (λ rv h p.
        let stop = p.1 in
        let kept = p.2 in
        let (ok, same) =
          storage_init-made h.disk (ap (λ (d : Disk). d.storage_dir) kept ∙ dir)
            (ap (λ (d : Disk). d.key_dir) kept ∙ keys) in
        let (ran, well) = initialize-IsWell h stop.free stop.initialized ok in
        let d' = (hsm_storage_init h.disk).1 in
        let bytes = same ∙ ap (λ (d : Disk). d.token_file) kept ∙ file in
        let blank_sized : IsSized blank_token = record {
          label = refl;
          user_hash = refl;
          so_hash = refl;
        } in
        rw ran (
          refl,
          well,
          ap (λ (s : HsmSlot). s.token) (update-eq h.slots 0 (loaded_slot d'))
              ∙ load-saved d' t blank_token bytes sized blank_sized,
        ))
