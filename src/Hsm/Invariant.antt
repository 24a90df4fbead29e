-- ===== src/Hsm/Invariant.antt =====
-- The states between two calls of the initialised library. `C_Initialize` makes one slot.
use pst_boitier_pki.Common.{ℕ, ◌<◌, ◌≡◌, true, false, some, count_used}
use pst_boitier_pki.Hsm.State.{HsmContext, HsmSlot, HsmSession, hsm_max_sessions}

-- Initialised, with one slot, whose lock is free.
pub record IsReady (g : HsmContext) : Type 0 where
  pub initialized : g.initialized ≡ true
  pub slot_count : g.slot_count ≡ 1
  pub slots_len : g.slots_len ≡ 1
  pub free : (g.slots 0).lock ≡ false

-- The session table: the count is right, and the handles are below the counter and distinct. No
-- session's lock is held.
pub record SessionsOk (next : ℕ) (s : HsmSlot) : Type 0 where
  pub counted : s.session_count ≡ count_used hsm_max_sessions s.sessions
  pub below : (i : ℕ) (x : HsmSession) → s.sessions i ≡ some x → x.handle < next
  pub distinct :
      (i j : ℕ) (x y : HsmSession)
      → s.sessions i ≡ some x
      → s.sessions j ≡ some y
      → x.handle ≡ y.handle
      → i ≡ j
  pub home : (i : ℕ) (x : HsmSession) → s.sessions i ≡ some x → x.slot_id ≡ 0
  pub free : (i : ℕ) (x : HsmSession) → s.sessions i ≡ some x → x.lock ≡ false

pub record IsWell (g : HsmContext) : Type 0 where
  pub ready : IsReady g
  pub sessions : SessionsOk g.next_session_handle (g.slots 0)
