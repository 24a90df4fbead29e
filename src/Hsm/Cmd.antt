-- ===== src/Hsm/Cmd.antt =====
-- Commands over the global state. A command ends with a value and a new state, waits for
-- ever (`deadlock`) at a mutex that its thread already holds, as the mutexes are made with default
-- attributes, or in a call of the system, or
-- accesses memory outside an allocation or through NULL, or uses a destroyed mutex (`fault`).
use pst_boitier_pki.Common.{ℕ, true, false, none, some, ltb, if◌then◌else◌, update}
use pst_boitier_pki.Hsm.State.{HsmContext, HsmSlot, HsmSession}

pub data Run (A : Type 0) : Type 0 where
  done : A → HsmContext → Run A
  deadlock : Run A
  fault : Run A

abbrev pub Cmd : Type 0 → Type 0
Cmd A = HsmContext → Run A

abbrev pub pure : {A : Type 0} → A → Cmd A
pure = done

abbrev pub crash : {A : Type 0} → Cmd A
crash g = fault

module _ {A B : Type 0} where
  abbrev pub and_then : Run A → (A → Cmd B) → Run B
  and_then (done a g) k = k a g
  and_then deadlock k = deadlock
  and_then fault k = fault

  infixl 5 ◌>>=◌ ◌>>◌
  abbrev pub ◌>>=◌ : Cmd A → (A → Cmd B) → Cmd B
  m >>= k = λ g. and_then (m g) k

  abbrev pub ◌>>◌ : Cmd A → Cmd B → Cmd B
  m >> n = m >>= λ _. n

abbrev pub get : Cmd HsmContext
get g = done g g

abbrev pub put : HsmContext → Cmd (Unit {0})
put g' g = done tt g'

-- `g_hsm_context.slots[i]`
unfoldable pub read_slot : ℕ → Cmd HsmSlot
read_slot i g = if ltb i g.slots_len then done (g.slots i) g else fault

abbrev pub put_slot : ℕ → HsmSlot → HsmContext → HsmContext
put_slot i s g = record g { slots = update g.slots i s }

abbrev pub write_slot : ℕ → HsmSlot → Cmd (Unit {0})
write_slot i s g = done tt (put_slot i s g)

-- `HSM_LOCK(slot->lock)`
unfoldable pub lock_slot : ℕ → Cmd (Unit {0})
lock_slot i = do
  s ← read_slot i
  if s.lock then (λ _. deadlock) else write_slot i (record s { lock = true })

-- `HSM_UNLOCK(slot->lock)`
unfoldable pub unlock_slot : ℕ → Cmd (Unit {0})
unlock_slot i = do s ← read_slot i; write_slot i (record s { lock = false })

-- Where a session pointer points: its slot, and its place in the slot's table.
pub record SessionRef : Type 0 where
  pub slot : ℕ
  pub index : ℕ

-- `*session`
unfoldable pub read_session : SessionRef → Cmd HsmSession
read_session r = do
  s ← read_slot r.slot
  elim (s.sessions r.index) [ none ↦ crash | some x ↦ pure x ]

unfoldable pub write_session : SessionRef → HsmSession → Cmd (Unit {0})
write_session r x = do
  s ← read_slot r.slot
  write_slot r.slot (record s { sessions = update s.sessions r.index (some x) })

-- `HSM_LOCK(session->lock)`
unfoldable pub lock_session : SessionRef → Cmd (Unit {0})
lock_session r = do
  x ← read_session r
  if x.lock then (λ _. deadlock) else write_session r (record x { lock = true })

-- `HSM_UNLOCK(session->lock)`
unfoldable pub unlock_session : SessionRef → Cmd (Unit {0})
unlock_session r = do x ← read_session r; write_session r (record x { lock = false })

-- The command returns, and its value and final state satisfy `P`.
abbrev pub Ends : {A : Type 0} → (A → HsmContext → Type 0) → Run A → Type 0
Ends P (done a g) = P a g
Ends P deadlock = ⊥
Ends P fault = ⊥
