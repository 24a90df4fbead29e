-- ===== src/Hsm/Focus.antt =====
-- States seen through one session of slot 0: how the primitives act while a call holds that session.
use pst_boitier_pki.Common.{
  ℕ, ◌<◌, ◌≡◌, refl, true, false, ap, ◌∙◌, update, update-eq, update-update, update-same, arith,
  some, Option,
}
use pst_boitier_pki.Hsm.State.{HsmContext, HsmSlot, HsmSession}
use pst_boitier_pki.Hsm.Cmd.{
  done, read_slot, put_slot, write_slot, lock_slot, unlock_slot, read_session, write_session,
  lock_session, unlock_session, SessionRef,
}
use pst_boitier_pki.Hsm.Slots.{read_slot-put, write_slot-put, unlock_slot-put}

-- The pointer to entry `i` of the table of slot 0.
abbrev pub entry : ℕ → SessionRef
entry i = record { slot = 0; index = i }

-- `a` with the table of `g`'s slot 0, and `x` in its entry `i`.
abbrev pub holding : HsmContext → ℕ → HsmSession → HsmSlot → HsmSlot
holding g i x a = record a { sessions = update (g.slots 0).sessions i (some x) }

-- `g` with that slot.
abbrev pub focus : HsmContext → ℕ → HsmSession → HsmSlot → HsmContext
focus g i x a = put_slot 0 (holding g i x a) g

pub focus_self :
    (g : HsmContext) (i : ℕ) (x : HsmSession)
    → (g.slots 0).sessions i ≡ some x
    → focus g i x (g.slots 0) ≡ g
focus_self g i x e =
    let table = update-same (g.slots 0).sessions i (some x) e in
    ap (λ (f : ℕ → Option HsmSession). put_slot 0 (record (g.slots 0) { sessions = f }) g) table
    ∙ ap (λ (f : ℕ → HsmSlot). record g { slots = f }) (update-same g.slots 0 (g.slots 0) refl)

module _ (g : HsmContext) (i : ℕ) (has : 0 < g.slots_len) where
  module _ (x : HsmSession) (a : HsmSlot) where
    pub read_slot-focus : read_slot 0 (focus g i x a) ≡ done (holding g i x a) (focus g i x a)
    read_slot-focus = read_slot-put 0 (holding g i x a) g has

    pub write_slot-focus :
        (b : HsmSlot) → write_slot 0 (holding g i x b) (focus g i x a) ≡ done tt (focus g i x b)
    write_slot-focus b = write_slot-put 0 (holding g i x b) (holding g i x a) g

    pub lock_slot-focus :
        a.lock ≡ false
        → lock_slot 0 (focus g i x a) ≡ done tt (focus g i x (record a { lock = true }))
    unfolding lock_slot
    lock_slot-focus free = ground (
      arith,
      read_slot-focus,
      free,
      write_slot-put 0 (record (holding g i x a) { lock = true }) (holding g i x a) g,
    )

    pub unlock_slot-focus :
        unlock_slot 0 (focus g i x a) ≡ done tt (focus g i x (record a { lock = false }))
    unlock_slot-focus = unlock_slot-put 0 (holding g i x a) g has

    pub read_session-focus : read_session (entry i) (focus g i x a) ≡ done x (focus g i x a)
    unfolding read_session
    read_session-focus = ground (arith, read_slot-focus, update-eq (g.slots 0).sessions i (some x))

    pub write_session-focus :
        (y : HsmSession) → write_session (entry i) y (focus g i x a) ≡ done tt (focus g i y a)
    unfolding write_session
    write_session-focus y = ground (
      arith,
      read_slot-focus,
      write_slot-put 0
          (record a { sessions = update (update (g.slots 0).sessions i (some x)) i (some y) })
          (holding g i x a) g,
      ap (λ (f : ℕ → Option HsmSession). put_slot 0 (record a { sessions = f }) g)
          (update-update (g.slots 0).sessions i (some x) (some y)),
    )

  pub lock_session-focus :
      (x : HsmSession) (a : HsmSlot)
      → x.lock ≡ false
      → lock_session (entry i) (focus g i x a) ≡ done tt (focus g i (record x { lock = true }) a)
  unfolding lock_session
  lock_session-focus x a free =
      ground
        (arith, read_session-focus x a, free, write_session-focus x a (record x { lock = true }))

  pub unlock_session-focus :
      (x : HsmSession) (a : HsmSlot)
      → unlock_session (entry i) (focus g i x a) ≡ done tt (focus g i (record x { lock = false }) a)
  unfolding unlock_session
  unlock_session-focus x a =
      ground (arith, read_session-focus x a, write_session-focus x a (record x { lock = false }))
