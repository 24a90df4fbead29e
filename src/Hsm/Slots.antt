-- ===== src/Hsm/Slots.antt =====
-- How the slot primitives act on a state whose slot was just written.
use pst_boitier_pki.Common.{ℕ, ◌<◌, ◌≡◌, true, false, ap, update-eq, update-update, arith}
use pst_boitier_pki.Hsm.State.{HsmContext, HsmSlot}
use pst_boitier_pki.Hsm.Cmd.{
  done, deadlock, read_slot, put_slot, write_slot, lock_slot, unlock_slot,
}

pub put_slot-put_slot :
    (i : ℕ) (a b : HsmSlot) (g : HsmContext) → put_slot i a (put_slot i b g) ≡ put_slot i a g
put_slot-put_slot i a b g =
    ap (λ (f : ℕ → HsmSlot). record g { slots = f }) (update-update g.slots i b a)

pub read_slot-done : (i : ℕ) (g : HsmContext) → i < g.slots_len → read_slot i g ≡ done (g.slots i) g
unfolding read_slot
read_slot-done i g h = ground arith

pub read_slot-put :
    (i : ℕ) (a : HsmSlot) (g : HsmContext)
    → i < g.slots_len
    → read_slot i (put_slot i a g) ≡ done a (put_slot i a g)
read_slot-put i a g h =
    rw (read_slot-done i (put_slot i a g) h)
      (ap (λ (s : HsmSlot). done s (put_slot i a g)) (update-eq g.slots i a))

pub write_slot-put :
    (i : ℕ) (a b : HsmSlot) (g : HsmContext)
    → write_slot i a (put_slot i b g) ≡ done tt (put_slot i a g)
write_slot-put i a b g = ap (done tt) (put_slot-put_slot i a b g)

pub lock_slot-done :
    (i : ℕ) (g : HsmContext)
    → i < g.slots_len
    → (g.slots i).lock ≡ false
    → lock_slot i g ≡ done tt (put_slot i (record (g.slots i) { lock = true }) g)
unfolding lock_slot
lock_slot-done i g h free = rw (read_slot-done i g h, free)

pub lock_slot-deadlock :
    (i : ℕ) (a : HsmSlot) (g : HsmContext)
    → i < g.slots_len
    → a.lock ≡ true
    → lock_slot i (put_slot i a g) ≡ deadlock
unfolding lock_slot
lock_slot-deadlock i a g h held = rw (read_slot-put i a g h, held)

pub unlock_slot-put :
    (i : ℕ) (a : HsmSlot) (g : HsmContext)
    → i < g.slots_len
    → unlock_slot i (put_slot i a g) ≡ done tt (put_slot i (record a { lock = false }) g)
unfolding unlock_slot
unlock_slot-put i a g h =
    rw (read_slot-put i a g h) (write_slot-put i (record a { lock = false }) a g)
