-- ===== src/Hsm/Ends.antt =====
-- Putting commands that are known to return one after the other.
use pst_boitier_pki.Hsm.State.{HsmContext}
use pst_boitier_pki.Hsm.Cmd.{Run, done, deadlock, fault, Cmd, and_then, Ends}

pub Ends-and_then :
    {A B : Type 0} {P : A → HsmContext → Type 0} (Q : B → HsmContext → Type 0) (m : Run A)
    (k : A → Cmd B)
    → Ends P m
    → ((a : A) (g : HsmContext) → P a g → Ends Q (k a g))
    → Ends Q (and_then m k)
Ends-and_then Q (done a g) k p f = f a g p
Ends-and_then Q deadlock k p f = absurd p
Ends-and_then Q fault k p f = absurd p
