-- ===== src/Server/Threads.antt =====
-- The threads of hsm/src/network/network_server.c: the main thread with its accept loop, and one
-- detached thread for every connection, in any order, up to the call of C_Finalize. The `i`-th
-- connection is `accepted i`. A step is a read of the flag, one round of handle_client after it, or one
-- action of the main thread. The calls of the library in a round only read what the threads share, so
-- they do not race with each other; C_Finalize, which frees what they read, races with a call under way
-- and is left out. A thread whose round waits for ever takes no more steps.
pub mod Alone
pub mod Isolated
use pst_boitier_pki.Common.{
  ℕ, suc, Bool, true, false, Option, none, some, ◌≡◌, update, if◌then◌else◌,
}
use pst_boitier_pki.Hsm.State.{HsmContext}
use pst_boitier_pki.Hsm.Cmd.{done}
use pst_boitier_pki.OpenSsl.{OpenSsl}
use pst_boitier_pki.Server.{Client, serve}

-- Where the thread of a connection is: before the test of `g_server.running`, after it found the flag
-- set, or behind the loop.
pub data Thread : Type 0 where
  testing serving ended : Client → Thread

abbrev pub client_of : Thread → Client
client_of (testing c) = c
client_of (serving c) = c
client_of (ended c) = c

-- Where the main thread is: before the test of the flag, in `accept`, or behind the loop.
pub data Main : Type 0 where
  polling waiting closing : Main

-- `g_hsm_context`, `g_server.running`, the main thread, the threads of connections, and how many there
-- have been.
pub record System : Type 0 where
  pub library : HsmContext
  pub running : Bool
  pub main : Main
  pub threads : ℕ → Option Thread
  pub made : ℕ

abbrev pub after_test : Bool → Client → Thread
after_test running c = if running then serving c else ended c

-- After a round: what `serve` gives.
abbrev pub after_round : Client → Option Client → Thread
after_round c none = ended c
after_round c (some c') = testing c'

abbrev pub with_thread : ℕ → Thread → System → System
with_thread i t s = record s { threads = update s.threads i (some t) }

module _ (o : OpenSsl) (accepted : ℕ → Client) where
  pub data Step (s : System) : System → Type 0 where
    -- `signal_handler`
    signalled : Step s (record s { running = false })
    polled : s.main ≡ polling → Step s (record s { main = if s.running then waiting else closing })
    -- `accept`, `pthread_create`
    connected :
        s.main ≡ waiting
        → Step s (record s {
          main = polling;
          threads = update s.threads s.made (some (testing (accepted s.made)));
          made = suc s.made;
        })
    interrupted : s.main ≡ waiting → Step s (record s { main = polling })
    accept_failed : s.main ≡ waiting → Step s (record s { main = closing })
    tested :
        (i : ℕ) (c : Client)
        → s.threads i ≡ some (testing c)
        → Step s (with_thread i (after_test s.running c) s)
    served :
        (i : ℕ) (c : Client) (next : Option Client) (g : HsmContext)
        → s.threads i ≡ some (serving c)
        → serve o c s.library ≡ done next g
        → Step s (record (with_thread i (after_round c next) s) { library = g })

  -- The server after `g_server.running = 1`.
  abbrev pub listening : HsmContext → System
  listening g = record {
    library = g;
    running = true;
    main = polling;
    threads = λ _. none;
    made = 0;
  }

  pub data Reach (g : HsmContext) : System → Type 0 where
    start : Reach g (listening g)
    later : {s t : System} → Reach g s → Step s t → Reach g t
