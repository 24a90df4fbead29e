-- ===== src/Server/Lifetime.antt =====
-- network_server_start of hsm/src/network/network_server.c.
use pst_boitier_pki.Common.{◌≡◌, true, false, List, refl}
use pst_boitier_pki.Cryptoki.{ckr_ok}
use pst_boitier_pki.Hsm.State.{mutex_free, HsmContext}
use pst_boitier_pki.Hsm.Cmd.{Ends, pure}
use pst_boitier_pki.Hsm.Ends.{Ends-and_then}
use pst_boitier_pki.Storage.{hsm_storage_init}
use pst_boitier_pki.Library.{c_finalize}
use pst_boitier_pki.Library.Start.{started, initialize-IsWell}
use pst_boitier_pki.Library.Stop.{IsStopped, finalize-IsStopped}
use pst_boitier_pki.Server.{Sockets, Accept, accept_loop, network_server_start}

abbrev pub sockets_fine : Sockets
sockets_fine = record {
  socket_zero = false;
  setsockopt_fails = false;
  bind_fails = false;
  listen_fails = false;
}

-- The library is not running and the global lock is free; the directories exist or can be made; the
-- slot can be allocated, and the socket is had, bound and listened on. Then network_server_start returns
-- 0 after the connections that it accepted, as many threads as there are `accept`s that succeed before
-- one fails for another reason than an interrupt, and leaves the library stopped: no slots, the global
-- lock free.
pub network_server_start-IsStopped :
    (events : List Accept) (g : HsmContext)
    → g.global_lock ≡ mutex_free
    → g.initialized ≡ false
    → (hsm_storage_init g.disk).0 ≡ ckr_ok
    → Ends
        (λ out g'. (out ≡ (0, accept_loop events)) × IsStopped g')
        (network_server_start true sockets_fine events g)
unfolding network_server_start
network_server_start-IsStopped events g free stopped stored =
    let (run, well) = initialize-IsWell g free stopped stored in
    rw run (
      Ends-and_then _ (c_finalize false (started g)) (λ _. pure (0, accept_loop events))
        (finalize-IsStopped (started g) well refl) (λ rv h p. (refl, p.1)))
