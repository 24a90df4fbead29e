-- ===== src/Tests/Threads.antt =====
-- The theorems on the threads of the server, with one connection that has been accepted.
use pst_boitier_pki.Common.{
  none, ℕ, ◌≡◌, ◌≤◌, ◌⊎◌, refl, true, false, some, List, ◌++◌, length, take, update,
}
use pst_boitier_pki.Server.{Client, Answer}
use pst_boitier_pki.Server.Requests.{encode_all, with_input, AllAnswered, AllSized, frames}
use pst_boitier_pki.Server.Threads.{
  System, testing, serving, polling, polled, connected, tested, Reach, start, later,
}
use pst_boitier_pki.Server.Threads.Isolated.{threads-answers}
use pst_boitier_pki.Tests.{quiet, quiet-IsReady}
use pst_boitier_pki.Tests.Toy.{toy}
use pst_boitier_pki.Tests.Servers.{client, requests, requests-AllFit, toy-Fills}

-- Every client sends the two requests.
abbrev arrivals : ℕ → Client
arrivals i = with_input client (encode_all requests)

-- The first connection, in a round, and the main thread before its next test.
abbrev one_client : System
one_client = record {
  library = quiet;
  running = true;
  main = polling;
  threads =
      update (update (λ _. none) 0 (some (testing (arrivals 0)))) 0 (some (serving (arrivals 0)));
  made = 1;
}

one_client-Reach : Reach toy arrivals quiet one_client
unfolding update
one_client-Reach =
    later (later (later start (polled refl)) (connected refl)) (tested 0 (arrivals 0) refl)

first_thread : one_client.threads 0 ≡ some (serving (arrivals 0))
unfolding update
first_thread = refl

threads-answers_example :
    (n : ℕ) × (as' : List Answer) × (quiet ≡ quiet)
    × (n ≤ length requests)
    × AllAnswered toy quiet (take n requests) as'
    × AllSized as'
    × (client.sent ≡ client.sent ++ frames as')
    × ((false ≡ false) ⊎ (n ≡ length requests))
threads-answers_example =
    threads-answers toy toy-Fills arrivals quiet quiet-IsReady one_client 0 (serving (arrivals 0))
      client requests one_client-Reach first_thread refl (refl, λ n. refl) requests-AllFit
