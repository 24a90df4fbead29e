-- ===== src/Server/Threads/Isolated.antt =====
-- Threads of hsm/src/network/network_server.c do not disturb each other while the server is not shut
-- down.
use pst_boitier_pki.Common.{
  ◌&&◌, ◌⊎◌, ℕ, suc, ◌≡◌, ◌≢◌, ◌≤◌, refl, Bool, true, false, Option, none, some, List, ◌++◌, length,
  take, ap, ◌∙◌, sym, inl, inr, arith, subst, update, update-some_cases, Bool-cases,
}
use pst_boitier_pki.Hsm.State.{HsmContext}
use pst_boitier_pki.Hsm.Cmd.{done}
use pst_boitier_pki.Hsm.Invariant.{IsReady}
use pst_boitier_pki.OpenSsl.{OpenSsl}
use pst_boitier_pki.Server.{Client, Answer, serve}
use pst_boitier_pki.Server.Frame.{Fills}
use pst_boitier_pki.Server.Requests.{
  Request, encode_all, with_input, AllFit, AllAnswered, AllSized, frames,
}
use pst_boitier_pki.Server.Threads.{
  Thread, testing, serving, ended, client_of, System, after_test, after_round, Step, signalled,
  polled, connected, interrupted, accept_failed, tested, served, Reach, start, later,
}
use pst_boitier_pki.Server.Rounds.{Finishes}
use pst_boitier_pki.Server.Threads.Alone.{Rounds, Rounds-more, Rounds-answers, serve-same}

after_test-client : (running : Bool) (c : Client) → client_of (after_test running c) ≡ c
after_test-client true c = refl
after_test-client false c = refl

after_test-ended : (running : Bool) (c d : Client) → after_test running c ≡ ended d → running ≢ true
after_test-ended true c d e on = ground arith
after_test-ended false c d e on = ground arith

abbrev pub is_ended : Thread → Bool
is_ended (testing c) = false
is_ended (serving c) = false
is_ended (ended c) = true

module _ (o : OpenSsl) (fills : Fills o) (accepted : ℕ → Client) (g : HsmContext)
    (r : IsReady g) where
  -- The library is as it was; every thread has served its own connection, as if it were alone; and one
  -- that ended while the flag was set has ended by itself.
  record Isolated (library : HsmContext) (running : Bool) (threads : ℕ → Option Thread)
      : Type 0 where
    same : library ≡ g
    rounds :
        (i : ℕ) (t : Thread)
        → threads i ≡ some t
        → (n : ℕ) × Rounds o g n (accepted i) (client_of t)
    finished :
        (i : ℕ) (c : Client)
        → threads i ≡ some (ended c)
        → running ≡ true
        → serve o c g ≡ done none g

  -- One thread moves.
  moved :
      (library : HsmContext) (running : Bool) (threads : ℕ → Option Thread) (i n : ℕ) (t : Thread)
      → Isolated library running threads
      → Rounds o g n (accepted i) (client_of t)
      → ((c : Client) → t ≡ ended c → running ≡ true → serve o c g ≡ done none g)
      → Isolated library running (update threads i (some t))
  moved library running threads i n t s k f = record {
    same = s.same;
    rounds = λ j u e. elim (update-some_cases threads i t j e) [
      | inl (a, p) ↦ (
        n,
        subst (λ (v : Thread). Rounds o g n (accepted j) (client_of v)) p
            (subst (λ (m : ℕ). Rounds o g n (accepted m) (client_of t)) (sym a) k),
      )
      | inr (_, p) ↦ s.rounds j u p
    ];
    finished = λ j c e on. elim (update-some_cases threads i t j e) [
      | inl (_, p) ↦ f c p on
      | inr (_, p) ↦ s.finished j c p on
    ];
  }

  round_of :
      (n i : ℕ) (c : Client) (next : Option Client)
      → Rounds o g n (accepted i) c
      → serve o c g ≡ done next g
      → (m : ℕ) × Rounds o g m (accepted i) (client_of (after_round c next))
  round_of n i c none q e = (n, q)
  round_of n i c (some d) q e = (suc n, Rounds-more o g n (accepted i) c d q e)

  round_end :
      (c d : Client) (next : Option Client)
      → after_round c next ≡ ended d
      → serve o c g ≡ done next g
      → serve o d g ≡ done none g
  round_end c d none z e = ap (λ (x : Client). serve o x g) (sym (ap client_of z)) ∙ e
  round_end c d (some x) z e = absurd (ground (arith, z))

  -- Every step keeps this.
  Step-Isolated :
      {s t : System}
      → Step o accepted s t
      → Isolated s.library s.running s.threads
      → Isolated t.library t.running t.threads
  Step-Isolated {s} signalled k = record {
    same = k.same;
    rounds = k.rounds;
    finished = λ i c e on. absurd (ground arith);
  }
  Step-Isolated {s} (polled e) k = k
  Step-Isolated {s} (connected e) k =
      moved s.library s.running s.threads s.made 0 (testing (accepted s.made)) k refl
        (λ c p. absurd (ground arith))
  Step-Isolated {s} (interrupted e) k = k
  Step-Isolated {s} (accept_failed e) k = k
  Step-Isolated {s} (tested i c e) k =
      let (n, q) = k.rounds i (testing c) e in
      moved s.library s.running s.threads i n (after_test s.running c) k
        (subst (Rounds o g n (accepted i)) (sym (after_test-client s.running c)) q)
        (λ d p on. absurd (after_test-ended s.running c d p on))
  Step-Isolated {s} (served i c next h e p) k =
      let here = ap (λ (l : HsmContext). serve o c l) (sym k.same) ∙ p in
      let h_same = serve-same o fills g r c next h here in
      let (n, q) = k.rounds i (serving c) e in
      let (m, q') = round_of n i c next q (here ∙ ap (done next) h_same) in
      moved h s.running s.threads i m (after_round c next)
        (record { same = h_same; rounds = k.rounds; finished = k.finished }) q'
        (λ d z on. round_end c d next z (here ∙ ap (done next) h_same))

  Reach-Isolated : {s : System} → Reach o accepted g s → Isolated s.library s.running s.threads
  Reach-Isolated start = record {
    same = refl;
    rounds = λ i t e. absurd (ground arith);
    finished = λ i c e on. absurd (ground arith);
  }
  Reach-Isolated (later before now) = Step-Isolated now (Reach-Isolated before)

  -- Ended while the flag is set, a thread has no more rounds.
  ended-finished :
      (s : System) (i : ℕ) (t : Thread)
      → Isolated s.library s.running s.threads
      → s.threads i ≡ some t
      → ((is_ended t && s.running) ≡ false) ⊎ (serve o (client_of t) g ≡ done none g)
  ended-finished s i (testing c) k e = inl refl
  ended-finished s i (serving c) k e = inl refl
  ended-finished s i (ended c) k e = elim (Bool-cases s.running) [
    | inl on ↦ inr (k.finished i c e on)
    | inr off ↦ inl off
  ]

  -- The library is running with one slot whose lock is free, and RAND_bytes gives as many bytes as it
  -- is asked for. The server has accepted connections, and its threads have taken steps in any order,
  -- before C_Finalize is called. Take a connection whose client sends requests of at most 65,531 bytes
  -- each, then closes it, and reads all that it is sent, whatever the clients of the others do: they
  -- may leave their threads waiting for ever. Its thread has then sent the answers to
  -- some of its requests, the first ones, in order, each what the `switch` gives for its command and
  -- body on the library as it was at the start, and nothing else; and to all of them, if the thread has
  -- ended and the flag is still set. The library is as it was at the start.
  pub threads-answers :
      (s : System) (i : ℕ) (t : Thread) (c : Client) (qs : List Request)
      → Reach o accepted g s
      → s.threads i ≡ some t
      → accepted i ≡ with_input c (encode_all qs)
      → Finishes c
      → AllFit qs
      → (n : ℕ) × (as' : List Answer) × (s.library ≡ g)
        × (n ≤ length qs)
        × AllAnswered o g (take n qs) as'
        × AllSized as'
        × ((client_of t).sent ≡ c.sent ++ frames as')
        × (((is_ended t && s.running) ≡ false) ⊎ (n ≡ length qs))
  threads-answers s i t c qs path e sends f fit =
      let k = Reach-Isolated path in
      let (n, q) = k.rounds i t e in
      let (as', le, all, sized, sent, full) =
        Rounds-answers o fills g r n qs c (client_of t) f fit
          (subst (λ (d : Client). Rounds o g n d (client_of t)) sends q) in
      (
        n,
        as',
        k.same,
        le,
        all,
        sized,
        sent,
        elim (ended-finished s i t k e) [ inl open' ↦ inl open' | inr z ↦ inr (full z) ],
      )
