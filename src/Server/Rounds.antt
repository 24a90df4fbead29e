-- ===== src/Server/Rounds.antt =====
-- The rounds of handle_client in hsm/src/network/network_server.c: each ends the loop or takes bytes.
use pst_boitier_pki.Common.{
  ℕ, zero, suc, ◌-◌, ◌≡◌, ◌<◌, ◌⊎◌, refl, Bool, true, none, some, length, take, drop, arith, inl,
  inr, Bool-cases, ltb, ◌==◌, length-drop, length-take,
}
use pst_boitier_pki.Hsm.State.{HsmContext}
use pst_boitier_pki.Hsm.Cmd.{done, deadlock}
use pst_boitier_pki.Hsm.Invariant.{IsReady}
use pst_boitier_pki.OpenSsl.{OpenSsl}
use pst_boitier_pki.Server.{
  Answer, Client, receive, body_length, process, respond, serve, handle_client, buffer_size, waits,
}
use pst_boitier_pki.Server.Frame.{Fills, process-Answers}

-- The state after the two `recv` of a round.
abbrev pub received : Client → Client
received c = let c1 = receive 0 5 c in receive 5 (body_length c1.buffer) c1

-- The client closes the connection after its bytes, and reads all that it is sent.
abbrev pub Finishes : Client → Type 0
Finishes c = (c.closes ≡ true) × ((n : ℕ) → c.takes n ≡ true)

shorter :
    (c : Client)
    → 0 < length c.input
    → length (drop (body_length (receive 0 5 c).buffer) (drop 5 c.input)) < length c.input
shorter c some_left = omega (
  arith,
  length-drop (body_length (receive 0 5 c).buffer) (drop 5 c.input),
  length-drop 5 c.input,
)

module _ (o : OpenSsl) where
  -- Where the `switch` returns and leaves the library, a round ends the loop, or takes bytes and
  -- answers, or waits for ever, but not for a client that finishes.
  pub serve_cases_of :
      (c : Client) (g : HsmContext)
      → ((b : ℕ → ℕ) → (a : Answer) × (process o b g ≡ done a g))
      → (serve o c g ≡ done none g)
        ⊎ (((a : Answer) × (serve o c g ≡ done (some (respond (received c) a)) g)
              × (length (respond (received c) a).input < length c.input))
            ⊎ ((serve o c g ≡ deadlock) × ¬ (Finishes c)))
  unfolding serve
  serve_cases_of c g answers =
      let c1 = receive 0 5 c in
      let len = body_length c1.buffer in
      elim (Bool-cases (waits 5 c)) [
        | inl w ↦ inr (inr (rw w refl, λ f. absurd (ground (arith, w, f.0))))
        | inr w1 ↦ elim (Bool-cases (length (take 5 c.input) == 0)) [
          | inl e ↦ inl (rw (w1, e) refl)
          | inr e1 ↦ elim (Bool-cases (ltb (buffer_size - 5) len)) [
            | inl e ↦ inl (rw (w1, e1, e) refl)
            | inr e2 ↦ elim (Bool-cases (waits len c1)) [
              | inl w ↦ inr (inr (rw (w1, e1, e2, w) refl, λ f. absurd (ground (arith, w, f.0))))
              | inr w2 ↦ elim (Bool-cases (length (take len c1.input) == len)) [
                | inr e ↦ inl (rw (w1, e1, e2, w2, e) refl)
                | inl e ↦
                    let (a, p) = answers (received c).buffer in
                    elim (Bool-cases (c.takes (length (respond (received c) a).sent))) [
                      | inl t ↦ inr (
                          inl (
                            a,
                            rw (w1, e1, e2, w2, e, p, t) refl,
                            shorter c (ground (arith, e1, length-take 5 c.input)),
                          ))
                      | inr t ↦ inr (
                          inr (
                            rw (w1, e1, e2, w2, e, p, t) refl,
                            λ f.
                                absurd
                                  (ground (arith, t, f.1 (length (respond (received c) a).sent))),
                          ))
                    ]
              ]
            ]
          ]
        ]
      ]

module _ (o : OpenSsl) (fills : Fills o) where
  pub serve_cases :
      (c : Client) (g : HsmContext)
      → IsReady g
      → (serve o c g ≡ done none g)
        ⊎ (((a : Answer) × (serve o c g ≡ done (some (respond (received c) a)) g)
              × (length (respond (received c) a).input < length c.input))
            ⊎ ((serve o c g ≡ deadlock) × ¬ (Finishes c)))
  serve_cases c g r =
      serve_cases_of o c g (λ b. let (a, p, z) = process-Answers o fills b g r in (a, p))

  -- The library is running with one slot whose lock is free, and RAND_bytes gives as many bytes as it
  -- is asked for. A client sends any bytes and then closes the connection, and it reads all that it is
  -- sent. Then, whenever the flag is cleared, the loop of handle_client ends, after one round more than
  -- the client sends bytes at most, and leaves the state of the library as it was.
  pub handle_client-ends :
      (running : ℕ → Bool) (n k : ℕ) (c : Client) (g : HsmContext)
      → IsReady g
      → Finishes c
      → length c.input < n
      → (c' : Client) × (handle_client o running n k c g ≡ done (true, c') g)
  unfolding handle_client
  handle_client-ends running zero k c g r f less = absurd (omega arith)
  handle_client-ends running (suc n) k c g r f less = elim (Bool-cases (running k)) [
    | inr off ↦ (c, rw off refl)
    | inl on ↦ elim (serve_cases c g r) [
      | inl e ↦ (c, rw (on, e) refl)
      | inr (inl (a, e, fewer)) ↦
          let (c', q) =
            handle_client-ends running n (suc k) (respond (received c) a) g r f
              (omega (arith, fewer, less)) in
          (c', rw (on, e) q)
      | inr (inr (e, stuck)) ↦ absurd (stuck f)
    ]
  ]
