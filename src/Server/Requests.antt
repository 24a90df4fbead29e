-- ===== src/Server/Requests.antt =====
-- The requests that handle_client of hsm/src/network/network_server.c answers.
use pst_boitier_pki.Common.{
  append-nil, append_assoc, ℕ, suc, ◌/◌, ◌%◌, ◌^◌, ◌≡◌, ◌<◌, ◌≤◌, refl, Bool, true, false, none,
  some, List, [], ◌∷◌, ◌++◌, Bytes, length, take, arith, ap, ◌∙◌, sym, write_at, write_at-before,
  window, window-write_at, update, take-append, drop-append, ltb, ◌==◌, ==_refl,
}
use pst_boitier_pki.Hsm.State.{HsmContext}
use pst_boitier_pki.Hsm.Cmd.{done}
use pst_boitier_pki.Hsm.Invariant.{IsReady}
use pst_boitier_pki.OpenSsl.{OpenSsl}
use pst_boitier_pki.Server.{
  Answer, Client, receive, body_length, process, respond, serve, handle_client, waits,
}
use pst_boitier_pki.Server.Frame.{Fills, IsSized, frame, process-Answers, respond-frame}
use pst_boitier_pki.Server.Rounds.{Finishes, received}

-- What a client sends.
pub record Request : Type 0 where
  pub cmd : ℕ
  pub body : Bytes

abbrev pub encode : Request → Bytes
encode q =
    q.cmd
    ∷ length q.body / 2 ^ 24 % 256
    ∷ length q.body / 2 ^ 16 % 256
    ∷ length q.body / 2 ^ 8 % 256
    ∷ length q.body % 256
    ∷ q.body

length_of_header :
    (b : ℕ → ℕ) (q : Request)
    → length q.body < 2 ^ 32
    → body_length (write_at b 0 (take 5 (encode q))) ≡ length q.body
unfolding write_at update
length_of_header b q small = omega arith

abbrev pub with_input : Client → Bytes → Client
with_input c input = record c { input = input }

abbrev pub encode_all : List Request → Bytes
encode_all [] = []
encode_all (q ∷ qs) = encode q ++ encode_all qs

-- Requests that the server takes: 65,531 bytes at most.
abbrev pub AllFit : List Request → Type 0
AllFit [] = Unit {0}
AllFit (q ∷ qs) = (length q.body ≤ 65531) × AllFit qs

-- The answers, one after the other.
abbrev pub frames : List Answer → Bytes
frames [] = []
frames (a ∷ as') = frame a ++ frames as'

abbrev pub AllSized : List Answer → Type 0
AllSized [] = Unit {0}
AllSized (a ∷ as') = IsSized a × AllSized as'

-- The answer is what the `switch` gives on a buffer that starts with the command and holds the body at
-- its place.
abbrev pub IsAnswer : OpenSsl → HsmContext → Request → Answer → Type 0
IsAnswer o g q a =
    (b : ℕ → ℕ) × (b 0 ≡ q.cmd) × (window b 5 (length q.body) ≡ q.body) × (process o b g ≡ done a g)

-- One answer to each request, in order.
abbrev pub AllAnswered : OpenSsl → HsmContext → List Request → List Answer → Type 0
AllAnswered o g [] [] = Unit {0}
AllAnswered o g (q ∷ qs) (a ∷ as') = IsAnswer o g q a × AllAnswered o g qs as'
AllAnswered o g [] (a ∷ as') = ⊥
AllAnswered o g (q ∷ qs) [] = ⊥

-- The request in the buffer.
request_at :
    (b : ℕ → ℕ) (q : Request) (rest : Bytes) (n : ℕ)
    → n ≡ length q.body
    → let c = write_at (write_at b 0 (take 5 (encode q))) 5 (take n (q.body ++ rest)) in
      (c 0 ≡ q.cmd) × (window c 5 (length q.body) ≡ q.body)
unfolding write_at update
request_at b q rest n e =
    let b1 = write_at b 0 (take 5 (encode q)) in
    let same : take n (q.body ++ rest) ≡ q.body =
      ap (λ (k : ℕ). take k (q.body ++ rest)) e ∙ take-append q.body rest in
    (
      write_at-before b1 5 (take n (q.body ++ rest)) 0 (omega arith),
      ap (λ (xs : Bytes). window (write_at b1 5 xs) 5 (length q.body)) same
          ∙ window-write_at b1 5 q.body,
    )

module _ (o : OpenSsl) (fills : Fills o) where
  -- The client has sent all.
  pub serve-nothing :
      (c : Client) (g : HsmContext) → Finishes c → serve o (with_input c []) g ≡ done none g
  unfolding serve
  serve-nothing c g f = rw f.0 refl

  pub serve-request :
      (c : Client) (q : Request) (rest : Bytes) (g : HsmContext)
      → IsReady g
      → Finishes c
      → length q.body ≤ 65531
      → let c1 = with_input c (encode q ++ rest) in
        (a : Answer) × (serve o c1 g ≡ done (some (respond (received c1) a)) g)
        × IsSized a
        × ((received c1).input ≡ rest)
        × IsAnswer o g q a
  unfolding serve
  serve-request c q rest g r f fit =
      let c1 = with_input c (encode q ++ rest) in
      let len = length_of_header c.buffer q (omega arith) in
      let (a, p, z) = process-Answers o fills (received c1).buffer g r in
      let n = body_length (receive 0 5 c1).buffer in
      let small : ltb 65531 n ≡ false = ground (arith, len) in
      let w1 : waits 5 c1 ≡ false = ground (arith, f.0) in
      let w2 : waits n (receive 0 5 c1) ≡ false = ground (arith, f.0) in
      let all : (length (take n (q.body ++ rest)) == n) ≡ true =
        rw (len, take-append q.body rest) (==_refl (length q.body)) in
      (
        a,
        rw (w1, small, w2, all, p, f.1 (length (respond (received c1) a).sent)) refl,
        z,
        rw len (drop-append q.body rest),
        (
          (received c1).buffer,
          (request_at c.buffer q rest n len).0,
          (request_at c.buffer q rest n len).1,
          p,
        ),
      )

  -- The library is running with one slot whose lock is free, RAND_bytes gives as many bytes as it is
  -- asked for, and the flag stays set. A client sends requests of at most 65,531 bytes each, whatever
  -- their commands, one after the other, and then closes the connection; it reads all that it is
  -- sent. Then the loop of handle_client ends after one
  -- round more than there are requests, leaves the state of the library as it was, and has sent one
  -- answer per request, in order, each what the `switch` gives for its command and body: a header of the return value and the lowest byte of the length, and
  -- that many bytes, which fit in its buffer.
  pub handle_client-answers :
      (running : ℕ → Bool) (k : ℕ) (c : Client) (qs : List Request) (g : HsmContext)
      → IsReady g
      → Finishes c
      → AllFit qs
      → ((j : ℕ) → running j ≡ true)
      → (c' : Client) × (as' : List Answer) × (handle_client o running
            (suc (length qs))
            k
            (with_input c (encode_all qs))
            g
          ≡ done (true, c') g)
        × AllAnswered o g qs as'
        × AllSized as'
        × (c'.sent ≡ c.sent ++ frames as')
  unfolding handle_client
  handle_client-answers running k c [] g r f fit on =
      (with_input c [], [], rw (on k, serve-nothing c g f) refl, tt, tt, sym (append-nil c.sent))
  handle_client-answers running k c (q ∷ qs) g r f fit on =
      let c1 = with_input c (encode_all (q ∷ qs)) in
      let (a, run, z, left, answer) = serve-request c q (encode_all qs) g r f fit.0 in
      let c2 = respond (received c1) a in
      let (c', as', more, all, sized, sent) =
        handle_client-answers running (suc k) c2 qs g r f fit.1 on in
      let next =
        ap (λ (xs : Bytes). handle_client o running (suc (length qs)) (suc k) (with_input c2 xs) g)
          left in
      (
        c',
        a ∷ as',
        ground (arith, on k, run, next, more),
        (answer, all),
        (z, sized),
        sent
            ∙ ap (λ (xs : Bytes). xs ++ frames as') (respond-frame (received c1) a z)
            ∙ append_assoc c.sent (frame a) (frames as'),
      )
