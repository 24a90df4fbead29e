-- ===== src/Server/Threads/Alone.antt =====
-- A connection alone: rounds of handle_client (hsm/src/network/network_server.c) one after the other.
use pst_boitier_pki.Common.{
  append-nil, append_assoc, ℕ, zero, suc, ◌≡◌, ◌≢◌, ◌≤◌, refl, none, some, List, [], ◌∷◌, ◌++◌,
  Bytes, length, take, Option, ap, ◌∙◌, sym, inl, inr, arith, subst,
}
use pst_boitier_pki.Hsm.State.{HsmContext}
use pst_boitier_pki.Hsm.Cmd.{done, Run, deadlock, fault}
use pst_boitier_pki.Hsm.Invariant.{IsReady}
use pst_boitier_pki.OpenSsl.{OpenSsl}
use pst_boitier_pki.Server.{Client, Answer, serve, respond}
use pst_boitier_pki.Server.Frame.{Fills, frame, respond-frame}
use pst_boitier_pki.Server.Requests.{
  Request, encode_all, with_input, AllFit, AllAnswered, AllSized, frames, serve-request,
  serve-nothing,
}
use pst_boitier_pki.Server.Rounds.{serve_cases, received, Finishes}

-- `n` rounds lead from one state of a connection to another, and leave the library as it is.
abbrev pub Rounds : OpenSsl → HsmContext → ℕ → Client → Client → Type 0
Rounds o g zero c c' = c ≡ c'
Rounds o g (suc n) c c' = (c1 : Client) × (serve o c g ≡ done (some c1) g) × Rounds o g n c1 c'

pub Rounds-more :
    (o : OpenSsl) (g : HsmContext) (n : ℕ) (c c1 c2 : Client)
    → Rounds o g n c c1
    → serve o c1 g ≡ done (some c2) g
    → Rounds o g (suc n) c c2
Rounds-more o g zero c c1 c2 e q = (c2, ap (λ (d : Client). serve o d g) e ∙ q, refl)
Rounds-more o g (suc n) c c1 c2 (d, p, r) q = (d, p, Rounds-more o g n d c1 c2 r q)

-- What a run ends with, where it ends with something.
abbrev result_of : Run (Option Client) → Client → Client
result_of (done (some c) g) d = c
result_of (done none g) d = d
result_of deadlock d = d
result_of fault d = d

abbrev pub state_of : Run (Option Client) → HsmContext → HsmContext
state_of (done next g) h = g
state_of deadlock h = h
state_of fault h = h

-- A round does not both go on and end.
not_both :
    (m : Run (Option Client)) (d : Client) (g : HsmContext) → m ≡ done (some d) g → m ≢ done none g
not_both m d g p q = ends (sym p ∙ q)
  where
    ends : ◌≢◌ {A = Run (Option Client)} (done (some d) g) (done none g)
    ends e = ground arith

not_done :
    (next : Option Client) (g : HsmContext) → ◌≢◌ {A = Run (Option Client)} (done next g) deadlock
not_done next g e = ground arith

module _ (o : OpenSsl) (fills : Fills o) (g : HsmContext) (r : IsReady g) where
  -- After `n` rounds the first `n` requests have their answers, in order; there are no more rounds than
  -- requests, and with fewer the connection goes on.
  pub Rounds-answers :
      (n : ℕ) (qs : List Request) (c c' : Client)
      → Finishes c
      → AllFit qs
      → Rounds o g n (with_input c (encode_all qs)) c'
      → (as' : List Answer) × (n ≤ length qs)
        × AllAnswered o g (take n qs) as'
        × AllSized as'
        × (c'.sent ≡ c.sent ++ frames as')
        × (serve o c' g ≡ done none g → n ≡ length qs)
  Rounds-answers zero [] c c' f fit e = (
    [],
    omega arith,
    tt,
    tt,
    ap (λ (d : Client). d.sent) (sym e) ∙ sym (append-nil c.sent),
    λ _. refl,
  )
  Rounds-answers zero (q ∷ qs) c c' f fit e =
      let (a, run, z, left, answer) = serve-request o fills c q (encode_all qs) g r f fit.0 in
      (
        [],
        omega arith,
        tt,
        tt,
        ap (λ (d : Client). d.sent) (sym e) ∙ sym (append-nil c.sent),
        λ w. absurd (not_both _ _ g (ap (λ (d : Client). serve o d g) (sym e) ∙ run) w),
      )
  Rounds-answers (suc n) [] c c' f fit (c1, p, more) =
      absurd (not_both _ c1 g p (serve-nothing o fills c g f))
  Rounds-answers (suc n) (q ∷ qs) c c' f fit (c1, p, more) =
      let (a, run, z, left, answer) = serve-request o fills c q (encode_all qs) g r f fit.0 in
      let c2 = respond (received (with_input c (encode_all (q ∷ qs)))) a in
      let same : c1 ≡ with_input c2 (encode_all qs) =
        ap (λ (m : Run (Option Client)). result_of m c) (sym p ∙ run) ∙ ap (with_input c2) left in
      let (as', le, all, sized, sent, full) =
        Rounds-answers n qs c2 c' f fit.1 (subst (λ (d : Client). Rounds o g n d c') same more) in
      (
        a ∷ as',
        omega (arith, le),
        (answer, all),
        (z, sized),
        sent
            ∙ ap (λ (xs : Bytes). xs ++ frames as')
                (respond-frame (received (with_input c (encode_all (q ∷ qs)))) a z)
            ∙ append_assoc c.sent (frame a) (frames as'),
        λ w. ap suc (full w),
      )

  -- A round leaves the library as it is.
  pub serve-same :
      (c : Client) (next : Option Client) (h : HsmContext) → serve o c g ≡ done next h → h ≡ g
  serve-same c next h e = elim (serve_cases o fills c g r) [
    | inl p ↦ ap (λ (m : Run (Option Client)). state_of m g) (sym e ∙ p)
    | inr (inl (a, p, fewer)) ↦ ap (λ (m : Run (Option Client)). state_of m g) (sym e ∙ p)
    | inr (inr (p, _)) ↦ absurd (not_done next h (sym e ∙ p))
  ]
