-- ===== src/Server/Frame.antt =====
-- The answer to one command in hsm/src/network/network_server.c.
use pst_boitier_pki.Common.{
  ℕ, ◌+◌, ◌*◌, ◌-◌, ◌%◌, ◌^◌, ◌≡◌, ◌<◌, ◌≤◌, refl, Bool, true, false, some, [], ◌∷◌, ◌++◌, Bytes,
  length, arith, ap, ◌∙◌, sym, inl, inr, Option-cases, Bool-cases, leb, ◌==◌, List, window,
  window-message, not,
}
use pst_boitier_pki.Cryptoki.{
  ckr_ok, ckr_function_failed, ckr_session_handle_invalid, ckr_random_no_rng,
  ckr_function_not_supported,
}
use pst_boitier_pki.Hsm.State.{HsmContext}
use pst_boitier_pki.Hsm.Cmd.{done, Cmd}
use pst_boitier_pki.Hsm.Slots.{read_slot-done}
use pst_boitier_pki.Hsm.Invariant.{IsReady}
use pst_boitier_pki.Storage.{little_endian, number}
use pst_boitier_pki.Session.{find_in_slot, hsm_verify_session}
use pst_boitier_pki.Session.Table.{get_session-ready}
use pst_boitier_pki.OpenSsl.{OpenSsl}
use pst_boitier_pki.SignCalls.{c_generate_random}
use pst_boitier_pki.Info.{library_info, c_get_info, c_get_slot_list, count_slots, fill_slots}
use pst_boitier_pki.Server.{
  Answer, info_bytes, slots_bytes, get_info_case, get_slot_list_case, generate_random_case, process,
  header, respond, Client, cmd_get_info, cmd_get_slot_list, cmd_generate_random,
}

-- `RAND_bytes` gives as many bytes as it is asked for.
abbrev pub Fills : OpenSsl → Type 0
Fills o = (n : ℕ) (b : Bytes) → n < 2 ^ 31 → o.rand_bytes n ≡ some b → length b ≡ n

-- An answer whose length is that of its bytes, which fit behind the header.
abbrev pub IsSized : Answer → Type 0
IsSized a = (length a.2 ≡ a.1) × (5 + a.1 ≤ 65536)

-- The command of the state `g` ends with such an answer, and leaves the state.
abbrev pub Answers : HsmContext → Cmd Answer → Type 0
Answers g m = (a : Answer) × (m g ≡ done a g) × IsSized a

get_info-Answers : (g : HsmContext) → IsReady g → Answers g get_info_case
unfolding get_info_case c_get_info info_bytes little_endian
get_info-Answers g r =
    ((ckr_ok, 88, info_bytes library_info), rw r.initialized refl, (refl, omega arith))

slots_answer : List ℕ → Answer
slots_answer ids = (ckr_ok, 8 + length ids * 8, little_endian 8 (length ids) ++ slots_bytes ids)

get_slot_list-Answers :
    (present : Bool) (g : HsmContext) → IsReady g → Answers g (get_slot_list_case present)
unfolding get_slot_list_case c_get_slot_list count_slots fill_slots slots_bytes little_endian
    slots_answer
get_slot_list-Answers false g r =
    (slots_answer (0 ∷ []), ground (arith, r.initialized, r.slot_count), (refl, omega arith))
get_slot_list-Answers true g r =
    let read = read_slot-done 0 g (omega (arith, r.slots_len)) in
    elim (Bool-cases ((g.slots 0).token_present)) [
      | inl e ↦ (
        slots_answer (0 ∷ []),
        ground (arith, r.initialized, r.slot_count, read, e),
        (refl, omega arith),
      )
      | inr e ↦ (
        slots_answer [],
        ground (arith, r.initialized, r.slot_count, read, e),
        (refl, omega arith),
      )
    ]

module _ (o : OpenSsl) (fills : Fills o) where
  generate_random-Answers :
      (session len : ℕ) (g : HsmContext)
      → IsReady g
      → Answers g (generate_random_case o session len)
  unfolding generate_random_case c_generate_random hsm_verify_session
  generate_random-Answers session len g r = elim (Bool-cases (leb len (65536 - 100))) [
    | inr e ↦ ((ckr_function_failed, 0, []), rw e refl, (refl, omega arith))
    | inl e ↦
        let small : len ≤ 65436 = ground arith in
        let low : len % 2 ^ 32 ≡ len = omega arith in
        let get = get_session-ready session g r in
        elim (Option-cases (find_in_slot session (g.slots 0))) [
          | inl q ↦
              ((ckr_session_handle_invalid, 0, []), ground (arith, e, get, q), (refl, omega arith))
          | inr (i, q) ↦ elim (Option-cases (o.rand_bytes len)) [
            | inl w ↦
                ((ckr_random_no_rng, 0, []), ground (arith, e, get, q, low, w), (refl, omega arith))
            | inr (b, w) ↦ (
              (ckr_ok, len, b),
              ground (arith, e, get, q, low, w),
              (fills len b (omega arith) w, omega arith),
            )
          ]
        ]
  ]

  pub process-Answers : (b : ℕ → ℕ) (g : HsmContext) → IsReady g → Answers g (process o b)
  unfolding process
  process-Answers b g r = elim (Bool-cases (b 0 == cmd_get_info)) [
    | inl e ↦ rw e (get_info-Answers g r)
    | inr e1 ↦ elim (Bool-cases (b 0 == cmd_get_slot_list)) [
      | inl e ↦ rw (e1, e) (get_slot_list-Answers (not (b 5 == 0)) g r)
      | inr e2 ↦ elim (Bool-cases (b 0 == cmd_generate_random)) [
        | inl e ↦
            rw (e1, e2, e)
              (generate_random-Answers (number (window b 5 8)) (number (window b 13 8)) g r)
        | inr e ↦ ((ckr_function_not_supported, 0, []), rw (e1, e2, e) refl, (refl, omega arith))
      ]
    ]
  ]

-- The bytes that are sent for an answer.
abbrev pub frame : Answer → Bytes
frame a = header a.0 a.1 ++ a.2

pub respond-frame : (c : Client) (a : Answer) → IsSized a → (respond c a).sent ≡ c.sent ++ frame a
respond-frame c a z =
    ap (λ (xs : Bytes). c.sent ++ xs)
      (ap (λ (n : ℕ). window (respond c a).response 0 (5 + n)) (sym z.0)
        ∙ window-message c.response (header a.0 a.1) a.2)
