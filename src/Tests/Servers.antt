-- ===== src/Tests/Servers.antt =====
-- The theorems on information, random numbers, object files and the server, at sample inputs.
use pst_boitier_pki.Common.{
  ℕ, zero, suc, ◌+◌, ◌≡◌, ◌≢◌, refl, true, false, none, some, List, [], ◌∷◌, ◌++◌, length,
  replicate, arith, length-replicate,
}
use pst_boitier_pki.Cryptoki.{ckr_ok, ckr_buffer_too_small}
use pst_boitier_pki.Hsm.State.{HsmObject}
use pst_boitier_pki.Hsm.Cmd.{done}
use pst_boitier_pki.Storage.{hsm_storage_save_object, hsm_storage_load_object}
use pst_boitier_pki.Storage.ObjectFile.{Fits, loaded, save_object-load_object}
use pst_boitier_pki.Attributes.Label.{NonZero}
use pst_boitier_pki.Objects.{blank_object}
use pst_boitier_pki.Info.{c_get_slot_list}
use pst_boitier_pki.TokenInfo.{c_get_token_info, token_flags, CkTokenInfo}
use pst_boitier_pki.Info.SlotList.{slot_ids, get_slot_list-slot_ids}
use pst_boitier_pki.TokenInfo.Label.{get_token_info-label}
use pst_boitier_pki.Server.{Answer, Client, handle_client, cmd_get_info, cmd_generate_random}
use pst_boitier_pki.Server.Frame.{Fills}
use pst_boitier_pki.Server.Requests.{
  Request, encode_all, with_input, AllFit, AllAnswered, AllSized, frames, handle_client-answers,
}
use pst_boitier_pki.Server.Rounds.{handle_client-ends}
use pst_boitier_pki.Tests.{quiet, quiet-IsReady, disk, sample}
use pst_boitier_pki.Tests.Toy.{toy}

get_slot_list-slot_ids_example :
    let ids = slot_ids true quiet 1 0 in
    (c_get_slot_list true false (some 4) quiet ≡ done (ckr_ok, none, length ids) quiet)
    × (c_get_slot_list true true (some (length ids + 3)) quiet
        ≡ done (ckr_ok, some ids, length ids) quiet)
    × (c_get_slot_list true true (some 0) quiet
        ≡ done (ckr_buffer_too_small, none, length ids) quiet)
unfolding slot_ids
get_slot_list-slot_ids_example =
    get_slot_list-slot_ids true 3 4 0 quiet refl (omega arith) (omega arith)

spaces-NonZero : (n x : ℕ) → x ≢ 0 → NonZero (replicate n x)
spaces-NonZero zero x ne = tt
spaces-NonZero (suc n) x ne = (ne, spaces-NonZero n x ne)

letter : ◌≢◌ {A = ℕ} b'A' 0
letter e = omega arith

get_token_info-label_example :
    (info : CkTokenInfo) × (c_get_token_info 99 1000 true 0 quiet ≡ done (ckr_ok, some info) quiet)
    × (info.label ≡ replicate 32 b'A')
    × (info.flags ≡ token_flags sample)
    × (info.ul_session_count ≡ 0)
get_token_info-label_example =
    get_token_info-label 99 1000 quiet quiet-IsReady refl refl (spaces-NonZero 32 b'A' letter)
      (omega arith)

pub toy-Fills : Fills toy
toy-Fills n b small e = ground (arith, e, length-replicate {A = ℕ} n 7)

abbrev token_object : HsmObject
token_object = record blank_object { handle = 0x20000001; type = 3; is_token = true; id_len = 5 }

token_object-Fits : Fits token_object blank_object
token_object-Fits = record {
  handle = omega arith;
  type = omega arith;
  id_len = omega arith;
  label = refl;
  id = refl;
}

save_object-load_object_example :
    let (rv, o1, d') = hsm_storage_save_object token_object disk in
    (rv ≡ ckr_ok)
    × (hsm_storage_load_object 0x20000001 blank_object d'
        ≡ (ckr_ok, loaded token_object blank_object))
    × ((loaded token_object blank_object).key_data ≡ blank_object.key_data)
save_object-load_object_example =
    save_object-load_object token_object blank_object disk token_object-Fits refl refl

-- A connection that has just been accepted.
abbrev pub client : Client
client = record {
  buffer = λ _. 205;
  response = λ _. 205;
  input = [];
  closes = true;
  sent = [];
  takes = λ _. true;
}

-- A request for information, and one for 20 random bytes in session 1.
abbrev pub requests : List Request
requests =
    record { cmd = cmd_get_info; body = [] }
    ∷ record { cmd = cmd_generate_random; body = 1 ∷ replicate 7 0 ++ (20 ∷ replicate 7 0) }
    ∷ []

pub requests-AllFit : AllFit requests
requests-AllFit = (omega arith, (omega arith, tt))

handle_client-answers_example :
    (c' : Client) × (as' : List Answer) × (handle_client toy
        (λ _. true)
        3
        0
        (with_input client (encode_all requests))
        quiet
      ≡ done (true, c') quiet)
    × AllAnswered toy quiet requests as'
    × AllSized as'
    × (c'.sent ≡ frames as')
handle_client-answers_example =
    handle_client-answers toy toy-Fills (λ _. true) 0 client requests quiet quiet-IsReady
      (refl, λ n. refl) requests-AllFit (λ j. refl)

handle_client-ends_example :
    (c' : Client) × (handle_client toy
        (λ _. true)
        4
        0
        (with_input client (cmd_get_info ∷ 0 ∷ 0 ∷ []))
        quiet
      ≡ done (true, c') quiet)
handle_client-ends_example =
    handle_client-ends toy toy-Fills (λ _. true) 4 0 (with_input client (cmd_get_info ∷ 0 ∷ 0 ∷ []))
      quiet quiet-IsReady (refl, λ n. refl) (omega arith)
