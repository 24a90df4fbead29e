-- ===== src/Tests/KeyPairs.antt =====
-- The theorems on C_GenerateKeyPair, at a sample state: the user logged in, no objects.
use pst_boitier_pki.Common.{
  ℕ, ◌+◌, ◌%◌, ◌^◌, ◌≡◌, ◌≢◌, refl, true, false, none, some, [], update, arith, find_from,
  count_used,
}
use pst_boitier_pki.Cryptoki.{ckr_ok}
use pst_boitier_pki.Hsm.State.{HsmContext, HsmSession, HsmObject, obj_type_private_key}
use pst_boitier_pki.Hsm.Cmd.{done, read_slot}
use pst_boitier_pki.Hsm.Focus.{focus}
use pst_boitier_pki.Hsm.Invariant.{IsReady}
use pst_boitier_pki.Session.{hsm_get_session}
use pst_boitier_pki.Attributes.{hsm_parse_template}
use pst_boitier_pki.Login.Refine.{Leads}
use pst_boitier_pki.Objects.{handle_base}
use pst_boitier_pki.Objects.Table.{ObjectsOk}
use pst_boitier_pki.Mechanisms.{ckm_sha256_rsa_pkcs, ckm_rsa_pkcs_key_pair_gen}
use pst_boitier_pki.Keys.{rsa_public, rsa_private, hsm_generate_key_pair_rsa}
use pst_boitier_pki.Signing.{hsm_sign_data, sign_rsa, sign_rsa_with, rsa_md, digest_sign}
use pst_boitier_pki.SignCalls.{c_sign_init, c_sign}
use pst_boitier_pki.SignCalls.Refine.{object_of}
use pst_boitier_pki.KeyPair.{
  public_key_object, private_key_object, make_pair, generate, key_bits_of, c_generate_key_pair,
}
use pst_boitier_pki.KeyPair.Placed.{paired, first_saved, second_saved, generate_key_pair-object_of}
use pst_boitier_pki.KeyPair.Sign.{generate_key_pair-sign}
use pst_boitier_pki.Tests.{session, busy}
use pst_boitier_pki.Tests.Toy.{toy, rsa_parts}
use pst_boitier_pki.Tests.Signatures.{message, signed, sha256_known}

abbrev user_session : HsmSession
user_session = record session { user_logged_in = true }

abbrev logged : HsmContext
logged = focus busy 0 user_session (busy.slots 0)

logged-IsReady : IsReady logged
unfolding update
logged-IsReady = record { initialized = refl; slot_count = refl; slots_len = refl; free = refl }

logged-Leads : Leads 1 0 user_session logged
unfolding hsm_get_session read_slot find_from update
logged-Leads = record { found = refl; present = refl; home = refl; free = refl }

no_object : (o : HsmObject) → none ≢ some o
no_object o e = ground arith

logged-ObjectsOk : ObjectsOk 1 (logged.slots 0)
unfolding update count_used
logged-ObjectsOk = record {
  counted = refl;
  below = λ i o e. absurd (no_object o e);
  distinct = λ i j x y e. absurd (no_object x e);
}

-- The objects, which the templates make private, sensitive and not extractable.
abbrev guarded : HsmObject → HsmObject
guarded o = record o {
  is_token = false;
  is_private = true;
  is_sensitive = true;
  is_extractable = false;
}

abbrev pair_pub : HsmObject
pair_pub = rsa_public toy 2048 rsa_parts (guarded public_key_object)

abbrev pair_priv : HsmObject
pair_priv = rsa_private toy 2048 rsa_parts (guarded private_key_object)

made :
    make_pair toy true true true ckm_rsa_pkcs_key_pair_gen [] []
    ≡ some (ckr_ok, pair_pub, pair_priv)
unfolding make_pair generate key_bits_of hsm_parse_template hsm_generate_key_pair_rsa
made = refl

generate_key_pair-object_of_example :
    (p q : ℕ) × (p ≢ q)
    × ((logged.slots 0).objects p ≡ none)
    × ((logged.slots 0).objects q ≡ none)
    × (c_generate_key_pair toy true true true (some ckm_rsa_pkcs_key_pair_gen) [] [] true 1 logged
        ≡ done
            (ckr_ok, some (handle_base 2 + 1, handle_base 3 + ((1 + 1) % 2 ^ 32)))
            (paired p q pair_pub pair_priv logged))
    × (object_of (handle_base 2 + 1) ((paired p q pair_pub pair_priv logged).slots 0)
        ≡ some (first_saved pair_pub logged).1)
    × (object_of
          (handle_base 3 + ((1 + 1) % 2 ^ 32))
          ((paired p q pair_pub pair_priv logged).slots 0)
        ≡ some (second_saved pair_pub pair_priv logged).1)
    × ObjectsOk
        (paired p q pair_pub pair_priv logged).object_counter
        ((paired p q pair_pub pair_priv logged).slots 0)
unfolding update
generate_key_pair-object_of_example =
    generate_key_pair-object_of toy true true ckm_rsa_pkcs_key_pair_gen [] [] 1 0 user_session
      pair_pub pair_priv logged logged-IsReady logged-Leads refl logged-ObjectsOk (omega arith)
      (omega arith) made

pair-private : pair_priv.type ≡ obj_type_private_key
unfolding rsa_private
pair-private = refl

pair-signs : hsm_sign_data toy pair_priv ckm_sha256_rsa_pkcs message true 10 ≡ some signed
unfolding hsm_sign_data rsa_private sign_rsa sign_rsa_with rsa_md digest_sign
pair-signs = refl

generate_key_pair-sign_example :
    (g1 g2 g3 : HsmContext) × (c_generate_key_pair toy true true true
        (some ckm_rsa_pkcs_key_pair_gen)
        []
        []
        true
        1
        logged
      ≡ done (ckr_ok, some (handle_base 2 + 1, handle_base 3 + ((1 + 1) % 2 ^ 32))) g1)
    × (c_sign_init (some ckm_sha256_rsa_pkcs) (handle_base 3 + ((1 + 1) % 2 ^ 32)) 1 g1
        ≡ done ckr_ok g2)
    × (c_sign toy (some message) true (some 10) 1 g2 ≡ done signed g3)
unfolding update
generate_key_pair-sign_example =
    generate_key_pair-sign toy message true 10 true true ckm_rsa_pkcs_key_pair_gen
      ckm_sha256_rsa_pkcs [] [] 1 0 user_session pair_pub pair_priv signed logged logged-IsReady
      logged-Leads refl refl logged-ObjectsOk (omega arith) (omega arith) made pair-private
      sha256_known pair-signs
