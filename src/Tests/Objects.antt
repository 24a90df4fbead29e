-- ===== src/Tests/Objects.antt =====
-- The theorems on attributes, handles and searches, at sample inputs.
use pst_boitier_pki.Common.{
  inr, none, count_used, ℕ, ◌+◌, ◌≡◌, ◌≤◌, refl, true, some, List, [], ◌∷◌, Bytes, take, memcpy,
  replicate, arith, update, find_from,
}
use pst_boitier_pki.Cryptoki.{ckr_ok, cka_token}
use pst_boitier_pki.Hsm.State.{
  HsmContext, HsmSession, HsmObject, hsm_max_objects, hsm_max_find_objects,
}
use pst_boitier_pki.Hsm.Cmd.{done, read_slot}
use pst_boitier_pki.Hsm.Focus.{focus}
use pst_boitier_pki.Hsm.Invariant.{IsReady}
use pst_boitier_pki.Session.{hsm_get_session}
use pst_boitier_pki.Login.Refine.{Leads}
use pst_boitier_pki.Attributes.{
  CkAttribute, hsm_set_attribute_value, hsm_get_attribute_value, hsm_parse_template,
  parse_attribute,
}
use pst_boitier_pki.Attributes.Label.{NonZero, label_attribute, set_attribute-get_attribute}
use pst_boitier_pki.Attributes.Template.{Parses, all_readable, IsSized, parse_template-Guarded}
use pst_boitier_pki.Objects.{
  handle_base, hsm_get_object, hsm_create_object, blank_object, c_find_objects_init, c_find_objects,
}
use pst_boitier_pki.Objects.Table.{ObjectsOk}
use pst_boitier_pki.Objects.Create.{placed, create_object-get_object}
use pst_boitier_pki.Objects.Results.{handles, remains}
use pst_boitier_pki.Objects.Find.{
  searching, advanced, find_objects_init-remains, find_objects-remains,
}
use pst_boitier_pki.Tests.{quiet, quiet-IsReady, session, busy, busy-IsReady, busy-Leads}

abbrev text : Bytes
text = b'k' ∷ b'e' ∷ b'y' ∷ []

text-NonZero : NonZero text
text-NonZero = (λ e. ground arith, (λ e. ground arith, (λ e. ground arith, tt)))

set_attribute-get_attribute_example :
    (o' : HsmObject) × (hsm_set_attribute_value (label_attribute text 3 ∷ []) blank_object
      ≡ some (ckr_ok, o'))
    × (hsm_get_attribute_value 7 o' (label_attribute (replicate 8 0) 8 ∷ [])
        ≡ some (ckr_ok, label_attribute (memcpy (replicate 8 0) text) 3 ∷ []))
set_attribute-get_attribute_example =
    set_attribute-get_attribute 7 blank_object text (replicate 8 0) 8 refl (omega arith)
      text-NonZero (omega arith) (omega arith)

abbrev template : List CkAttribute
template =
    record { type = cka_token; p_value = some (1 ∷ []); ul_value_len = 1 }
    ∷ label_attribute text 3
    ∷ []

abbrev parsed : HsmObject
parsed = record blank_object {
  is_token = true;
  is_private = true;
  is_sensitive = true;
  label = memcpy (replicate 256 0) text;
}

template-parsed : hsm_parse_template template blank_object ≡ some parsed
unfolding hsm_parse_template parse_attribute
template-parsed = refl

blank_object-IsSized : IsSized blank_object
blank_object-IsSized = record { label = refl; id = refl; id_len = omega arith }

parse_template-Guarded_example :
    Parses (all_readable template) (hsm_parse_template template blank_object)
parse_template-Guarded_example = parse_template-Guarded template blank_object blank_object-IsSized

-- The session `busy` has, with a search of three handles under way.
abbrev seeking : HsmSession
seeking = record session {
  find_active = true;
  find_results = λ i. i + 40;
  find_count = 3;
  find_index = 1;
}

abbrev seeking_busy : HsmContext
seeking_busy = focus busy 0 seeking (busy.slots 0)

seeking_busy-IsReady : IsReady seeking_busy
unfolding update
seeking_busy-IsReady = record {
  initialized = refl;
  slot_count = refl;
  slots_len = refl;
  free = refl;
}

seeking_busy-Leads : Leads 1 0 seeking seeking_busy
unfolding hsm_get_session read_slot find_from update
seeking_busy-Leads = record { found = refl; present = refl; home = refl; free = refl }

find_objects_init-remains_example :
    (c_find_objects_init 1 busy
      ≡ done ckr_ok (focus busy 0 (searching busy session) (busy.slots 0)))
    × (remains (searching busy session)
        ≡ take 100 (handles (busy.slots 0).objects hsm_max_objects 0))
    × ((searching busy session).find_count ≤ hsm_max_find_objects)
find_objects_init-remains_example =
    find_objects_init-remains 1 0 session busy busy-IsReady busy-Leads refl

find_objects-remains_example :
    (c_find_objects true 1 1 seeking_busy
      ≡ done (ckr_ok, 41 ∷ []) (focus seeking_busy 0 (advanced 1 seeking) (seeking_busy.slots 0)))
    × (remains (advanced 1 seeking) ≡ 42 ∷ [])
find_objects-remains_example =
    find_objects-remains 1 0 seeking seeking_busy seeking_busy-IsReady seeking_busy-Leads 1 refl
      (omega arith)

quiet-ObjectsOk : ObjectsOk 1 (quiet.slots 0)
unfolding count_used
quiet-ObjectsOk = record {
  counted = refl;
  below = λ i o e. absurd (ground arith);
  distinct = λ i j x y e. absurd (ground arith);
}

create_object-get_object_example :
    (idx : ℕ) × ((quiet.slots 0).objects idx ≡ none)
    × (hsm_create_object true 100 0 template quiet
        ≡ done (ckr_ok, some (handle_base parsed.type + 1)) (placed 100 idx parsed quiet))
    × (hsm_get_object 0 (handle_base parsed.type + 1) (placed 100 idx parsed quiet)
        ≡ done (inr idx) (placed 100 idx parsed quiet))
    × ObjectsOk (placed 100 idx parsed quiet).object_counter ((placed 100 idx parsed quiet).slots 0)
create_object-get_object_example =
    create_object-get_object 100 template parsed quiet quiet-IsReady quiet-ObjectsOk (omega arith)
      (omega arith) template-parsed
