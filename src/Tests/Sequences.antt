-- ===== src/Tests/Sequences.antt =====
-- The theorems on sequences of calls, at the state that C_Initialize leaves, and on templates.
use pst_boitier_pki.Common.{List, [], ◌∷◌, ◌≡◌, refl, some, false, arith}
use pst_boitier_pki.Cryptoki.{CkRv, cka_label}
use pst_boitier_pki.Hsm.State.{HsmObject, HsmContext}
use pst_boitier_pki.Session.Create.{opened}
use pst_boitier_pki.Library.Start.{started}
use pst_boitier_pki.Attributes.{
  CkAttribute, hsm_parse_template, hsm_set_attribute_value, hsm_get_attribute_value,
}
use pst_boitier_pki.Attributes.Safe.{AllRoomy, Fills, IsShaped}
use pst_boitier_pki.Attributes.Reads.{attributes-Fills}
use pst_boitier_pki.Objects.{blank_object}
use pst_boitier_pki.KeyPair.Made.{blank_object-IsShaped}
use pst_boitier_pki.Tests.{quiet}

abbrev off : HsmContext
off = record quiet { initialized = false; slots_len = 0; slot_count = 0 }

-- The state with a session, which C_OpenSession leads to.
abbrev one_session : HsmContext
one_session = opened 100 6 0 (started off)

-- A template with a label of three bytes.
abbrev labelled : List CkAttribute
labelled =
    record {
      type = cka_label;
      p_value = some (b'k' ∷ b'e' ∷ b'y' ∷ 0 ∷ 0 ∷ 0 ∷ 0 ∷ 0 ∷ []);
      ul_value_len = 3;
    }
    ∷ []

labelled-AllRoomy : AllRoomy labelled
labelled-AllRoomy = (
  record {
    buffer = b'k' ∷ b'e' ∷ b'y' ∷ 0 ∷ 0 ∷ 0 ∷ 0 ∷ 0 ∷ [];
    given = refl;
    fits = omega arith;
    wide = omega arith;
  },
  tt,
)

attributes-Fills_example :
    Fills blank_object (hsm_parse_template labelled blank_object)
    × ((rv : CkRv) × (o' : HsmObject) × (hsm_set_attribute_value labelled blank_object
          ≡ some (rv, o'))
        × IsShaped o'
        × (o'.handle ≡ 0))
    × ((rv : CkRv) × (out : List CkAttribute) × (hsm_get_attribute_value 99 blank_object labelled
          ≡ some (rv, out)))
attributes-Fills_example =
    attributes-Fills 99 blank_object labelled blank_object-IsShaped labelled-AllRoomy
