-- ===== src/Objects.antt =====
-- Object management of hsm/src/pkcs11/objects.c, and hsm_generate_object_handle of
-- hsm/src/utils/utils.c. An object is found by its place in the table of its slot.
pub mod Handles
pub mod Results
pub mod Find
pub mod Table
pub mod Create
use pst_boitier_pki.Common.{
  ℕ, zero, suc, ◌+◌, ◌-◌, ◌%◌, ◌^◌, Bool, true, false, Option, none, some, List, [], ◌∷◌, ltb, leb,
  ◌==◌, if◌then◌else◌, not, is_none, find_index, update, replicate, ◌⊎◌, inl, inr,
}
use pst_boitier_pki.Cryptoki.{
  CkRv, ckr_ok, ckr_arguments_bad, ckr_slot_id_invalid, ckr_host_memory, ckr_object_handle_invalid,
  ckr_operation_active, ckr_operation_not_initialized,
}
use pst_boitier_pki.Hsm.State.{
  HsmContext, HsmSlot, HsmSession, HsmObject, key_type_rsa, blank, hsm_max_objects,
  hsm_max_find_objects, obj_type_data, obj_type_certificate, obj_type_public_key,
  obj_type_private_key,
}
use pst_boitier_pki.Hsm.Cmd.{
  Cmd, pure, ◌>>=◌, ◌>>◌, get, put, crash, read_slot, write_slot, lock_slot, unlock_slot,
  SessionRef, read_session, write_session, lock_session,
}
use pst_boitier_pki.Storage.{hsm_storage_save_object, hsm_storage_delete_object}
use pst_boitier_pki.Session.{with_session, hsm_get_session, leave_slot}
use pst_boitier_pki.Login.{leave_session}
use pst_boitier_pki.Attributes.{
  CkAttribute, hsm_parse_template, hsm_get_attribute_value, hsm_set_attribute_value,
}

-- The number that a handle of a type starts from.
abbrev pub handle_base : ℕ → ℕ
handle_base type =
    if type == obj_type_public_key
    then 0x10000000
    else if type == obj_type_private_key
    then 0x20000000
    else if type == obj_type_certificate
    then 0x30000000
    else if type == obj_type_data
    then 0x40000000
    else 0

-- The handle, and the counter after it.
unfoldable pub hsm_generate_object_handle : (type counter : ℕ) → ℕ × ℕ
hsm_generate_object_handle type counter = (handle_base type + counter, (counter + 1) % 2 ^ 32)

-- `slot->objects[i] && slot->objects[i]->handle == hObject`
abbrev pub is_object : ℕ → HsmSlot → ℕ → Bool
is_object handle s i = elim (s.objects i) [ none ↦ false | some o ↦ o.handle == handle ]

abbrev pub find_object : ℕ → HsmSlot → Option ℕ
find_object handle s = find_index (is_object handle s) hsm_max_objects

-- A return value other than `CKR_OK`, or the place of the object.
unfoldable pub hsm_get_object : (slot_id handle : ℕ) → Cmd (CkRv ⊎ ℕ)
hsm_get_object slot_id handle = do
  g ← get
  if leb g.slot_count slot_id then pure (inl ckr_slot_id_invalid) else do
    s ← read_slot slot_id
    pure (elim (find_object handle s) [ none ↦ inl ckr_object_handle_invalid | some i ↦ inr i ])

-- `calloc(1, sizeof(hsm_object_t))`
abbrev pub blank_object : HsmObject
blank_object = record {
  handle = 0;
  type = 0;
  is_token = false;
  is_private = false;
  is_sensitive = false;
  is_extractable = false;
  label = replicate 256 0;
  id = replicate 64 0;
  id_len = 0;
  key_type = key_type_rsa;
  key_data = blank;
  can_sign = false;
  can_verify = false;
  created = 0;
  modified = 0;
  ref_count = 0;
  is_loaded = false;
}

-- The end of `hsm_create_object`, with a filled-in object: handle, times, table, file.
unfoldable pub place_object :
    (now slot_id : ℕ) (place : Option ℕ) → HsmObject → Cmd (CkRv × Option ℕ)
place_object now slot_id none o = crash
place_object now slot_id (some idx) o = do
  g ← get
  s ← read_slot slot_id
  let (handle, counter) = hsm_generate_object_handle o.type g.object_counter in
      let o1 = record o { handle = handle; created = now; modified = now; ref_count = 1 } in
      let (rv, o2, d) = hsm_storage_save_object o1 g.disk in
      do
        put (record g { object_counter = counter; disk = d })
        write_slot slot_id (record s {
          objects = update s.objects idx (some o2);
          object_count = (s.object_count + 1) % 2 ^ 32;
        })
        leave_slot slot_id (ckr_ok, some handle)

-- The session pointer is used for its `slot_id` only. With 1,024 objects in the table but a lower
-- count the object is written past the table.
unfoldable pub hsm_create_object :
    (alloc_ok : Bool) (now slot_id : ℕ) (template : List CkAttribute) → Cmd (CkRv × Option ℕ)
hsm_create_object alloc_ok now slot_id template = do
  lock_slot slot_id
  s ← read_slot slot_id
  if leb hsm_max_objects s.object_count
      then leave_slot slot_id (ckr_host_memory, none)
      else if not alloc_ok
      then leave_slot slot_id (ckr_host_memory, none)
      else elim (hsm_parse_template template blank_object) [
        | none ↦ crash
        | some o ↦
            place_object now slot_id (find_index (λ i. is_none (s.objects i)) hsm_max_objects) o
      ]

unfoldable pub hsm_destroy_object : (slot_id handle : ℕ) → Cmd CkRv
hsm_destroy_object slot_id handle = do
  lock_slot slot_id
  s ← read_slot slot_id
  elim (find_object handle s) [
    | none ↦ leave_slot slot_id ckr_object_handle_invalid
    | some i ↦ elim (s.objects i) [
      | none ↦ crash
      | some o ↦ do
        g ← get
        put (record g {
          disk = if o.is_token then (hsm_storage_delete_object handle g.disk).1 else g.disk;
        })
        write_slot slot_id (record s {
          objects = update s.objects i none;
          object_count = (s.object_count + (2 ^ 32 - 1)) % 2 ^ 32;
        })
        leave_slot slot_id ckr_ok
    ]
  ]

-- `session->find_results[i]`, written and read: an array of HSM_MAX_FIND_OBJECTS handles.
abbrev pub write_result : (i handle : ℕ) → HsmSession → Option HsmSession
write_result i handle x =
    if ltb i hsm_max_find_objects
    then some (record x { find_results = update x.find_results i handle })
    else none

abbrev pub read_result : (i : ℕ) → HsmSession → Option ℕ
read_result i x = if ltb i hsm_max_find_objects then some (x.find_results i) else none

-- The loop of `hsm_find_objects`, from place `i`, with `n` rounds left; every object matches. `none` is
-- a write past the array of results.
unfoldable pub find_objects_loop : (ℕ → Option HsmObject) → ℕ → ℕ → HsmSession → Option HsmSession
find_objects_loop objects zero i x = some x
find_objects_loop objects (suc n) i x =
    if not (ltb x.find_count hsm_max_find_objects) then some x else elim (objects i) [
      | none ↦ find_objects_loop objects n (suc i) x
      | some o ↦ elim (write_result x.find_count o.handle x) [
        | none ↦ none
        | some y ↦ find_objects_loop objects n (suc i) (record y { find_count = x.find_count + 1 })
      ]
    ]

unfoldable pub hsm_find_objects : (ℕ → Option HsmObject) → HsmSession → Option HsmSession
hsm_find_objects objects x =
    find_objects_loop objects hsm_max_objects 0 (record x { find_count = 0 })

unfoldable pub c_find_objects_init : ℕ → Cmd CkRv
c_find_objects_init handle = with_session handle λ r. do
  lock_session r
  x ← read_session r
  if x.find_active then leave_session r ckr_operation_active else do
    s ← read_slot x.slot_id
    elim (hsm_find_objects s.objects x) [
      | none ↦ crash
      | some y ↦ do
        write_session r (record y { find_active = true; find_index = 0 })
        leave_session r ckr_ok
    ]

-- The loop of `C_FindObjects`, with room for `n` more handles: the handles it writes, and the session;
-- `none` is a read past the array of results.
unfoldable pub take_results : ℕ → HsmSession → Option (List ℕ × HsmSession)
take_results zero x = some ([], x)
take_results (suc n) x =
    let rest = take_results n (record x { find_index = (x.find_index + 1) % 2 ^ 32 }) in
    if not (ltb x.find_index x.find_count)
    then some ([], x)
    else elim (read_result x.find_index x) [
      | none ↦ none
      | some handle ↦ elim rest [ none ↦ none | some (handles, x') ↦ some (handle ∷ handles, x') ]
    ]

-- The return value, and the handles written to `phObject`, whose number is `*pulObjectCount`.
unfoldable pub c_find_objects : (pointers : Bool) (max_count handle : ℕ) → Cmd (CkRv × List ℕ)
c_find_objects pointers max_count handle = if not pointers then pure (ckr_arguments_bad, []) else do
  found ← hsm_get_session handle
  elim found [
    | inl rv ↦ pure (rv, [])
    | inr r ↦ do
      lock_session r
      x ← read_session r
      if not x.find_active then leave_session r (ckr_operation_not_initialized, []) else do
        elim (take_results max_count x) [
          | none ↦ crash
          | some (handles, x') ↦ do write_session r x'; leave_session r (ckr_ok, handles)
        ]
  ]

unfoldable pub c_find_objects_final : ℕ → Cmd CkRv
c_find_objects_final handle = with_session handle λ r. do
  lock_session r
  x ← read_session r
  if not x.find_active then leave_session r ckr_operation_not_initialized else do
    write_session r (record x { find_active = false; find_count = 0; find_index = 0 })
    leave_session r ckr_ok

unfoldable pub c_create_object :
    (alloc_ok : Bool) (now handle : ℕ) (template : Option (List CkAttribute)) (ph_object : Bool)
    → Cmd (CkRv × Option ℕ)
c_create_object alloc_ok now handle none ph_object = pure (ckr_arguments_bad, none)
c_create_object alloc_ok now handle (some template) ph_object =
    if not ph_object then pure (ckr_arguments_bad, none) else do
      found ← hsm_get_session handle
      elim found [
        | inl rv ↦ pure (rv, none)
        | inr r ↦ do x ← read_session r; hsm_create_object alloc_ok now x.slot_id template
      ]

unfoldable pub c_destroy_object : (handle object : ℕ) → Cmd CkRv
c_destroy_object handle object =
    with_session handle λ r. do x ← read_session r; hsm_destroy_object x.slot_id object

-- The object that a handle of `hsm_get_object` stands for.
abbrev pub read_object : (slot_id index : ℕ) → Cmd HsmObject
read_object slot_id index = do
  s ← read_slot slot_id
  elim (s.objects index) [ none ↦ crash | some o ↦ pure o ]

unfoldable pub c_get_attribute_value :
    (ck_unavailable_information handle object : ℕ) (template : Option (List CkAttribute))
    → Cmd (CkRv × List CkAttribute)
c_get_attribute_value unavailable handle object none = pure (ckr_arguments_bad, [])
c_get_attribute_value unavailable handle object (some template) = do
  found ← hsm_get_session handle
  elim found [
    | inl rv ↦ pure (rv, template)
    | inr r ↦ do
      x ← read_session r
      place ← hsm_get_object x.slot_id object
      elim place [
        | inl rv ↦ pure (rv, template)
        | inr i ↦ do
          o ← read_object x.slot_id i
          elim (hsm_get_attribute_value unavailable o template) [
            | none ↦ crash
            | some out ↦ pure out
          ]
      ]
  ]

unfoldable pub c_set_attribute_value :
    (handle object : ℕ) (template : Option (List CkAttribute)) → Cmd CkRv
c_set_attribute_value handle object none = pure ckr_arguments_bad
c_set_attribute_value handle object (some template) = with_session handle λ r. do
  x ← read_session r
  place ← hsm_get_object x.slot_id object
  elim place [
    | inl rv ↦ pure rv
    | inr i ↦ do
      o ← read_object x.slot_id i
      elim (hsm_set_attribute_value template o) [
        | none ↦ crash
        | some (rv, o') ↦ do
          s ← read_slot x.slot_id
          write_slot x.slot_id (record s { objects = update s.objects i (some o') })
          pure rv
      ]
  ]
