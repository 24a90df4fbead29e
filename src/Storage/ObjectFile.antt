-- ===== src/Storage/ObjectFile.antt =====
-- The object files of hsm/src/storage/storage.c, written by hsm_storage_save_object and read by
-- hsm_storage_load_object.
use pst_boitier_pki.Common.{
  ℕ, ◌^◌, ◌≡◌, ◌<◌, ◌++◌, ◌∷◌, refl, true, some, Bytes, length, arith, ap, ◌∙◌, update, update-eq,
  ◌==◌, if◌then◌else◌,
}
use pst_boitier_pki.Cryptoki.{CkRv, ckr_ok}
use pst_boitier_pki.Hsm.State.{HsmObject, HsmKeyType, key_type_rsa, key_type_ec, Disk}
use pst_boitier_pki.Storage.{
  number, little_endian, fread_number, of_bool, key_type_number, key_bytes, object_bytes,
  parse_object, hsm_storage_save_object, hsm_storage_load_object,
}
use pst_boitier_pki.Storage.TokenFile.{fread-append, to_bool-of_bool}

number-eight : (x : ℕ) → x < 2 ^ 64 → number (little_endian 8 x) ≡ x
unfolding little_endian
number-eight x small = omega arith

number-four : (x : ℕ) → x < 2 ^ 32 → number (little_endian 4 x) ≡ x
unfolding little_endian
number-four x small = omega arith

fread-eight :
    (x y : ℕ) (rest : Bytes) → y < 2 ^ 64 → fread_number 8 x (little_endian 8 y ++ rest) ≡ (y, rest)
unfolding little_endian fread_number
fread-eight x y rest small =
    ap (λ (p : Bytes × Bytes). (number p.0, p.1))
      (fread-append (little_endian 8 x) (little_endian 8 y) rest refl)
    ∙ ap (λ (n : ℕ). (n, rest)) (number-eight y small)

fread-four :
    (x y : ℕ) (rest : Bytes) → y < 2 ^ 32 → fread_number 4 x (little_endian 4 y ++ rest) ≡ (y, rest)
unfolding little_endian fread_number
fread-four x y rest small =
    ap (λ (p : Bytes × Bytes). (number p.0, p.1))
      (fread-append (little_endian 4 x) (little_endian 4 y) rest refl)
    ∙ ap (λ (n : ℕ). (n, rest)) (number-four y small)

key_type-number :
    (t : HsmKeyType) → (if key_type_number t == 0 then key_type_rsa else key_type_ec) ≡ t
key_type-number key_type_rsa = refl
key_type-number key_type_ec = refl

key_type_small : (t : HsmKeyType) → key_type_number t < 2 ^ 32
key_type_small key_type_rsa = omega arith
key_type_small key_type_ec = omega arith

-- The fields fit their C types, and the arrays have the sizes of those of `o'`.
pub record Fits (o o' : HsmObject) : Type 0 where
  pub handle : o.handle < 2 ^ 64
  pub type : o.type < 2 ^ 32
  pub id_len : o.id_len < 2 ^ 64
  pub label : length o'.label ≡ length o.label
  pub id : length o'.id ≡ length o.id

-- `o'` with all that the file holds of `o` but the key.
abbrev pub loaded : (o o' : HsmObject) → HsmObject
loaded o o' = record o' {
  handle = o.handle;
  type = o.type;
  is_token = o.is_token;
  is_private = o.is_private;
  is_sensitive = o.is_sensitive;
  is_extractable = o.is_extractable;
  label = o.label;
  id = o.id;
  id_len = o.id_len;
  key_type = o.key_type;
  is_loaded = true;
}

parse_object-object_bytes :
    (o o' : HsmObject) → Fits o o' → parse_object (object_bytes o) o' ≡ loaded o o'
unfolding parse_object object_bytes
parse_object-object_bytes o o' f =
    let key = key_bytes o.key_type o.type o.key_data in
    let r6 = little_endian 4 (key_type_number o.key_type) ++ key in
    let r5 = little_endian 8 o.id_len ++ r6 in
    let r4 = o.id ++ r5 in
    let r3 =
      of_bool o.is_token
      ∷ of_bool o.is_private
      ∷ of_bool o.is_sensitive
      ∷ of_bool o.is_extractable
      ∷ (o.label ++ r4) in
    let a = fread-eight o'.handle o.handle (little_endian 4 o.type ++ r3) f.handle in
    let b = fread-four o'.type o.type r3 f.type in
    let c = fread-append o'.label o.label r4 f.label in
    let d = fread-append o'.id o.id r5 f.id in
    let e = fread-eight o'.id_len o.id_len r6 f.id_len in
    let k =
      fread-four (key_type_number o'.key_type) (key_type_number o.key_type) key
        (key_type_small o.key_type) in
    rw
      (
        ap (λ (p : ℕ × Bytes). p.1) a,
        ap (λ (p : ℕ × Bytes). p.0) a,
        ap (λ (p : ℕ × Bytes). p.1) b,
        ap (λ (p : ℕ × Bytes). p.0) b,
        ap (λ (p : Bytes × Bytes). p.1) c,
        ap (λ (p : Bytes × Bytes). p.0) c,
        ap (λ (p : Bytes × Bytes). p.1) d,
        ap (λ (p : Bytes × Bytes). p.0) d,
        ap (λ (p : ℕ × Bytes). p.1) e,
        ap (λ (p : ℕ × Bytes). p.0) e,
        ap (λ (p : ℕ × Bytes). p.0) k,
        to_bool-of_bool o.is_token,
        to_bool-of_bool o.is_private,
        to_bool-of_bool o.is_sensitive,
        to_bool-of_bool o.is_extractable,
        key_type-number o.key_type,
      )
      refl

save_object-writes :
    (o : HsmObject) (d : Disk)
    → o.is_token ≡ true
    → d.keys_writable ≡ true
    → hsm_storage_save_object o d ≡ (
      ckr_ok,
      record o { is_loaded = true },
      record d { object_files = update d.object_files o.handle (some (object_bytes o)) },
    )
unfolding hsm_storage_save_object
save_object-writes o d token writable = ground (arith, token, writable)

-- A token object whose fields fit their C types, saved on a disk that can be written, and then loaded
-- by its handle into an object whose arrays have the same sizes: both calls return CKR_OK, and the
-- loaded object has the handle, the type, the flags, the label, the ID and the kind of key of the saved
-- one, but the key that was there before: the key in the file is not read.
pub save_object-load_object :
    (o o' : HsmObject) (d : Disk)
    → Fits o o'
    → o.is_token ≡ true
    → d.keys_writable ≡ true
    → let (rv, o1, d') = hsm_storage_save_object o d in
      (rv ≡ ckr_ok)
      × (hsm_storage_load_object o.handle o' d' ≡ (ckr_ok, loaded o o'))
      × ((loaded o o').key_data ≡ o'.key_data)
unfolding hsm_storage_load_object
save_object-load_object o o' d f token writable =
    let d1 = record d { object_files = update d.object_files o.handle (some (object_bytes o)) } in
    let saved = save_object-writes o d token writable in
    let file = update-eq d.object_files o.handle (some (object_bytes o)) in
    let read : hsm_storage_load_object o.handle o' d1 ≡ (ckr_ok, loaded o o') =
      rw (file, hsm_storage_load_object)
        (ap (λ (x : HsmObject). (ckr_ok, x)) (parse_object-object_bytes o o' f)) in
    (
      ap (λ (p : CkRv × HsmObject × Disk). p.0) saved,
      ap (λ (p : CkRv × HsmObject × Disk). hsm_storage_load_object o.handle o' p.2) saved ∙ read,
      refl,
    )
