-- ===== src/KeyPair/Placed.antt =====
-- C_GenerateKeyPair of hsm/src/pkcs11/crypto_ops.c: the two objects that it adds to the table.
use pst_boitier_pki.Common.{
  ℕ, ◌+◌, ◌%◌, ◌^◌, ◌≡◌, ◌≢◌, ◌<◌, ◌≤◌, true, Bool, none, some, List, arith, ap, ◌∙◌, sym,
  update-eq,
}
use pst_boitier_pki.Cryptoki.{CkRv, ckr_ok}
use pst_boitier_pki.Hsm.State.{HsmContext, HsmSession, HsmObject, Disk, hsm_max_objects}
use pst_boitier_pki.Hsm.Cmd.{done, put_slot, read_session}
use pst_boitier_pki.Hsm.Slots.{read_slot-put, write_slot-put, lock_slot-done, unlock_slot-put}
use pst_boitier_pki.Hsm.Focus.{entry, focus_self, read_session-focus, unlock_session-focus}
use pst_boitier_pki.Hsm.Invariant.{IsReady}
use pst_boitier_pki.Storage.{hsm_storage_save_object}
use pst_boitier_pki.Attributes.{CkAttribute}
use pst_boitier_pki.Login.Refine.{Leads, lock_session-start, focus-back}
use pst_boitier_pki.Objects.{handle_base, hsm_generate_object_handle}
use pst_boitier_pki.Objects.Table.{ObjectsOk}
use pst_boitier_pki.Objects.Create.{base_mod}
use pst_boitier_pki.OpenSsl.{OpenSsl}
use pst_boitier_pki.SignCalls.Refine.{object_of}
use pst_boitier_pki.KeyPair.{free_pair, place_pair, add_pair, make_pair, c_generate_key_pair}
use pst_boitier_pki.KeyPair.Table.{slot_paired, pair-ObjectsOk, pair-object_of}
use pst_boitier_pki.KeyPair.Places.{free_pair-Places}

-- The two objects with their handles, saved.
abbrev pub first_saved : HsmObject → HsmContext → CkRv × HsmObject × Disk
first_saved x g =
    hsm_storage_save_object (record x { handle = handle_base 2 + g.object_counter }) g.disk

abbrev pub second_saved : HsmObject → HsmObject → HsmContext → CkRv × HsmObject × Disk
second_saved x y g =
    hsm_storage_save_object
      (record y { handle = handle_base 3 + ((g.object_counter + 1) % 2 ^ 32) }) (first_saved x g).2

-- The state with the pair in entries `p` and `q`.
abbrev pub paired : (p q : ℕ) → HsmObject → HsmObject → HsmContext → HsmContext
paired p q x y g =
    put_slot 0 (slot_paired (g.slots 0) p q (first_saved x g).1 (second_saved x y g).1) (record g {
      object_counter = ((g.object_counter + 1) % 2 ^ 32 + 1) % 2 ^ 32;
      disk = (second_saved x y g).2;
    })

save_object-handle :
    (x : HsmObject) (d : Disk) → ((hsm_storage_save_object x d).1).handle ≡ x.handle
unfolding hsm_storage_save_object
save_object-handle x d = ground arith

-- The handles that are saved, and the numbers in them.
pub saved_handles :
    (a b : HsmObject) (g : HsmContext)
    → g.object_counter + 2 < 2 ^ 28
    → let c = g.object_counter in
      ((first_saved a g).1.handle ≡ handle_base 2 + c)
      × ((second_saved a b g).1.handle ≡ handle_base 3 + ((c + 1) % 2 ^ 32))
      × ((first_saved a g).1.handle % 2 ^ 28 ≡ c)
      × ((second_saved a b g).1.handle % 2 ^ 28 ≡ c + 1)
saved_handles a b g small =
    let c = g.object_counter in
    let ha = save_object-handle (record a { handle = handle_base 2 + c }) g.disk in
    let hb =
      save_object-handle (record b { handle = handle_base 3 + ((c + 1) % 2 ^ 32) })
        (first_saved a g).2 in
    (ha, hb, ap (λ (k : ℕ). k % 2 ^ 28) ha ∙ base_mod 2 c (omega arith), omega (arith, hb))

place_pair-put :
    (p q : ℕ) (x y : HsmObject) (g : HsmContext)
    → 0 < g.slots_len
    → place_pair 0 p q x y (put_slot 0 (record (g.slots 0) { lock = true }) g)
      ≡ done
          (
            ckr_ok,
            some (
              handle_base 2 + g.object_counter,
              handle_base 3 + ((g.object_counter + 1) % 2 ^ 32),
            ),
          )
          (paired p q x y g)
unfolding place_pair hsm_generate_object_handle
place_pair-put p q x y g has =
    let l = record (g.slots 0) { lock = true } in
    let h = record g {
      object_counter = ((g.object_counter + 1) % 2 ^ 32 + 1) % 2 ^ 32;
      disk = (second_saved x y g).2;
    } in
    let t = record (slot_paired (g.slots 0) p q (first_saved x g).1 (second_saved x y g).1) {
      lock = true;
    } in
    ground (arith, read_slot-put 0 l g has, write_slot-put 0 t l h, unlock_slot-put 0 t h has)

pub add_pair-done :
    (p q : ℕ) (x y : HsmObject) (g : HsmContext)
    → IsReady g
    → free_pair (g.slots 0).objects hsm_max_objects 0 none ≡ (some p, some q)
    → add_pair 0 x y g
      ≡ done
          (
            ckr_ok,
            some (
              handle_base 2 + g.object_counter,
              handle_base 3 + ((g.object_counter + 1) % 2 ^ 32),
            ),
          )
          (paired p q x y g)
unfolding add_pair
add_pair-done p q x y g r e =
    let has : 0 < g.slots_len = omega (arith, r.slots_len) in
    let l = record (g.slots 0) { lock = true } in
    ground (
      arith,
      lock_slot-done 0 g has r.free,
      read_slot-put 0 l g has,
      e,
      place_pair-put p q x y g has,
    )

pub read_session-Leads :
    (handle i : ℕ) (x : HsmSession) (g : HsmContext)
    → IsReady g
    → Leads handle i x g
    → read_session (entry i) g ≡ done x g
read_session-Leads handle i x g r l =
    let has : 0 < g.slots_len = omega (arith, r.slots_len) in
    ground (arith, read_session-focus g i has x (g.slots 0), focus_self g i x l.present)

generate_key_pair-add_pair :
    (o : OpenSsl) (params_ok malloc_ok : Bool) (mechanism : ℕ)
    (pub_template priv_template : List CkAttribute) (handle i : ℕ) (x : HsmSession)
    (a b : HsmObject) (g : HsmContext)
    → IsReady g
    → Leads handle i x g
    → x.user_logged_in ≡ true
    → make_pair o true params_ok malloc_ok mechanism pub_template priv_template
      ≡ some (ckr_ok, a, b)
    → c_generate_key_pair o true params_ok malloc_ok
        (some mechanism)
        pub_template
        priv_template
        true
        handle
        g
      ≡ add_pair 0 a b g
unfolding c_generate_key_pair
generate_key_pair-add_pair o params_ok malloc_ok mechanism pub_template priv_template handle i x a b
      g r l user made =
    let has : 0 < g.slots_len = omega (arith, r.slots_len) in
    let s = g.slots 0 in
    let y = record x { lock = true } in
    ground (
      arith,
      l.found,
      user,
      made,
      l.home,
      lock_session-start g i has x l.present l.free,
      read_session-focus g i has y s,
      unlock_session-focus g i has y s,
      focus-back g i has x l.present l.free,
      read_session-Leads handle i x g r l,
    )

-- The library is running with one slot whose lock is free; the handle leads to a session whose lock is
-- free and on which the user is logged in; the object table is well formed (the count is right,
-- every handle holds a number below the counter, and the handles are distinct), with two entries free
-- and the counter below 2^28 - 2. Both objects can be allocated, and parsing the templates and generating the key succeeds.
-- Then C_GenerateKeyPair returns CKR_OK with two handles; the objects stand in two entries that were
-- free; the first handle leads to the public object and the second to the private one, as they were
-- saved; and the table is still well formed.
pub generate_key_pair-object_of :
    (o : OpenSsl) (params_ok malloc_ok : Bool) (mechanism : ℕ)
    (pub_template priv_template : List CkAttribute) (handle i : ℕ) (x : HsmSession)
    (a b : HsmObject) (g : HsmContext)
    → IsReady g
    → Leads handle i x g
    → x.user_logged_in ≡ true
    → ObjectsOk g.object_counter (g.slots 0)
    → g.object_counter + 2 < 2 ^ 28
    → (g.slots 0).object_count + 2 ≤ hsm_max_objects
    → make_pair o true params_ok malloc_ok mechanism pub_template priv_template
      ≡ some (ckr_ok, a, b)
    → let h1 = handle_base 2 + g.object_counter in
      let h2 = handle_base 3 + ((g.object_counter + 1) % 2 ^ 32) in
      (p q : ℕ) × (p ≢ q)
      × ((g.slots 0).objects p ≡ none)
      × ((g.slots 0).objects q ≡ none)
      × (c_generate_key_pair o true params_ok malloc_ok
            (some mechanism)
            pub_template
            priv_template
            true
            handle
            g
          ≡ done (ckr_ok, some (h1, h2)) (paired p q a b g))
      × (object_of h1 ((paired p q a b g).slots 0) ≡ some (first_saved a g).1)
      × (object_of h2 ((paired p q a b g).slots 0) ≡ some (second_saved a b g).1)
      × ObjectsOk (paired p q a b g).object_counter ((paired p q a b g).slots 0)
generate_key_pair-object_of o params_ok malloc_ok mechanism pub_template priv_template handle i x a
      b g r l user ok small room made =
    let s = g.slots 0 in
    let c = g.object_counter in
    let (p, q, e, f) = free_pair-Places s.objects hsm_max_objects (omega (arith, ok.counted)) in
    let a' = (first_saved a g).1 in
    let b' = (second_saved a b g).1 in
    let (ha, hb, ma, mb) = saved_handles a b g small in
    let at' = update-eq g.slots 0 (slot_paired s p q a' b') in
    let (fa, fb) = pair-object_of s c p q a' b' ok small f ma mb in
    (
      p,
      q,
      (λ w. omega (arith, w, f.order)),
      f.first,
      f.second,
      generate_key_pair-add_pair o params_ok malloc_ok mechanism pub_template priv_template handle i
            x a b g r l user made
          ∙ add_pair-done p q a b g r e,
      rw at' (ap (λ (k : ℕ). object_of k (slot_paired s p q a' b')) (sym ha) ∙ fa),
      rw at' (ap (λ (k : ℕ). object_of k (slot_paired s p q a' b')) (sym hb) ∙ fb),
      rw at' (pair-ObjectsOk s c p q a' b' ok small f ma mb),
    )
