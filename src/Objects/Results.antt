-- ===== src/Objects/Results.antt =====
-- The handles that a search of hsm/src/pkcs11/objects.c collects (found), and those that
-- C_FindObjects takes from them.
use pst_boitier_pki.Common.{
  true, if◌then◌else◌, not, append-nil, window, ℕ, zero, suc, ◌+◌, ◌-◌, ◌%◌, ◌^◌, ◌≡◌, ◌<◌, ◌≤◌,
  refl, Option, none, some, List, [], ◌∷◌, ◌++◌, take, drop, ltb, arith, ap, ◌∙◌, sym, inl, inr,
  Bool-cases, Option-cases, update, update-eq, update-ne,
}
use pst_boitier_pki.Hsm.State.{HsmSession, HsmObject, hsm_max_objects, hsm_max_find_objects}
use pst_boitier_pki.Objects.{find_objects_loop, hsm_find_objects, take_results}

-- The handles of the objects in `n` entries of the table from entry `i`.
abbrev pub handles : (ℕ → Option HsmObject) → (n i : ℕ) → List ℕ
handles objects zero i = []
handles objects (suc n) i = elim (objects i) [
  | none ↦ handles objects n (suc i)
  | some o ↦ o.handle ∷ handles objects n (suc i)
]

-- What the loops of a search do to the session while they stay inside the array of results.
unfoldable pub collected : (ℕ → Option HsmObject) → ℕ → ℕ → HsmSession → HsmSession
collected objects zero i x = x
collected objects (suc n) i x =
    if not (ltb x.find_count hsm_max_find_objects) then x else elim (objects i) [
      | none ↦ collected objects n (suc i) x
      | some o ↦ collected objects n (suc i) (record x {
        find_results = update x.find_results x.find_count o.handle;
        find_count = x.find_count + 1;
      })
    ]

unfoldable pub found : (ℕ → Option HsmObject) → HsmSession → HsmSession
found objects x = collected objects hsm_max_objects 0 (record x { find_count = 0 })

unfoldable pub taken : ℕ → HsmSession → List ℕ × HsmSession
taken zero x = ([], x)
taken (suc n) x =
    let (handles', x') = taken n (record x { find_index = (x.find_index + 1) % 2 ^ 32 }) in
    if ltb x.find_index x.find_count then (x.find_results x.find_index ∷ handles', x') else ([], x)

find_objects_loop-collected :
    (objects : ℕ → Option HsmObject) (n i : ℕ) (x : HsmSession)
    → find_objects_loop objects n i x ≡ some (collected objects n i x)
unfolding find_objects_loop collected
find_objects_loop-collected objects zero i x = refl
find_objects_loop-collected objects (suc n) i x =
    elim (Bool-cases (ltb x.find_count hsm_max_find_objects)) [
      | inr full ↦ rw full refl
      | inl room ↦ elim (Option-cases (objects i)) [
        | inl e ↦ rw (room, e) (find_objects_loop-collected objects n (suc i) x)
        | inr (o, e) ↦
            let x1 = record x {
              find_results = update x.find_results x.find_count o.handle;
              find_count = x.find_count + 1;
            } in
            ground (arith, room, e, find_objects_loop-collected objects n (suc i) x1)
      ]
    ]

-- hsm_find_objects writes inside the array of results.
pub find_objects-found :
    (objects : ℕ → Option HsmObject) (x : HsmSession)
    → hsm_find_objects objects x ≡ some (found objects x)
unfolding hsm_find_objects found
find_objects-found objects x =
    find_objects_loop-collected objects hsm_max_objects 0 (record x { find_count = 0 })

-- The loop of C_FindObjects reads inside it, where no more than its size was counted.
pub take_results-taken :
    (m : ℕ) (x : HsmSession)
    → x.find_count ≤ hsm_max_find_objects
    → take_results m x ≡ some (taken m x)
unfolding take_results taken
take_results-taken zero x le = refl
take_results-taken (suc m) x le = elim (Bool-cases (ltb x.find_index x.find_count)) [
  | inr e ↦ rw e refl
  | inl e ↦
      let inside : ltb x.find_index hsm_max_find_objects ≡ true = ground (arith, e, le) in
      let x1 = record x { find_index = (x.find_index + 1) % 2 ^ 32 } in
      rw (e, inside, take_results-taken m x1 le) refl
]

-- The results that a search has still to give.
abbrev pub remains : HsmSession → List ℕ
remains x = window x.find_results x.find_index (x.find_count - x.find_index)

window-update : (f : ℕ → ℕ) (i n c h : ℕ) → i + n ≤ c → window (update f c h) i n ≡ window f i n
window-update f i zero c h le = refl
window-update f i (suc n) c h le =
    rw (update-ne f c h i (ground arith), window-update f (suc i) n c h (omega arith))

append_snoc : (xs : List ℕ) (h : ℕ) (ys : List ℕ) → (xs ++ (h ∷ [])) ++ ys ≡ xs ++ (h ∷ ys)
append_snoc [] h ys = refl
append_snoc (x ∷ xs) h ys = ap (◌∷◌ x) (append_snoc xs h ys)

window-snoc : (f : ℕ → ℕ) (i n : ℕ) → window f i (suc n) ≡ window f i n ++ (f (i + n) ∷ [])
window-snoc f i zero = ap (λ (k : ℕ). f k ∷ []) (omega arith)
window-snoc f i (suc n) =
    ap (◌∷◌ (f i))
      (window-snoc f (suc i) n ∙ ap (λ (k : ℕ). window f (suc i) n ++ (f k ∷ [])) (omega arith))

-- The results after a round that finds handle `h`.
window-push : (f : ℕ → ℕ) (c h : ℕ) → window (update f c h) 0 (suc c) ≡ window f 0 c ++ (h ∷ [])
window-push f c h =
    window-snoc (update f c h) 0 c
    ∙ rw (window-update f 0 c c h (omega arith)) (
        ap (λ (k : ℕ). window f 0 c ++ (k ∷ []))
          (ap (update f c h) (zero_plus c) ∙ update-eq f c h))
  where
    zero_plus : (n : ℕ) → 0 + n ≡ n
    zero_plus n = omega arith

take-suc :
    (c h : ℕ) (rest : List ℕ) → c < 100 → take (100 - c) (h ∷ rest) ≡ h ∷ take (100 - (c + 1)) rest
take-suc c h rest less =
    ap (λ (k : ℕ). take k (h ∷ rest)) (sym (pred (100 - c) (omega arith)))
    ∙ ap (λ (k : ℕ). h ∷ take k rest) (omega arith)
  where
    pred : (m : ℕ) → 0 < m → suc (m - 1) ≡ m
    pred m p = omega arith

plus_one : (c : ℕ) → c + 1 ≡ suc c
plus_one c = omega arith

collected-window :
    (objects : ℕ → Option HsmObject) (n i : ℕ) (x : HsmSession)
    → x.find_count ≤ hsm_max_find_objects
    → let x' = collected objects n i x in
      (window x'.find_results 0 x'.find_count
        ≡ window x.find_results 0 x.find_count ++ take (100 - x.find_count) (handles objects n i))
      × (x'.find_count ≤ hsm_max_find_objects)
unfolding collected
collected-window objects zero i x le = (
  sym (
      ap (λ (ys : List ℕ). window x.find_results 0 x.find_count ++ ys)
        (take-nil (100 - x.find_count))
      ∙ append-nil _),
  le,
)
  where
    take-nil : (m : ℕ) → take {A = ℕ} m [] ≡ []
    take-nil zero = refl
    take-nil (suc m) = refl
collected-window objects (suc n) i x le =
    let c = x.find_count in
    elim (Bool-cases (ltb c hsm_max_find_objects)) [
      | inr full ↦
          let none_left : 100 - c ≡ 0 = ground arith in
          rw (full, none_left) (sym (append-nil _), le)
      | inl room ↦ elim (Option-cases (objects i)) [
        | inl e ↦ rw (room, e, handles) (collected-window objects n (suc i) x le)
        | inr (o, e) ↦
            let x1 = record x {
              find_results = update x.find_results c o.handle;
              find_count = c + 1;
            } in
            let (w, le') = collected-window objects n (suc i) x1 (ground arith) in
            rw (room, e, handles)
              (w ∙ step c o.handle (handles objects n (suc i)) (ground arith), le')
      ]
    ]
  where
    step :
        (c h : ℕ) (rest : List ℕ)
        → c < 100
        → window (update x.find_results c h) 0 (c + 1) ++ take (100 - (c + 1)) rest
          ≡ window x.find_results 0 c ++ take (100 - c) (h ∷ rest)
    step c h rest less = rw (take-suc c h rest less) (
        ap (λ (ys : List ℕ). ys ++ take (100 - (c + 1)) rest)
          (ap (window (update x.find_results c h) 0) (plus_one c) ∙ window-push x.find_results c h)
        ∙ append_snoc (window x.find_results 0 c) h (take (100 - (c + 1)) rest))

pub taken-remains :
    (m : ℕ) (x : HsmSession)
    → x.find_count ≤ hsm_max_find_objects
    → let (handles', x') = taken m x in
      (handles' ≡ take m (remains x))
      × (remains x' ≡ drop m (remains x))
      × (x'.find_count ≡ x.find_count)
unfolding taken
taken-remains zero x le = (refl, refl, refl)
taken-remains (suc m) x le = elim (Bool-cases (ltb x.find_index x.find_count)) [
  | inr done' ↦
      let none_left : x.find_count - x.find_index ≡ 0 = ground arith in
      rw (done', none_left) (refl, refl, refl)
  | inl more ↦
      let i = x.find_index in
      let x1 = record x { find_index = (i + 1) % 2 ^ 32 } in
      let next : (i + 1) % 2 ^ 32 ≡ suc i = ground arith in
      let fewer : x.find_count - (i + 1) % 2 ^ 32 ≡ (x.find_count - i) - 1 = ground arith in
      let some_left : x.find_count - i ≡ suc ((x.find_count - i) - 1) = ground arith in
      let now : remains x ≡ x.find_results i ∷ remains x1 =
        ap (window x.find_results i) some_left
        ∙ ap (λ (l : List ℕ). x.find_results i ∷ l)
            (sym (
              ap (λ (k : ℕ). window x.find_results k (x.find_count - (i + 1) % 2 ^ 32)) next
              ∙ ap (window x.find_results (suc i)) fewer)) in
      let (got, left, same) = taken-remains m x1 le in
      (
        ground (arith, more, got) ∙ ap (take (suc m)) (sym now),
        ground (arith, more, left) ∙ ap (drop (suc m)) (sym now),
        ground (arith, more, same),
      )
]

pub window-take :
    (objects : ℕ → Option HsmObject) (x : HsmSession)
    → let y = found objects x in
      (window y.find_results 0 y.find_count ≡ take 100 (handles objects hsm_max_objects 0))
      × (y.find_count ≤ hsm_max_find_objects)
unfolding found
window-take objects x =
    collected-window objects hsm_max_objects 0 (record x { find_count = 0 }) (omega arith)
