-- ===== src/Account/Frozen.antt =====
-- Frozen account maps of c_src/nif.cpp: what the functions that change a map do with one, and the
-- steps that leave all maps alone.
use diode_server.Base.{
  ℕ, ◌≡◌, refl, ap, sym, ◌∙◌, Bool, true, false, Option, none, some, Option-cases, Bool-cases, inl,
  inr, if◌then◌else◌, eq_of_some,
}
use diode_server.Base.Bytes.{Bytes}
use diode_server.Terms.{
  Term, atom, integer, binary, empty_list, cell, tuple2, tuple3, tuple4, tuple6, dict, resource,
  badarg, other, get_address, is_list, term_is_nil, term_is_atom_named,
}
use diode_server.Resource.{
  Heap, H, at, alloc_merkletree_resource, release_storage_from_map, insert_in_place,
}
use diode_server.Account.{
  AccountEntry, SharedAccountMap, World, M, ◌>>=◌, pure, on_heap, in_world, load_map, proceed,
  with_address,
}
use diode_server.Account.Parse.{read_pair, read_account}
use diode_server.Account.Change.{
  insert_kv_list, storage_from_kv_list, put_storage, put_meta, put_with, account_map_put,
  account_map_delete,
}
use diode_server.Account.Apply.{account_map_apply_difference, account_map_storage_put_map}

-- The maps and the compact storages are as they were.
abbrev pub Same : World → World → Type 0
Same w w' = (w'.maps ≡ w.maps) × (w'.compacts ≡ w.compacts)

-- A step that leaves the maps and the compact storages alone where it returns
abbrev pub Keeps : {A : Type 0} → M A → Type 0
Keeps {A} m = (w w' : World) (a : A) → m w ≡ some (a, w') → Same w w'

module _ {A B : Type 0} where
  proceed-cases :
      (rest : A → M B) (o : Option (A × World)) (w' : World) (b : B)
      → proceed rest o ≡ some (b, w')
      → (a : A) × (w₁ : World) × (o ≡ some (a, w₁)) × (rest a w₁ ≡ some (b, w'))
  proceed-cases rest none w' b run = cc
  proceed-cases rest (some (a, w₁)) w' b run = (a, w₁, refl, run)

  -- The two steps of a chain that returns
  pub >>=-some :
      (m : M A) (rest : A → M B) (w w' : World) (b : B)
      → (m >>= rest) w ≡ some (b, w')
      → (a : A) × (w₁ : World) × (m w ≡ some (a, w₁)) × (rest a w₁ ≡ some (b, w'))
  >>=-some m rest w w' b run = proceed-cases rest (m w) w' b run

  pub Keeps->>= :
      (m : M A) (rest : A → M B) → Keeps m → ((a : A) → Keeps (rest a)) → Keeps (m >>= rest)
  Keeps->>= m rest k ks w w' b run =
      let (a, w₁, first, last) = >>=-some m rest w w' b run in
      let (maps, compacts) = k w w₁ a first in
      let (maps', compacts') = ks a w₁ w' b last in (maps' ∙ maps, compacts' ∙ compacts)

pub Keeps-pure : {A : Type 0} (a : A) → Keeps (pure a)
Keeps-pure a w w' b run = let same = ap (λ p. p.1) (eq_of_some run) in rw (← same) (refl, refl)

in_world-Same :
    {A : Type 0} (w : World) (o : Option (A × Heap)) (w' : World) (a : A)
    → in_world w o ≡ some (a, w')
    → Same w w'
in_world-Same w none w' a run = cc
in_world-Same w (some (b, h)) w' a run =
    let same = ap (λ p. p.1) (eq_of_some run) in rw (← same) (refl, refl)

pub Keeps-on_heap : {A : Type 0} (step : H A) → Keeps (on_heap step)
Keeps-on_heap step w w' a run = in_world-Same w (step w.heap) w' a run

pub Keeps-if : {A : Type 0} (b : Bool) (x y : M A) → Keeps x → Keeps y → Keeps (if b then x else y)
Keeps-if true x y kx ky = kx
Keeps-if false x y kx ky = ky

module _ (sha : Bytes → Bytes) (fuel : ℕ) where
  insert_head :
      (mt : ℕ) (tail : Term)
      → Keeps (insert_kv_list sha fuel mt tail)
      → (o : Option (Bytes × Bytes))
      → Keeps {A = Bool} (elim o [
        | none ↦ pure false
        | some slot ↦ on_heap (insert_in_place sha fuel mt slot.0 slot.1) >>= λ done.
            insert_kv_list sha fuel mt tail
      ])
  insert_head mt tail k none = Keeps-pure false
  insert_head mt tail k (some slot) =
      Keeps->>= (on_heap (insert_in_place sha fuel mt slot.0 slot.1))
        (λ done. insert_kv_list sha fuel mt tail)
        (Keeps-on_heap (insert_in_place sha fuel mt slot.0 slot.1)) (λ done. k)

  Keeps-insert_kv_list : (mt : ℕ) (list : Term) → Keeps (insert_kv_list sha fuel mt list)
  unfolding insert_kv_list
  Keeps-insert_kv_list mt (cell head tail) =
      insert_head mt tail (Keeps-insert_kv_list mt tail) (read_pair head)
  Keeps-insert_kv_list mt (atom name) = Keeps-pure true
  Keeps-insert_kv_list mt (integer n) = Keeps-pure true
  Keeps-insert_kv_list mt (binary bytes) = Keeps-pure true
  Keeps-insert_kv_list mt empty_list = Keeps-pure true
  Keeps-insert_kv_list mt (tuple2 a b) = Keeps-pure true
  Keeps-insert_kv_list mt (tuple3 a b c) = Keeps-pure true
  Keeps-insert_kv_list mt (tuple4 a b c d) = Keeps-pure true
  Keeps-insert_kv_list mt (tuple6 a b c d e f) = Keeps-pure true
  Keeps-insert_kv_list mt (dict entries) = Keeps-pure true
  Keeps-insert_kv_list mt (resource n) = Keeps-pure true
  Keeps-insert_kv_list mt badarg = Keeps-pure true
  Keeps-insert_kv_list mt other = Keeps-pure true

  Keeps-fresh : Keeps (on_heap alloc_merkletree_resource >>= λ mt. pure (some mt))
  Keeps-fresh =
      Keeps->>= (on_heap alloc_merkletree_resource) _ (Keeps-on_heap alloc_merkletree_resource)
        (λ mt. Keeps-pure (some mt))

  Keeps-storage_from_kv_list : (list : Term) → Keeps (storage_from_kv_list sha fuel list)
  unfolding storage_from_kv_list
  Keeps-storage_from_kv_list list =
      Keeps->>= (on_heap alloc_merkletree_resource) _ (Keeps-on_heap alloc_merkletree_resource)
        (λ mt. Keeps->>= (insert_kv_list sha fuel mt list) _ (Keeps-insert_kv_list mt list) (λ ok.
          Keeps-if ok (pure (some mt)) (on_heap (release_storage_from_map mt) >>= λ done. pure none)
            (Keeps-pure (some mt))
            (Keeps->>= (on_heap (release_storage_from_map mt)) (λ done. pure none)
              (Keeps-on_heap (release_storage_from_map mt)) (λ done. Keeps-pure none))))

  pub Keeps-put_storage : (term : Term) → Keeps (put_storage sha fuel term)
  unfolding put_storage
  Keeps-put_storage term =
      Keeps-if (term_is_nil term) (on_heap alloc_merkletree_resource >>= λ mt. pure (some mt)) _
        Keeps-fresh (by_form term)
    where
      by_form :
          (t : Term)
          → Keeps {A = Option ℕ} (elim t [
            | empty_list ↦ on_heap alloc_merkletree_resource >>= λ mt. pure (some mt)
            | cell head tail ↦ storage_from_kv_list sha fuel term
            | _ ↦ pure none
          ])
      by_form empty_list = Keeps-fresh
      by_form (cell head tail) = Keeps-storage_from_kv_list term
      by_form (atom name) = Keeps-pure none
      by_form (integer n) = Keeps-pure none
      by_form (binary bytes) = Keeps-pure none
      by_form (tuple2 a b) = Keeps-pure none
      by_form (tuple3 a b c) = Keeps-pure none
      by_form (tuple4 a b c d) = Keeps-pure none
      by_form (tuple6 a b c d e f) = Keeps-pure none
      by_form (dict entries) = Keeps-pure none
      by_form (resource n) = Keeps-pure none
      by_form badarg = Keeps-pure none
      by_form other = Keeps-pure none

  -- A frozen map refuses a deletion, a difference and slots, and nothing has changed.
  refused :
      (w : World) (am : ℕ) (shared : SharedAccountMap) (step : M Term)
      → at w.maps am ≡ some shared
      → shared.frozen ≡ true
      → (load_map am >>= λ s. if s.frozen then pure badarg else step) w ≡ some (badarg, w)
  refused w am shared step e f = rw (e, f) refl

  put_with_frozen :
      (w w' : World) (am : ℕ) (shared : SharedAccountMap) (addr : Bytes) (new : AccountEntry)
      (storage : Option ℕ) (answer : Term)
      → at w.maps am ≡ some shared
      → shared.frozen ≡ true
      → put_with sha fuel am addr new storage w ≡ some (answer, w')
      → (answer ≡ badarg) × Same w w'
  unfolding put_with
  put_with_frozen w w' am shared addr new none answer e f run =
      (ap (λ p. p.0) (sym (eq_of_some run)), Keeps-pure badarg w w' answer run)
  put_with_frozen w w' am shared addr new (some mt) answer e f run =
      let step : M Term = on_heap (release_storage_from_map mt) >>= λ done. pure badarg in
      let kept : Keeps step =
        Keeps->>= (on_heap (release_storage_from_map mt)) _
          (Keeps-on_heap (release_storage_from_map mt)) (λ done. Keeps-pure badarg) in
      let now : step w ≡ some (answer, w') = sym (rw (e, f) refl) ∙ run in
      let (done, w₁, first, last) =
        >>=-some (on_heap (release_storage_from_map mt)) (λ done. pure badarg) w w' answer now in
      (ap (λ p. p.0) (sym (eq_of_some last)), kept w w' answer now)

  put_frozen :
      (term_to_binary : Term → Option Bytes) (w w' : World) (am : ℕ) (shared : SharedAccountMap)
      (addr nonce balance storage code answer : Term)
      → at w.maps am ≡ some shared
      → shared.frozen ≡ true
      → account_map_put sha fuel term_to_binary (resource am) addr nonce balance storage code w
        ≡ some (answer, w')
      → (answer ≡ badarg) × Same w w'
  unfolding account_map_put
  put_frozen term_to_binary w w' am shared addr nonce balance storage code answer e f =
      read (read_account term_to_binary addr nonce balance code)
    where
      refuses : Option (Term × World) → Type 0
      refuses o = o ≡ some (answer, w') → (answer ≡ badarg) × Same w w'

      plain : refuses (some (badarg, w))
      plain run = (ap (λ p. p.0) (sym (eq_of_some run)), Keeps-pure badarg w w' answer run)

      stored :
          (addr : Bytes) (new : AccountEntry)
          → refuses ((put_storage sha fuel storage >>= put_with sha fuel am addr new) w)
      stored a new run =
          let (mt, w₁, first, last) =
            >>=-some (put_storage sha fuel storage) (put_with sha fuel am a new) w w' answer run in
          let (maps, compacts) = Keeps-put_storage storage w w₁ mt first in
          let there : at w₁.maps am ≡ some shared = ap (λ ms. at ms am) maps ∙ e in
          let (bad, same) = put_with_frozen w₁ w' am shared a new mt answer there f last in
          (bad, (same.0 ∙ maps, same.1 ∙ compacts))

      read :
          (o : Option (Bytes × AccountEntry))
          → refuses (
              (elim o as (λ x. M Term) [
                | none ↦ pure badarg
                | some (a, new) ↦
                    if term_is_atom_named storage "keep"
                    then (load_map am >>= λ s.
                        if s.frozen
                        then pure badarg
                        else put_meta sha fuel am a new >>= λ done. pure (resource am))
                    else put_storage sha fuel storage >>= put_with sha fuel am a new
              ])
                w)
      read none = plain
      read (some (a, new)) = elim (Bool-cases (term_is_atom_named storage "keep")) [
        | inl keep ↦ rw (keep, e, f) plain
        | inr keep ↦ rw keep (stored a new)
      ]

  -- A frozen map refuses every change: a deletion, a difference and slots of any form give badarg and
  -- leave the world as it is, and a put that returns gives badarg and leaves all maps and compact
  -- storages as they are.
  pub frozen-Same :
      (term_to_binary : Term → Option Bytes) (w : World) (am : ℕ) (shared : SharedAccountMap)
      → at w.maps am ≡ some shared
      → shared.frozen ≡ true
      → ((addr : Term) → account_map_delete sha fuel (resource am) addr w ≡ some (badarg, w))
        × ((list : Term)
            → account_map_apply_difference sha fuel term_to_binary (resource am) list w
              ≡ some (badarg, w))
        × ((list : Term)
            → account_map_storage_put_map sha fuel (resource am) list w ≡ some (badarg, w))
        × ((addr nonce balance storage code answer : Term) (w' : World)
            → account_map_put sha fuel term_to_binary
                (resource am)
                addr
                nonce
                balance
                storage
                code
                w
              ≡ some (answer, w')
            → (answer ≡ badarg) × Same w w')
  unfolding account_map_delete account_map_apply_difference account_map_storage_put_map
  frozen-Same term_to_binary w am shared e f = (
    (λ addr. elim (Option-cases (get_address addr)) [
      | inl bad ↦ rw (bad, with_address) refl
      | inr (a, good) ↦ rw (good, with_address, e, f) refl
    ]),
    (λ list. elim (Bool-cases (is_list list)) [
      | inl good ↦ rw (good, e, f) refl
      | inr bad ↦ rw bad refl
    ]),
    (λ list. elim (Bool-cases (is_list list)) [
      | inl good ↦ rw (good, e, f) refl
      | inr bad ↦ rw bad refl
    ]),
    (λ addr nonce balance storage code answer w'.
        put_frozen term_to_binary w w' am shared addr nonce balance storage code answer e f),
  )
