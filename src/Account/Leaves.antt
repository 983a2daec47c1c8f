-- ===== src/Account/Leaves.antt =====
-- Steps on account maps (c_src/nif.cpp) that leave every map as it is, and what their answers satisfy.
use diode_server.Base.{
  ℕ, ◌≡◌, refl, ap, sym, ◌∙◌, Bool, true, false, Option, none, some, if◌then◌else◌, eq_of_some,
  ◌==◌, List, [], ◌∷◌, get_or, set,
}
use diode_server.Base.Bytes.{Bytes}
use diode_server.Trie.{empty}
use diode_server.Merkle.{root_hash}
use diode_server.Resource.{
  H, at, with_tree, alloc_merkletree_resource, release_storage_from_map, insert_in_place,
}
use diode_server.Account.{
  AccountEntry, SharedAccountMap, CompactStorage, World, M, ◌>>=◌, pure, on_heap, lift, load_map,
  load_compact, store_compact, empty_storage, no_slots,
}
use diode_server.Account.Entry.{
  release_entry_storage, slots_of, insert_slots, tree_of_slots, materialize_storage, root_of,
  storage_root_hash_for_entry,
}
use diode_server.Account.Frozen.{Keeps-on_heap, >>=-some}

-- Where the step returns, the maps are as they were, and the answer satisfies the predicate.
abbrev pub Leaves : {A : Type 0} → (A → Type 0) → M A → Type 0
Leaves {A} P m = (w w' : World) (a : A) → m w ≡ some (a, w') → (w'.maps ≡ w.maps) × P a

-- Nothing is said of an answer.
abbrev pub Any : {A : Type 0} → A → Type 0
Any a = Unit {0}

pub Leaves->>= :
    {A B : Type 0} (P : A → Type 0) (Q : B → Type 0) (m : M A) (rest : A → M B)
    → Leaves P m
    → ((a : A) → P a → Leaves Q (rest a))
    → Leaves Q (m >>= rest)
Leaves->>= P Q m rest k ks w w' b run =
    let (a, w₁, first, last) = >>=-some m rest w w' b run in
    let (maps, p) = k w w₁ a first in let (maps', q) = ks a p w₁ w' b last in (maps' ∙ maps, q)

pub Leaves-pure : {A : Type 0} (P : A → Type 0) (a : A) → P a → Leaves P (pure a)
Leaves-pure P a p w w' b run =
    let e = eq_of_some run in rw (← ap (λ r. r.1) e, ← ap (λ r. r.0) e) (refl, p)

pub Leaves-on_heap : {A : Type 0} (step : H A) → Leaves Any (on_heap step)
Leaves-on_heap step w w' a run = ((Keeps-on_heap step w w' a run).0, tt)

pub Leaves-lift : {A : Type 0} (o : Option A) → Leaves Any (lift o)
Leaves-lift none w w' a run = cc
Leaves-lift (some b) w w' a run = Leaves-pure Any b tt w w' a run

pub Leaves-if :
    {A : Type 0} (P : A → Type 0) (b : Bool) (x y : M A)
    → Leaves P x
    → Leaves P y
    → Leaves P (if b then x else y)
Leaves-if P true x y kx ky = kx
Leaves-if P false x y kx ky = ky

-- A map is where it was, and is the answer.
pub load_map-some :
    (am : ℕ) (w w' : World) (shared : SharedAccountMap)
    → load_map am w ≡ some (shared, w')
    → (w' ≡ w) × (at w.maps am ≡ some shared)
load_map-some am w w' shared = by_case (at w.maps am)
  where
    by_case :
        (o : Option SharedAccountMap) → lift o w ≡ some (shared, w') → (w' ≡ w) × (o ≡ some shared)
    by_case none run = cc
    by_case (some s) run = let e = eq_of_some run in (sym (ap (λ r. r.1) e), ap (λ r. some r.0) e)

pub Leaves-load_map : (am : ℕ) → Leaves Any (load_map am)
Leaves-load_map am w w' shared run = (ap (λ v. v.maps) (load_map-some am w w' shared run).0, tt)

-- The fields of an entry that a put writes
pub record Fields (e new : AccountEntry) : Type 0 where
  pub nonce : e.nonce ≡ new.nonce
  pub balance : e.balance ≡ new.balance
  pub code : e.code ≡ new.code

pub Fields-refl : (e : AccountEntry) → Fields e e
Fields-refl e = record { nonce = refl; balance = refl; code = refl }

released :
    (shared_tree : ℕ) (storage : Option ℕ)
    → Leaves {A = Unit {0}} Any (elim storage [
      | none ↦ pure tt
      | some mt ↦ if mt == shared_tree then pure tt else on_heap (release_storage_from_map mt)
    ])
released shared_tree none = Leaves-pure Any tt tt
released shared_tree (some mt) =
    Leaves-if Any (mt == shared_tree) (pure tt) _ (Leaves-pure Any tt tt)
      (Leaves-on_heap (release_storage_from_map mt))

pub Leaves-release_entry_storage : (e : AccountEntry) → Leaves Any (release_entry_storage e)
unfolding release_entry_storage
Leaves-release_entry_storage e w =
    Leaves->>= Any Any _ (λ done. pure (record e { storage = none; compact_storage = none }))
      (released w.empty_storage_tree e.storage)
      (λ done q. Leaves-pure Any (record e { storage = none; compact_storage = none }) tt) w

Leaves-slots_of : (e : AccountEntry) → Leaves Any (slots_of e)
unfolding slots_of
Leaves-slots_of e = by_case e.compact_storage
  where
    by_case :
        (c : Option ℕ)
        → Leaves {A = List (Bytes × Bytes)} Any
            (elim c [ none ↦ pure [] | some c ↦ load_compact c >>= λ compact. pure compact.slots ])
    by_case none = Leaves-pure Any [] tt
    by_case (some c) = λ w. Leaves-pure Any (get_or w.compacts c no_slots).slots tt w

module _ (sha : Bytes → Bytes) (fuel : ℕ) where
  Leaves-insert_slots :
      (mt : ℕ) (slots : List (Bytes × Bytes)) → Leaves Any (insert_slots sha fuel mt slots)
  unfolding insert_slots
  Leaves-insert_slots mt [] = Leaves-pure Any tt tt
  Leaves-insert_slots mt (slot ∷ slots) =
      Leaves->>= Any Any _ _ (Leaves-on_heap (insert_in_place sha fuel mt slot.0 slot.1))
        (λ done q. Leaves-insert_slots mt slots)

  pub Leaves-root_of : (mt : ℕ) → Leaves Any (root_of sha fuel mt)
  unfolding root_of
  Leaves-root_of mt = Leaves-on_heap (with_tree mt (root_hash sha fuel))

  -- The entry that comes out has the fields of the one that went in.
  pub Leaves-materialize_storage :
      (e : AccountEntry) → Leaves (λ r. Fields r.0 e) (materialize_storage sha fuel e)
  unfolding materialize_storage
  Leaves-materialize_storage e = by_case e.storage
    where
      same : AccountEntry × ℕ → Type 0
      same r = Fields r.0 e

      by_case :
          (storage : Option ℕ)
          → Leaves {A = AccountEntry × ℕ} same (elim storage [
            | some mt ↦ pure (e, mt)
            | none ↦ slots_of e >>= λ slots. on_heap alloc_merkletree_resource >>= λ mt.
                insert_slots sha fuel mt slots >>= λ done.
                pure (record e { storage = some mt; compact_storage = none }, mt)
          ])
      by_case (some mt) = Leaves-pure same (e, mt) (Fields-refl e)
      by_case none = Leaves->>= Any same (slots_of e) _ (Leaves-slots_of e) (λ slots q.
          Leaves->>= Any same _ _ (Leaves-on_heap alloc_merkletree_resource) (λ mt q.
            Leaves->>= Any same _ _ (Leaves-insert_slots mt slots) (λ done q.
              Leaves-pure same (record e { storage = some mt; compact_storage = none }, mt)
                (record { nonce = refl; balance = refl; code = refl }))))

  pub Leaves-storage_root_hash_for_entry :
      (e : AccountEntry) → Leaves Any (storage_root_hash_for_entry sha fuel e)
  unfolding storage_root_hash_for_entry
  Leaves-storage_root_hash_for_entry e = by_storage e.storage e.compact_storage
    where
      rooted : CompactStorage → Bytes → CompactStorage
      rooted compact root = record compact { root_hash = root; has_root = true }

      written : ℕ → CompactStorage → Bytes → M Bytes
      written c compact root = store_compact c (rooted compact root) >>= λ done. pure root

      Leaves-written :
          (c : ℕ) (compact : CompactStorage) (root : Bytes) → Leaves Any (written c compact root)
      Leaves-written c compact root w =
          Leaves-pure Any root tt (record w { compacts = set w.compacts c (rooted compact root) })

      by_slots :
          (c : ℕ) (compact : CompactStorage) (slots : List (Bytes × Bytes))
          → Leaves {A = Bytes} Any (elim slots [
            | [] ↦ empty_storage >>= λ mt. root_of sha fuel mt >>= λ root. written c compact root
            | slot ∷ slots' ↦
                if compact.has_root
                then pure compact.root_hash
                else (lift (tree_of_slots sha fuel empty compact.slots) >>= λ t.
                    lift (root_hash sha fuel t) >>= λ r. written c compact r.1)
          ])
      by_slots c compact [] = λ w.
          Leaves->>= Any Any (root_of sha fuel w.empty_storage_tree) (written c compact)
            (Leaves-root_of w.empty_storage_tree) (λ root q. Leaves-written c compact root) w
      by_slots c compact (slot ∷ slots) =
          Leaves-if Any compact.has_root _ _ (Leaves-pure Any compact.root_hash tt) (
            Leaves->>= Any Any _ _ (Leaves-lift (tree_of_slots sha fuel empty compact.slots))
              (λ t q.
                Leaves->>= Any Any (lift (root_hash sha fuel t)) (λ r. written c compact r.1)
                  (Leaves-lift (root_hash sha fuel t)) (λ r q. Leaves-written c compact r.1)))

      by_storage :
          (storage compact_storage : Option ℕ)
          → Leaves {A = Bytes} Any (elim storage [
            | some mt ↦ root_of sha fuel mt
            | none ↦ elim compact_storage [
              | none ↦ empty_storage >>= λ mt. root_of sha fuel mt
              | some c ↦ load_compact c >>= λ compact. elim compact.slots [
                | [] ↦
                    empty_storage >>= λ mt. root_of sha fuel mt >>= λ root. written c compact root
                | slot ∷ slots' ↦
                    if compact.has_root
                    then pure compact.root_hash
                    else (lift (tree_of_slots sha fuel empty compact.slots) >>= λ t.
                        lift (root_hash sha fuel t) >>= λ r. written c compact r.1)
              ]
            ]
          ])
      by_storage (some mt) compact_storage = Leaves-root_of mt
      by_storage none none = λ w. Leaves-root_of w.empty_storage_tree w
      by_storage none (some c) =
          λ w. let compact = get_or w.compacts c no_slots in by_slots c compact compact.slots w
