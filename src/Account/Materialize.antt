-- ===== src/Account/Materialize.antt =====
-- The two ways of c_src/nif.cpp to the root of compact slots: a temporary tree, and the resource that
-- `materialize_storage` makes of them.
use mathlib.Core.Option.{none-ne-some}
use diode_server.Base.{
  ℕ, ◌+◌, ◌≡◌, refl, ap, sym, ◌∙◌, true, false, none, some, List, [], ◌∷◌, ◌++◌, ==_refl, length,
  get_or, set, Option-cases, inl, inr, eq_of_some,
}
use diode_server.Base.Bytes.{Bytes}
use diode_server.Base.Cells.{get_or-set, get_or-append, some-length, set_same, set-set}
use diode_server.Trie.{Item, empty}
use diode_server.Merkle.{insert_item, root_hash}
use diode_server.Resource.{SharedState, Merkletree, Heap, at}
use diode_server.Resource.Runs.{with_tree_run, insert_in_place_run}
use diode_server.Account.{AccountEntry, World, in_world, no_slots}
use diode_server.Account.Entry.{
  insert_slots, tree_of_slots, slots_of, materialize_storage, root_of, storage_root_hash_for_entry,
}

-- The world in which a state has another tree
abbrev pub planted_in : World → ℕ → SharedState → Item → World
planted_in w s state t = record w {
  heap = record w.heap { states = set w.heap.states s (some (record state { tree = t })) };
}

module _ (sha : Bytes → Bytes) (fuel : ℕ) where
  -- The loop over the slots builds in a resource the tree that it builds in a variable.
  insert_slots-tree_of_slots :
      (w : World) (mt : ℕ) (r : Merkletree) (state : SharedState) (slots : List (Bytes × Bytes))
      (t : Item)
      → at w.heap.merkletrees mt ≡ some r
      → at w.heap.states r.shared_state ≡ some state
      → tree_of_slots sha fuel state.tree slots ≡ some t
      → insert_slots sha fuel mt slots w ≡ some (tt, planted_in w r.shared_state state t)
  unfolding insert_slots tree_of_slots
  insert_slots-tree_of_slots w mt r state [] t e g run =
      let same : state.tree ≡ t = eq_of_some run in
      let states : w.heap.states
          ≡ set w.heap.states r.shared_state (some (record state { tree = t })) =
        sym (set_same w.heap.states r.shared_state state g)
        ∙ ap (λ u. set w.heap.states r.shared_state (some (record state { tree = u }))) same in
      ap (λ ss. some (tt, record w { heap = record w.heap { states = ss } })) states
  insert_slots-tree_of_slots w mt r state (slot ∷ slots) t e g run =
      elim (Option-cases (insert_item sha fuel state.tree slot.0 slot.1)) [
        | inl i ↦
            let stuck : tree_of_slots sha fuel state.tree (slot ∷ slots) ≡ none =
              rw (i, tree_of_slots) refl in
            absurd (none-ne-some t (sym stuck ∙ run))
        | inr (u, i) ↦
            let s = r.shared_state in
            let now : SharedState = record state { tree = u } in
            let w₁ = planted_in w s state u in
            let rest : tree_of_slots sha fuel u slots ≡ some t =
              sym (rw (i, tree_of_slots) refl) ∙ run in
            let here = ==_refl s in
            let g₁ : at w₁.heap.states s ≡ some now =
              rw
                (get_or-set w.heap.states s s (some now) none (some-length w.heap.states s g), here)
                refl in
            let first = insert_in_place_run sha fuel w.heap mt r state slot.0 slot.1 u e g i in
            let last = insert_slots-tree_of_slots w₁ mt r now slots t e g₁ rest in
            let once : set w₁.heap.states s (some (record now { tree = t }))
                ≡ set w.heap.states s (some (record state { tree = t })) =
              set-set w.heap.states s (some now) (some (record now { tree = t })) in
            rw (first, in_world)
              (last ∙ ap (λ ss. some (tt, record w { heap = record w.heap { states = ss } })) once)
      ]

  -- Of compact slots without a remembered root that the trie takes, `storage_root_hash_for_entry`
  -- gives the root of the tree that `materialize_storage` makes of them, and both return.
  pub materialize_storage-storage_root_hash_for_entry :
      (w : World) (e : AccountEntry) (c : ℕ) (slot : Bytes × Bytes) (slots : List (Bytes × Bytes))
      (t t' : Item) (old root : Bytes)
      → e.storage ≡ none
      → e.compact_storage ≡ some c
      → get_or w.compacts c no_slots
        ≡ record { slots = slot ∷ slots; root_hash = old; has_root = false }
      → tree_of_slots sha fuel empty (slot ∷ slots) ≡ some t
      → root_hash sha fuel t ≡ some (t', root)
      → ((w₁ : World) × (storage_root_hash_for_entry sha fuel e w ≡ some (root, w₁)))
        × ((e' : AccountEntry) × (mt : ℕ) × (w₂ : World) × (w₃ : World) × (materialize_storage sha
                fuel e w
              ≡ some ((e', mt), w₂))
            × (e'.storage ≡ some mt)
            × (root_of sha fuel mt w₂ ≡ some (root, w₃)))
  unfolding storage_root_hash_for_entry materialize_storage slots_of root_of
  materialize_storage-storage_root_hash_for_entry w e c slot slots t t' old root n k held run hash =
      let h = w.heap in
      let mt = length h.merkletrees in
      let s = length h.states in
      let r : Merkletree = record { shared_state = s; references = 1 } in
      let new : SharedState = record { tree = empty; has_clone = 0 } in
      let h₁ : Heap = record {
        states = h.states ++ some new ∷ [];
        merkletrees = h.merkletrees ++ some r ∷ [];
        shared_states = h.shared_states + 1;
      } in
      let w₁ : World = record w { heap = h₁ } in
      let here = ==_refl mt in
      let there = ==_refl s in
      let at_r : at h₁.merkletrees mt ≡ some r =
        rw (get_or-append h.merkletrees mt (some r) none, here) refl in
      let at_s : at h₁.states s ≡ some new =
        rw (get_or-append h.states s (some new) none, there) refl in
      let w₂ : World = planted_in w₁ s new t in
      let full_state : SharedState = record new { tree = t } in
      let at_t : at w₂.heap.states s ≡ some full_state =
        rw (get_or-set h₁.states s s (some full_state) none (some-length h₁.states s at_s), there)
          refl in
      let filled = insert_slots-tree_of_slots w₁ mt r new (slot ∷ slots) t at_r at_s run in
      let rooted =
        with_tree_run w₂.heap mt r full_state (root_hash sha fuel) t' root at_r at_t hash in
      (
        (
          record w {
            compacts =
                set w.compacts c
                  (record { slots = slot ∷ slots; root_hash = root; has_root = true });
          },
          rw (n, k, held, run, hash) refl,
        ),
        (
          record e { storage = some mt; compact_storage = none },
          mt,
          w₂,
          planted_in w₂ s full_state t',
          rw (n, k, held, filled) refl,
          refl,
          rw rooted refl,
        ),
      )
