-- ===== src/Resource/Calls.antt =====
-- Runs of the functions on resources of c_src/nif.cpp, as steps of the heap.
use mathlib.Core.Option.{none-ne-some}
use diode_server.Base.{
  Option, Option-cases, ℕ, Bool, false, ltb, ◌≡◌, refl, ap, sym, subst, ◌∙◌, none, some, [], inl,
  inr, eq_of_some,
}
use diode_server.Base.Cells.{is_some}
use diode_server.Base.Bytes.{Bytes}
use diode_server.Trie.{Item}
use diode_server.Merkle.{insert_item, root_hash}
use diode_server.Resource.{
  SharedState, Merkletree, Heap, H, at, alloc_merkletree_resource, keep_storage_in_map,
  release_storage_from_map, clone_merkletree_locked, make_writeable_locked, with_tree,
  insert_in_place, insert_writeable, new_state,
}
use diode_server.Resource.Views.{gone, there, load, tree_at, tree_at-none, tree_at-some}
use diode_server.Resource.Runs.{Returns, insert_writeable-none}
use diode_server.Resource.Refines.{
  Store, Added, Copied, Wrote, Released, Unchanged, view, Sound, Outcome,
}
use diode_server.Resource.Outcomes.{
  alloc_outcome, keep_outcome, clone_outcome, release_outcome, insert_outcome, fill_outcome,
  root_outcome,
}

-- A tree that no other resource shares
pub record IsExclusive (h : Heap) (mt : ℕ) : Type 0 where
  pub r : Merkletree
  pub state : SharedState
  pub at_resource : at h.merkletrees mt ≡ some r
  pub at_state : at h.states r.shared_state ≡ some state
  pub alone : state.has_clone ≡ 0

-- Whether a release leaves other references to the resource
abbrev more_behind : Option Merkletree → Bool
more_behind none = false
more_behind (some r) = ltb 1 r.references

abbrev pub more_references : Heap → ℕ → Bool
more_references h mt = more_behind (at h.merkletrees mt)

-- The heap before `on_load`
abbrev pub no_heap : Heap
no_heap = record { states = []; merkletrees = []; shared_states = 0 }

module _ (sha : Bytes → Bytes) (fuel : ℕ) where
  -- A call that returns. The code fills trees in place only where it has just allocated them.
  pub data Step (h : Heap) (h' : Heap) : Type 0 where
    allocated : (mt : ℕ) → Returns alloc_merkletree_resource h mt h' → Step h h'
    kept : (mt : ℕ) → Returns (keep_storage_in_map mt) h tt h' → Step h h'
    released : (mt : ℕ) → Returns (release_storage_from_map mt) h tt h' → Step h h'
    cloned : (mt new : ℕ) → Returns (clone_merkletree_locked mt) h new h' → Step h h'
    inserted :
        (mt : ℕ) (key value : Bytes)
        → Returns (insert_writeable sha fuel mt key value) h tt h'
        → Step h h'
    filled :
        (mt : ℕ) (key value : Bytes)
        → IsExclusive h mt
        → Returns (insert_in_place sha fuel mt key value) h tt h'
        → Step h h'
    rooted :
        (mt : ℕ) (digest : Bytes)
        → Returns (with_tree mt (root_hash sha fuel)) h digest h'
        → Step h h'

  -- What a call does to the store of values
  abbrev pub Effect : {h h' : Heap} → Step h h' → Store → Store → Type 0
  Effect (allocated mt run) = Added sha mt
  Effect (kept mt run) = Unchanged sha
  Effect {h} (released mt run) = Released sha (more_references h mt) mt
  Effect (cloned mt new run) = Copied sha mt new
  Effect (inserted mt key value run) = Wrote sha mt key value
  Effect (filled mt key value alone run) = Wrote sha mt key value
  Effect (rooted mt digest run) = Unchanged sha

  -- One call has one result.
  same_result :
      {Answer : Type 0} (step : H Answer) (Effect : Answer → Store → Store → Type 0)
      (h h₁ h₂ : Heap) (a b : Answer)
      → Returns step h a h₁
      → Returns step h b h₂
      → Outcome sha (Effect a) h h₁
      → Outcome sha (Effect b) h h₂
  same_result step Effect h h₁ h₂ a b one two =
      subst (λ r. Outcome sha (Effect r.0) h r.1) (eq_of_some (sym one ∙ two))

  -- Only a call at a resource that is there returns.
  lost :
      {Answer : Type 0} (step : H Answer) (Effect : Store → Store → Type 0) (h h' : Heap)
      (a : Answer)
      → step h ≡ none
      → Returns step h a h'
      → Outcome sha Effect h h'
  lost step Effect h h' a n run = absurd (none-ne-some (a, h') (sym n ∙ run))

  -- A call that returns from a sound heap leaves a sound heap and does to the store of values what its
  -- kind says: the resource that alloc_merkletree_resource returns is new and has no slots, the one
  -- that clone_merkletree_locked returns is new and has the slots of its original, a write of a key
  -- behind make_writeable_locked or to a tree that nothing shares sets the slot of that key in its own
  -- resource, or deletes it if the value is null, a release removes its resource if the reference is the
  -- last, and anything else that anyone sees stays, behind reference counts and root hashes too.
  pub Step-Refines :
      (h h' : Heap) (call : Step h h')
      → Sound sha h
      → Sound sha h' × Effect call (view sha h) (view sha h')
  unfolding keep_storage_in_map release_storage_from_map clone_merkletree_locked
      make_writeable_locked with_tree insert_in_place insert_writeable new_state
  Step-Refines h h' (allocated mt run) s =
      let (h₁, one, done) = alloc_outcome sha h s in
      same_result alloc_merkletree_resource (λ mt. Added sha mt) h h₁ h' _ mt one run done
  Step-Refines h h' (kept mt run) s = elim (load h mt s.counted) [
    | gone n ↦ lost (keep_storage_in_map mt) (Unchanged sha) h h' tt (rw n refl) run
    | there r state e g ↦
        let (h₁, one, done) = keep_outcome sha h mt r s e in
        same_result (keep_storage_in_map mt) (λ u. Unchanged sha) h h₁ h' tt tt one run done
  ]
  Step-Refines h h' (released mt run) s = elim (load h mt s.counted) [
    | gone n ↦
        lost (release_storage_from_map mt) (Released sha (more_references h mt) mt) h h' tt
          (rw n refl) run
    | there r state e g ↦
        let (h₁, one, done) = release_outcome sha h mt r state s e g in
        subst (λ more. Outcome sha (Released sha more mt) h h') (sym (ap more_behind e))
          (same_result (release_storage_from_map mt) (λ u. Released sha (ltb 1 r.references) mt) h
            h₁ h' tt tt one run done)
  ]
  Step-Refines h h' (cloned mt new run) s = elim (load h mt s.counted) [
    | gone n ↦ lost (clone_merkletree_locked mt) (Copied sha mt new) h h' new (rw n refl) run
    | there r state e g ↦
        let (h₁, one, done) = clone_outcome sha h mt r state s e g in
        same_result (clone_merkletree_locked mt) (λ n. Copied sha mt n) h h₁ h' _ new one run done
  ]
  Step-Refines h h' (inserted mt key value run) s = elim (load h mt s.counted) [
    | gone n ↦
        lost (insert_writeable sha fuel mt key value) (Wrote sha mt key value) h h' tt (rw n refl)
          run
    | there r state e g ↦
        let call = insert_writeable sha fuel mt key value in
        elim (Option-cases (insert_item sha fuel state.tree key value)) [
          | inl i ↦
              lost call (Wrote sha mt key value) h h' tt
                (insert_writeable-none sha fuel h mt r state key value s.counted e g i) run
          | inr (t, i) ↦
              let (h₁, one, done) = insert_outcome sha fuel h mt r state key value t s e g i in
              same_result call (λ u. Wrote sha mt key value) h h₁ h' tt tt one run done
        ]
  ]
  Step-Refines h h' (filled mt key value x run) s =
      let call = insert_in_place sha fuel mt key value in
      let e = x.at_resource in
      let g = x.at_state in
      elim (Option-cases (insert_item sha fuel x.state.tree key value)) [
        | inl i ↦ lost call (Wrote sha mt key value) h h' tt (rw (e, g, i) refl) run
        | inr (t, i) ↦
            let (h₁, one, done) =
              fill_outcome sha fuel h mt x.r x.state key value t s e g x.alone i in
            same_result call (λ u. Wrote sha mt key value) h h₁ h' tt tt one run done
      ]
  Step-Refines h h' (rooted mt digest run) s =
      let call = with_tree mt (root_hash sha fuel) in
      elim (load h mt s.counted) [
        | gone n ↦ lost call (Unchanged sha) h h' digest (rw n refl) run
        | there r state e g ↦ elim (Option-cases (root_hash sha fuel state.tree)) [
          | inl i ↦ lost call (Unchanged sha) h h' digest (rw (e, g, i) refl) run
          | inr ((t, root), i) ↦
              let (h₁, one, done) = root_outcome sha fuel h mt r state t root s e g i in
              same_result call (λ u. Unchanged sha) h h₁ h' root digest one run done
        ]
      ]

  pub no_heap-Sound : Sound sha no_heap
  unfolding tree_at
  no_heap-Sound = record {
    counted = record { owned = λ s. refl; shared = refl };
    trees = λ mt t e. cc;
  }

  -- The heaps that calls lead to
  pub data Reach : Heap → Type 0 where
    start : Reach no_heap
    next : {h h' : Heap} → Reach h → Step h h' → Reach h'

  -- In every heap that calls lead to, each state that is there has one resource more than
  -- `has_clone`, a freed state has none, the statistic `shared_states` is the number of states that
  -- are there, and every tree that a resource sees is well formed.
  pub Reach-Sound : (h : Heap) → Reach h → Sound sha h
  Reach-Sound h start = no_heap-Sound
  Reach-Sound h (next {h = before} r st) = (Step-Refines before h st (Reach-Sound before r)).0

  -- At a resource of a sound heap that sees a tree no pointer to a resource or a state that these calls
  -- follow is freed: `keep_storage_in_map`, `clone_merkletree_locked` and `release_storage_from_map`
  -- return, and a write behind `make_writeable_locked` returns exactly if the trie takes it.
  pub view-Returns :
      (h : Heap) (mt : ℕ) (t : Item) (key value : Bytes)
      → Sound sha h
      → tree_at h mt ≡ some t
      → ((h' : Heap) × Returns (keep_storage_in_map mt) h tt h')
        × ((new : ℕ) × (h' : Heap) × Returns (clone_merkletree_locked mt) h new h')
        × ((h' : Heap) × Returns (release_storage_from_map mt) h tt h')
        × (is_some (insert_writeable sha fuel mt key value h)
            ≡ is_some (insert_item sha fuel t key value))
  view-Returns h mt t key value s seen = elim (load h mt s.counted) [
    | gone n ↦ absurd (none-ne-some t (sym (tree_at-none h mt n) ∙ seen))
    | there r state e g ↦
        let same : state.tree ≡ t = eq_of_some (sym (tree_at-some h mt r state e g) ∙ seen) in
        let as_before = ap (λ u. insert_item sha fuel u key value) same in
        let (h₁, run₁, _) = keep_outcome sha h mt r s e in
        let (h₂, run₂, _) = clone_outcome sha h mt r state s e g in
        let (h₃, run₃, _) = release_outcome sha h mt r state s e g in
        (
          (h₁, run₁),
          (_, h₂, run₂),
          (h₃, run₃),
          elim (Option-cases (insert_item sha fuel t key value)) [
            | inl i ↦
                let stuck =
                  insert_writeable-none sha fuel h mt r state key value s.counted e g
                    (as_before ∙ i) in
                rw (stuck, i) refl
            | inr (t', i) ↦
                let (h₄, run, _) =
                  insert_outcome sha fuel h mt r state key value t' s e g (as_before ∙ i) in
                rw (run, i) refl
          ],
        )
  ]
