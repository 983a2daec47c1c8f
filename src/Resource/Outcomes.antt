-- ===== src/Resource/Outcomes.antt =====
-- What the functions on resources of c_src/nif.cpp do to the store of values that the heap stands
-- for, at resources that are there.
use mathlib.Core.Path.{fun_ext}
use diode_server.Base.{
  ℕ, ◌+◌, ◌-◌, ◌≡◌, refl, ap, sym, subst, ◌∙◌, true, none, some, ◌==◌, ==→eq, ltb, if◌then◌else◌,
  length, set, Bool-cases, inl, inr, eq_of_some,
}
use mathlib.Core.Bool.{false≢true}
use diode_server.Base.Bytes.{Bytes}
use diode_server.Pairs.{map_get}
use diode_server.Trie.{Item, empty, get_item}
use diode_server.Merkle.{insert_item, root_hash}
use diode_server.Merkle.Store.{IsTree, empty-IsTree, get_item-insert_item, get_item-root_hash}
use diode_server.Resource.{
  SharedState, Merkletree, Heap, at, alloc_merkletree_resource, keep_storage_in_map,
  release_storage_from_map, clone_merkletree_locked, with_tree, insert_in_place, insert_writeable,
}
use diode_server.Resource.Counts.{uses, Counted}
use diode_server.Resource.Steps.{created, adjusted, planted, cloned, ended, left, Change-Counted}
use diode_server.Resource.Views.{
  gone, there, load, tree_at, tree_at-some, tree_at-created, tree_at-cloned, tree_at-planted,
  tree_at-adjusted,
}
use diode_server.Resource.Release.{tree_at-ended, tree_at-left}
use diode_server.Resource.Runs.{
  Returns, alloc_run, keep_run, clone_run, release_run_kept, release_run_ended, release_run_left,
  with_tree_run, tree_at_written, insert_in_place_run, insert_writeable_run,
}
use diode_server.Resource.Refines.{
  update, lookups, view, Added, Copied, Wrote, Released, Unchanged, Sound, Outcome, view-update,
  view_same, view-some, view_end,
}

module _ (sha : Bytes → Bytes) where
  pub alloc_outcome :
      (h : Heap)
      → Sound sha h
      → (h' : Heap) × Returns alloc_merkletree_resource h (length h.merkletrees) h'
        × Outcome sha (Added sha (length h.merkletrees)) h h'
  unfolding alloc_merkletree_resource get_item map_get
  alloc_outcome h s =
      let (s', v) =
        view-update sha h _ (length h.merkletrees) (some empty) s (Change-Counted created s.counted)
          (λ w. tree_at-created h w s.counted)
          (λ t e. subst (IsTree sha) (eq_of_some e) (empty-IsTree sha)) in
      (_, alloc_run h, (s', (view_end sha h, v)))

  -- What a resource on a state sees
  shared_tree :
      (h : Heap) (w : ℕ) (r : Merkletree) (state : SharedState)
      → Counted h
      → at h.states r.shared_state ≡ some state
      → uses r.shared_state (at h.merkletrees w) ≡ true
      → tree_at h w ≡ some state.tree
  shared_tree h w r state c g mine = elim (load h w c) [
    | gone n ↦ absurd (false≢true (subst (λ o. uses r.shared_state o ≡ true) n mine))
    | there other x f k ↦
        let on : (other.shared_state == r.shared_state) ≡ true =
          subst (λ o. uses r.shared_state o ≡ true) f mine in
        let one : at h.states other.shared_state ≡ some state =
          ap (at h.states) (==→eq other.shared_state r.shared_state on) ∙ g in
        tree_at-some h w other state f one
  ]

  pub keep_outcome :
      (h : Heap) (mt : ℕ) (r : Merkletree)
      → Sound sha h
      → at h.merkletrees mt ≡ some r
      → (h' : Heap) × Returns (keep_storage_in_map mt) h tt h' × Outcome sha (Unchanged sha) h h'
  keep_outcome h mt r s e = (
    _,
    keep_run h mt r e,
    view_same sha h _ s (Change-Counted (adjusted mt (r.references + 1) r e) s.counted)
        (λ w. tree_at-adjusted h mt (r.references + 1) w r e),
  )

  pub clone_outcome :
      (h : Heap) (mt : ℕ) (r : Merkletree) (state : SharedState)
      → Sound sha h
      → at h.merkletrees mt ≡ some r
      → at h.states r.shared_state ≡ some state
      → (h' : Heap) × Returns (clone_merkletree_locked mt) h (length h.merkletrees) h'
        × Outcome sha (Copied sha mt (length h.merkletrees)) h h'
  clone_outcome h mt r state s e g =
      let new = length h.merkletrees in
      let seen = tree_at-some h mt r state e g in
      let (s', v) =
        view-update sha h _ new (some state.tree) s
          (Change-Counted (cloned r.shared_state state g) s.counted)
          (λ w. tree_at-cloned h r.shared_state w state s.counted g)
          (λ t i. s.trees mt t (seen ∙ i)) in
      (
        _,
        clone_run h mt r state e g,
        (s', (lookups sha state.tree, view-some sha h mt state.tree seen, view_end sha h, v)),
      )

  pub release_outcome :
      (h : Heap) (mt : ℕ) (r : Merkletree) (state : SharedState)
      → Sound sha h
      → at h.merkletrees mt ≡ some r
      → at h.states r.shared_state ≡ some state
      → (h' : Heap) × Returns (release_storage_from_map mt) h tt h'
        × Outcome sha (Released sha (ltb 1 r.references) mt) h h'
  release_outcome h mt r state s e g = elim (Bool-cases (ltb 1 r.references)) [
    | inl more ↦ (
      _,
      release_run_kept h mt r e more,
      rw more (
          view_same sha h _ s (Change-Counted (adjusted mt (r.references - 1) r e) s.counted)
            (λ w. tree_at-adjusted h mt (r.references - 1) w r e)),
    )
    | inr last ↦ elim (Bool-cases (state.has_clone == 0)) [
      | inl z ↦
          let zero_clones = ==→eq state.has_clone 0 z in
          let (s', v) =
            view-update sha h _ mt none s
              (Change-Counted (ended mt r state e g zero_clones) s.counted)
              (λ w. tree_at-ended h mt w r state s.counted e g zero_clones) (λ t i. cc) in
          (_, release_run_ended h mt r state e g last z, (s', rw last v))
      | inr z ↦
          let (s', v) =
            view-update sha h _ mt none s (Change-Counted (left mt r state e g z) s.counted)
              (λ w. tree_at-left h mt w (state.has_clone - 1) r state s.counted e g) (λ t i. cc) in
          (_, release_run_left h mt r state e g last z, (s', rw last v))
    ]
  ]

  module _ (fuel : ℕ) where
    -- Behind a write of one tree the store has the slots that the lookups of the trie give.
    write_outcome :
        (h h' : Heap) (mt : ℕ) (t t' : Item) (key value : Bytes)
        → Sound sha h
        → Counted h'
        → tree_at h mt ≡ some t
        → insert_item sha fuel t key value ≡ some t'
        → ((w : ℕ) → tree_at h' w ≡ (if mt == w then some t' else tree_at h w))
        → Outcome sha (Wrote sha mt key value) h h'
    write_outcome h h' mt t t' key value s c seen i here =
        let (good, finds) = get_item-insert_item sha fuel t t' key value (s.trees mt t seen) i in
        let (s', v) =
          view-update sha h h' mt (some t') s c here
            (λ u e. subst (IsTree sha) (eq_of_some e) good) in
        (
          s',
          (
            lookups sha t,
            view-some sha h mt t seen,
            v ∙ ap (λ slots. update (view sha h) mt (some slots)) (fun_ext finds),
          ),
        )

    pub insert_outcome :
        (h : Heap) (mt : ℕ) (r : Merkletree) (state : SharedState) (key value : Bytes) (t : Item)
        → Sound sha h
        → at h.merkletrees mt ≡ some r
        → at h.states r.shared_state ≡ some state
        → insert_item sha fuel state.tree key value ≡ some t
        → (h' : Heap) × Returns (insert_writeable sha fuel mt key value) h tt h'
          × Outcome sha (Wrote sha mt key value) h h'
    insert_outcome h mt r state key value t s e g i =
        let (h', run, c, here) =
          insert_writeable_run sha fuel h mt r state key value t s.counted e g i in
        (
          h',
          run,
          write_outcome h h' mt state.tree t key value s c (tree_at-some h mt r state e g) i here,
        )

    pub fill_outcome :
        (h : Heap) (mt : ℕ) (r : Merkletree) (state : SharedState) (key value : Bytes) (t : Item)
        → Sound sha h
        → at h.merkletrees mt ≡ some r
        → at h.states r.shared_state ≡ some state
        → state.has_clone ≡ 0
        → insert_item sha fuel state.tree key value ≡ some t
        → (h' : Heap) × Returns (insert_in_place sha fuel mt key value) h tt h'
          × Outcome sha (Wrote sha mt key value) h h'
    fill_outcome h mt r state key value t s e g z i = (
      _,
      insert_in_place_run sha fuel h mt r state key value t e g i,
      write_outcome h _ mt state.tree t key value s
          (Change-Counted (planted r.shared_state state t g) s.counted)
          (tree_at-some h mt r state e g) i (λ w. tree_at_written h mt w r state t s.counted e g z),
    )

    -- The root of a shared tree is brought up to date for all that share it, and none sees it.
    pub root_outcome :
        (h : Heap) (mt : ℕ) (r : Merkletree) (state : SharedState) (t : Item) (digest : Bytes)
        → Sound sha h
        → at h.merkletrees mt ≡ some r
        → at h.states r.shared_state ≡ some state
        → root_hash sha fuel state.tree ≡ some (t, digest)
        → (h' : Heap) × Returns (with_tree mt (root_hash sha fuel)) h digest h'
          × Outcome sha (Unchanged sha) h h'
    unfolding view
    root_outcome h mt r state t digest s e g i =
        let h' = record h {
          states = set h.states r.shared_state (some (record state { tree = t }));
        } in
        let (good, same) =
          get_item-root_hash sha fuel state.tree t digest
            (s.trees mt state.tree (tree_at-some h mt r state e g)) i in
        let here : (w : ℕ)
            → tree_at h' w
              ≡ (if uses r.shared_state (at h.merkletrees w) then some t else tree_at h w) =
          λ w. tree_at-planted h r.shared_state w state t s.counted g in
        (
          h',
          with_tree_run h mt r state (root_hash sha fuel) t digest e g i,
          (
            record {
              counted = Change-Counted (planted r.shared_state state t g) s.counted;
              trees = λ w u seen.
                  let now : (if uses r.shared_state (at h.merkletrees w)
                        then some t
                        else tree_at h w)
                      ≡ some u =
                    sym (here w) ∙ seen in
                  elim (Bool-cases (uses r.shared_state (at h.merkletrees w))) [
                    | inl mine ↦
                        subst (IsTree sha)
                          (eq_of_some
                            (subst (λ b. (if b then some t else tree_at h w) ≡ some u) mine now))
                          good
                    | inr other ↦
                        s.trees w u
                          (subst (λ b. (if b then some t else tree_at h w) ≡ some u) other now)
                  ];
            },
            fun_ext (λ w. elim (Bool-cases (uses r.shared_state (at h.merkletrees w))) [
              | inl mine ↦
                  rw (here w, mine, shared_tree h w r state s.counted g mine)
                    (ap some (fun_ext same))
              | inr other ↦ rw (here w, other) refl
            ]),
          ),
        )
