-- ===== src/Resource/Runs.antt =====
-- The results of the functions on resources of c_src/nif.cpp, at resources that are there.
use diode_server.Base.{
  ℕ, ◌+◌, ◌-◌, ◌≡◌, refl, ap, sym, ◌∙◌, true, false, Option, none, some, [], ◌∷◌, ◌++◌, ◌==◌, ==→eq,
  ==_refl, ltb, if◌then◌else◌, set, length, length-set, arith, Bool-cases, inl, inr,
}
use diode_server.Base.Bytes.{Bytes}
use diode_server.Base.Cells.{get_or-set, some-length, get_or-append}
use diode_server.Trie.{Item, empty}
use diode_server.Merkle.{insert_item}
use diode_server.Resource.{
  SharedState, Merkletree, Heap, H, at, new_state, delete_state, new_resource, delete_resource,
  alloc_merkletree_resource, keep_storage_in_map, release_merkletree_shared,
  release_storage_from_map, clone_merkletree_locked, make_writeable_locked, with_tree,
  insert_in_place, insert_writeable,
}
use diode_server.Resource.Counts.{Counted}
use diode_server.Resource.Steps.{planted, detached, Change-Counted}
use diode_server.Resource.Views.{gone, there, load, tree_at, tree_at-planted}
use diode_server.Resource.Release.{only_user, tree_at-detached}

-- A step that returns an answer and leaves the heap `h'`
abbrev pub Returns : {Answer : Type 0} → H Answer → Heap → Answer → Heap → Type 0
Returns step h answer h' = step h ≡ some (answer, h')

pub alloc_run :
    (h : Heap)
    → Returns alloc_merkletree_resource h (length h.merkletrees) (record {
      states = h.states ++ some (record { tree = empty; has_clone = 0 }) ∷ [];
      merkletrees =
          h.merkletrees ++ some (record { shared_state = length h.states; references = 1 }) ∷ [];
      shared_states = h.shared_states + 1;
    })
unfolding alloc_merkletree_resource new_state new_resource
alloc_run h = refl

pub keep_run :
    (h : Heap) (mt : ℕ) (r : Merkletree)
    → at h.merkletrees mt ≡ some r
    → Returns (keep_storage_in_map mt) h tt (record h {
      merkletrees = set h.merkletrees mt (some (record r { references = r.references + 1 }));
    })
unfolding keep_storage_in_map
keep_run h mt r e = rw e refl

pub clone_run :
    (h : Heap) (mt : ℕ) (r : Merkletree) (state : SharedState)
    → at h.merkletrees mt ≡ some r
    → at h.states r.shared_state ≡ some state
    → Returns (clone_merkletree_locked mt) h (length h.merkletrees) (record h {
      states =
          set h.states r.shared_state (some (record state { has_clone = state.has_clone + 1 }));
      merkletrees =
          h.merkletrees ++ some (record { shared_state = r.shared_state; references = 1 }) ∷ [];
    })
unfolding clone_merkletree_locked new_resource
clone_run h mt r state e g = rw (e, g) refl

-- `release_storage_from_map` keeps a resource with another reference, and ends it otherwise.
pub release_run_kept :
    (h : Heap) (mt : ℕ) (r : Merkletree)
    → at h.merkletrees mt ≡ some r
    → ltb 1 r.references ≡ true
    → Returns (release_storage_from_map mt) h tt (record h {
      merkletrees = set h.merkletrees mt (some (record r { references = r.references - 1 }));
    })
unfolding release_storage_from_map
release_run_kept h mt r e more = rw (e, more) refl

pub release_run_ended :
    (h : Heap) (mt : ℕ) (r : Merkletree) (state : SharedState)
    → at h.merkletrees mt ≡ some r
    → at h.states r.shared_state ≡ some state
    → ltb 1 r.references ≡ false
    → (state.has_clone == 0) ≡ true
    → Returns (release_storage_from_map mt) h tt (record {
      states = set h.states r.shared_state none;
      merkletrees = set h.merkletrees mt none;
      shared_states = h.shared_states - 1;
    })
unfolding release_storage_from_map release_merkletree_shared delete_state delete_resource
release_run_ended h mt r state e g last z = rw (e, last, g, z) refl

pub release_run_left :
    (h : Heap) (mt : ℕ) (r : Merkletree) (state : SharedState)
    → at h.merkletrees mt ≡ some r
    → at h.states r.shared_state ≡ some state
    → ltb 1 r.references ≡ false
    → (state.has_clone == 0) ≡ false
    → Returns (release_storage_from_map mt) h tt (record h {
      states =
          set h.states r.shared_state (some (record state { has_clone = state.has_clone - 1 }));
      merkletrees = set h.merkletrees mt none;
    })
unfolding release_storage_from_map release_merkletree_shared delete_resource
release_run_left h mt r state e g last z = rw (e, last, g, z) refl

pub with_tree_run :
    {Answer : Type 0} (h : Heap) (mt : ℕ) (r : Merkletree) (state : SharedState)
    (operation : Item → Option (Item × Answer)) (t : Item) (answer : Answer)
    → at h.merkletrees mt ≡ some r
    → at h.states r.shared_state ≡ some state
    → operation state.tree ≡ some (t, answer)
    → Returns
        (with_tree mt operation)
        h
        answer
        (record h { states = set h.states r.shared_state (some (record state { tree = t })) })
unfolding with_tree
with_tree_run h mt r state operation t answer e g o = rw (e, g, o) refl

-- A write that has the tree for itself is seen through its resource alone.
pub tree_at_written :
    (h : Heap) (mt w : ℕ) (r : Merkletree) (state : SharedState) (t : Item)
    → Counted h
    → at h.merkletrees mt ≡ some r
    → at h.states r.shared_state ≡ some state
    → state.has_clone ≡ 0
    → tree_at
        (record h { states = set h.states r.shared_state (some (record state { tree = t })) })
        w
      ≡ (if mt == w then some t else tree_at h w)
tree_at_written h mt w r state t c e g z =
    tree_at-planted h r.shared_state w state t c g ∙ elim (Bool-cases (mt == w)) [
      | inl same ↦
          let here : at h.merkletrees w ≡ some r =
            ap (at h.merkletrees) (sym (==→eq mt w same)) ∙ e in
          let mine = ==_refl r.shared_state in rw (here, same, mine) refl
      | inr differ ↦ elim (load h w c) [
        | gone n ↦ rw (n, differ) refl
        | there other x f k ↦
            let away = only_user h mt w r other state c e g z differ f in
            let back : (other.shared_state == r.shared_state) ≡ false = ground (arith, away) in
            rw (f, differ, back) refl
      ]
    ]

-- A resource with a tree for itself, and every tree as it was
pub record Sole (h : Heap) (mt : ℕ) (t : Item) (h' : Heap) : Type 0 where
  pub r : Merkletree
  pub state : SharedState
  pub at_resource : at h'.merkletrees mt ≡ some r
  pub at_state : at h'.states r.shared_state ≡ some state
  pub same_tree : state.tree ≡ t
  pub alone : state.has_clone ≡ 0
  pub counted : Counted h'
  pub same_trees : (w : ℕ) → tree_at h' w ≡ tree_at h w

-- `make_writeable_locked` gives a shared tree to its resource alone.
pub make_writeable_run :
    (h : Heap) (mt : ℕ) (r : Merkletree) (state : SharedState)
    → Counted h
    → at h.merkletrees mt ≡ some r
    → at h.states r.shared_state ≡ some state
    → (h' : Heap) × Returns (make_writeable_locked mt) h tt h' × Sole h mt state.tree h'
unfolding make_writeable_locked new_state
make_writeable_run h mt r state c e g = elim (Bool-cases (state.has_clone == 0)) [
  | inl z ↦ (
    h,
    rw (e, g, z) refl,
    record {
      r = r;
      state = state;
      at_resource = e;
      at_state = g;
      same_tree = refl;
      alone = ==→eq state.has_clone 0 z;
      counted = c;
      same_trees = λ w. refl;
    },
  )
  | inr z ↦
      let n = state.has_clone - 1 in
      let states = set h.states r.shared_state (some (record state { has_clone = n })) in
      let copy : SharedState = record { tree = state.tree; has_clone = 0 } in
      let r₁ : Merkletree = record r { shared_state = length h.states } in
      let same_length =
        length-set h.states r.shared_state (some (record state { has_clone = n })) in
      let here = ==_refl mt in
      let last : (length states == length h.states) ≡ true =
        rw same_length (==_refl (length h.states)) in
      (
        record h {
          states = states ++ some copy ∷ [];
          merkletrees = set h.merkletrees mt (some r₁);
          shared_states = h.shared_states + 1;
        },
        rw (e, g, z, same_length) refl,
        record {
          r = r₁;
          state = copy;
          at_resource =
              rw
                (
                  get_or-set h.merkletrees mt mt (some r₁) none (some-length h.merkletrees mt e),
                  here,
                )
                refl;
          at_state = rw (get_or-append states (length h.states) (some copy) none, last) refl;
          same_tree = refl;
          alone = refl;
          counted = Change-Counted (detached mt r state e g z) c;
          same_trees = λ w. tree_at-detached h mt w n r state c e g;
        },
      )
]

module _ (sha : Bytes → Bytes) (fuel : ℕ) where
  pub insert_in_place_run :
      (h : Heap) (mt : ℕ) (r : Merkletree) (state : SharedState) (key value : Bytes) (t : Item)
      → at h.merkletrees mt ≡ some r
      → at h.states r.shared_state ≡ some state
      → insert_item sha fuel state.tree key value ≡ some t
      → Returns
          (insert_in_place sha fuel mt key value)
          h
          tt
          (record h { states = set h.states r.shared_state (some (record state { tree = t })) })
  unfolding insert_in_place with_tree
  insert_in_place_run h mt r state key value t e g i = rw (e, g, i) refl

  -- A write behind `make_writeable_locked` leaves a heap with the counters right, in which its
  -- resource sees the new tree and the others see what they saw.
  pub insert_writeable_run :
      (h : Heap) (mt : ℕ) (r : Merkletree) (state : SharedState) (key value : Bytes) (t : Item)
      → Counted h
      → at h.merkletrees mt ≡ some r
      → at h.states r.shared_state ≡ some state
      → insert_item sha fuel state.tree key value ≡ some t
      → (h' : Heap) × Returns (insert_writeable sha fuel mt key value) h tt h'
        × Counted h'
        × ((w : ℕ) → tree_at h' w ≡ (if mt == w then some t else tree_at h w))
  unfolding insert_writeable
  insert_writeable_run h mt r state key value t c e g i =
      let (h₁, run, x) = make_writeable_run h mt r state c e g in
      let into : insert_item sha fuel x.state.tree key value ≡ some t =
        ap (λ u. insert_item sha fuel u key value) x.same_tree ∙ i in
      (
        _,
        rw run (insert_in_place_run h₁ mt x.r x.state key value t x.at_resource x.at_state into),
        Change-Counted (planted x.r.shared_state x.state t x.at_state) x.counted,
        λ w.
            tree_at_written h₁ mt w x.r x.state t x.counted x.at_resource x.at_state x.alone
            ∙ ap (λ old. if mt == w then some t else old) (x.same_trees w),
      )

  -- A write that the trie does not end does not end.
  pub insert_writeable-none :
      (h : Heap) (mt : ℕ) (r : Merkletree) (state : SharedState) (key value : Bytes)
      → Counted h
      → at h.merkletrees mt ≡ some r
      → at h.states r.shared_state ≡ some state
      → insert_item sha fuel state.tree key value ≡ none
      → insert_writeable sha fuel mt key value h ≡ none
  unfolding insert_writeable insert_in_place with_tree
  insert_writeable-none h mt r state key value c e g i =
      let (h₁, run, x) = make_writeable_run h mt r state c e g in
      let into : insert_item sha fuel x.state.tree key value ≡ none =
        ap (λ u. insert_item sha fuel u key value) x.same_tree ∙ i in
      let at_r = x.at_resource in let at_s = x.at_state in rw (run, at_r, at_s, into) refl
