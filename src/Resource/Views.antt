-- ===== src/Resource/Views.antt =====
-- What the holders of resources see: the lookups in the trees of c_src/nif.cpp, from resource to
-- state to tree, before and behind a change of the heap.
use mathlib.Core.Option
use diode_server.Base.{
  ℕ, ◌+◌, ◌≡◌, refl, ap, sym, ◌∙◌, true, false, Option, none, some, List, [], ◌∷◌, ◌++◌, ◌==◌,
  ==→eq, ==_refl, if◌then◌else◌, get_or, set, length, arith, Bool-cases, inl, inr,
}
use diode_server.Base.Cells.{get_or-set, get_or-set_ne, some-length, get_or-append}
use diode_server.Trie.{Item, empty}
use diode_server.Resource.{SharedState, Merkletree, Heap, at}
use diode_server.Resource.Counts.{uses, Counted, Counted-state}
use diode_server.Resource.Steps.{on_state}

-- The resource of a pointer and its state, if it is there
pub data Loaded (h : Heap) (mt : ℕ) : Type 0 where
  gone : at h.merkletrees mt ≡ none → Loaded h mt
  there :
      (r : Merkletree) (state : SharedState)
      → at h.merkletrees mt ≡ some r
      → at h.states r.shared_state ≡ some state
      → Loaded h mt

pub load : (h : Heap) (mt : ℕ) → Counted h → Loaded h mt
load h mt c = go (at h.merkletrees mt) refl
  where
    go : (o : Option Merkletree) → at h.merkletrees mt ≡ o → Loaded h mt
    go none e = gone e
    go (some r) e = let (state, g) = Counted-state h mt r c e in there r state e g

-- The tree behind a pointer
abbrev tree_behind : List (Option SharedState) → Option Merkletree → Option Item
tree_behind states none = none
tree_behind states (some r) = Option.map (λ (s : SharedState). s.tree) (at states r.shared_state)

unfoldable pub tree_at : Heap → ℕ → Option Item
tree_at h mt = tree_behind h.states (at h.merkletrees mt)

pub tree_at-some :
    (h : Heap) (mt : ℕ) (r : Merkletree) (state : SharedState)
    → at h.merkletrees mt ≡ some r
    → at h.states r.shared_state ≡ some state
    → tree_at h mt ≡ some state.tree
unfolding tree_at
tree_at-some h mt r state e g = rw (e, g)

pub tree_at-none : (h : Heap) (mt : ℕ) → at h.merkletrees mt ≡ none → tree_at h mt ≡ none
unfolding tree_at
tree_at-none h mt e = rw e

pub append_some {ℓ} :
    {A : Type ℓ} (xs : List (Option A)) (i : ℕ) (v : Option A) (a : A)
    → get_or xs i none ≡ some a
    → get_or (xs ++ v ∷ []) i none ≡ some a
append_some xs i v a e =
    let bound = some-length xs i e in
    let inside : (length xs == i) ≡ false = ground arith in rw (get_or-append xs i v none, inside) e

-- A new resource sees an empty tree, and the others what they saw.
pub tree_at-created :
    (h : Heap) (w : ℕ)
    → Counted h
    → tree_at
        (record {
          states = h.states ++ some (record { tree = empty; has_clone = 0 }) ∷ [];
          merkletrees = h.merkletrees ++ on_state (length h.states) ∷ [];
          shared_states = h.shared_states + 1;
        })
        w
      ≡ (if length h.merkletrees == w then some empty else tree_at h w)
unfolding tree_at
tree_at-created h w c = elim (Bool-cases (length h.merkletrees == w)) [
  | inl e ↦
      let new : Option SharedState = some (record { tree = empty; has_clone = 0 }) in
      let last = ==_refl (length h.states) in
      rw
        (
          get_or-append h.merkletrees w (on_state (length h.states)) none,
          e,
          get_or-append h.states (length h.states) new none,
          last,
        )
        refl
  | inr e ↦ elim (load h w c) [
    | gone n ↦ rw (get_or-append h.merkletrees w (on_state (length h.states)) none, e, n) refl
    | there r state g f ↦
        rw
          (
            get_or-append h.merkletrees w (on_state (length h.states)) none,
            e,
            g,
            append_some h.states r.shared_state (some (record { tree = empty; has_clone = 0 }))
                state f,
            f,
          )
          refl
  ]
]

-- A clone sees the tree of its original.
pub tree_at-cloned :
    (h : Heap) (s w : ℕ) (state : SharedState)
    → Counted h
    → at h.states s ≡ some state
    → tree_at
        (record h {
          states = set h.states s (some (record state { has_clone = state.has_clone + 1 }));
          merkletrees = h.merkletrees ++ on_state s ∷ [];
        })
        w
      ≡ (if length h.merkletrees == w then some state.tree else tree_at h w)
unfolding tree_at
tree_at-cloned h s w state c g =
    let more : Option SharedState = some (record state { has_clone = state.has_clone + 1 }) in
    let bound = some-length h.states s g in
    elim (Bool-cases (length h.merkletrees == w)) [
      | inl e ↦
          let here = ==_refl s in
          rw
            (
              get_or-append h.merkletrees w (on_state s) none,
              e,
              get_or-set h.states s s more none bound,
              here,
            )
            refl
      | inr e ↦ elim (load h w c) [
        | gone n ↦ rw (get_or-append h.merkletrees w (on_state s) none, e, n) refl
        | there r other f k ↦ elim (Bool-cases (s == r.shared_state)) [
          | inl same ↦
              let one : some state ≡ some other =
                sym g ∙ ap (at h.states) (==→eq s r.shared_state same) ∙ k in
              rw
                (
                  get_or-append h.merkletrees w (on_state s) none,
                  e,
                  f,
                  get_or-set h.states s r.shared_state more none bound,
                  same,
                  k,
                )
                (ap (Option.map (λ (x : SharedState). x.tree)) one)
          | inr differ ↦
              rw
                (
                  get_or-append h.merkletrees w (on_state s) none,
                  e,
                  f,
                  get_or-set_ne h.states s r.shared_state more none differ,
                )
                refl
        ]
      ]
    ]

-- Another tree of a state is seen through the resources on it.
pub tree_at-planted :
    (h : Heap) (s w : ℕ) (state : SharedState) (t : Item)
    → Counted h
    → at h.states s ≡ some state
    → tree_at (record h { states = set h.states s (some (record state { tree = t })) }) w
      ≡ (if uses s (at h.merkletrees w) then some t else tree_at h w)
unfolding tree_at
tree_at-planted h s w state t c g =
    let bound = some-length h.states s g in
    elim (load h w c) [
      | gone n ↦ rw n refl
      | there r other f k ↦ elim (Bool-cases (s == r.shared_state)) [
        | inl same ↦
            let back : (r.shared_state == s) ≡ true = ground arith in
            rw
              (
                f,
                get_or-set h.states s r.shared_state (some (record state { tree = t })) none bound,
                same,
                back,
              )
              refl
        | inr differ ↦
            let back : (r.shared_state == s) ≡ false = ground arith in
            rw
              (
                f,
                get_or-set_ne h.states s r.shared_state (some (record state { tree = t })) none
                    differ,
                back,
              )
              refl
      ]
    ]

-- The last references see nothing that was not seen before.
pub tree_at-adjusted :
    (h : Heap) (mt n w : ℕ) (r : Merkletree)
    → at h.merkletrees mt ≡ some r
    → tree_at
        (record h { merkletrees = set h.merkletrees mt (some (record r { references = n })) })
        w
      ≡ tree_at h w
unfolding tree_at
tree_at-adjusted h mt n w r e = elim (Bool-cases (mt == w)) [
  | inl same ↦
      let here : at h.merkletrees w ≡ some r = ap (at h.merkletrees) (sym (==→eq mt w same)) ∙ e in
      rw
        (
          get_or-set h.merkletrees mt w (some (record r { references = n })) none
              (some-length h.merkletrees mt e),
          same,
          here,
        )
        refl
  | inr differ ↦
      rw (get_or-set_ne h.merkletrees mt w (some (record r { references = n })) none differ) refl
]
