-- ===== src/Resource/Release.antt =====
-- The views of resources when one of them goes or moves to a state of its own (c_src/nif.cpp).
use mathlib.Core.Option
use diode_server.Base.{
  ℕ, ◌+◌, ◌-◌, ◌<◌, ◌≡◌, refl, ap, sym, subst, ◌∙◌, true, false, Option, none, some, List, [], ◌∷◌,
  ◌++◌, ◌==◌, ==→eq, ==_refl, if◌then◌else◌, set, length, length-set, arith, Bool-cases, inl, inr,
}
use diode_server.Base.Cells.{
  get_or-set, get_or-set_ne, some-length, get_or-append, count, count_none,
}
use diode_server.Resource.{SharedState, Merkletree, Heap, at}
use diode_server.Resource.Counts.{uses, Counted}
use diode_server.Resource.Steps.{uses-set_here, owned_at}
use diode_server.Resource.Views.{gone, there, load, tree_at, append_some}

-- A state without clones has one resource.
pub only_user :
    (h : Heap) (mt w : ℕ) (r other : Merkletree) (state : SharedState)
    → Counted h
    → at h.merkletrees mt ≡ some r
    → at h.states r.shared_state ≡ some state
    → state.has_clone ≡ 0
    → (mt == w) ≡ false
    → at h.merkletrees w ≡ some other
    → (r.shared_state == other.shared_state) ≡ false
only_user h mt w r other state c e g z ne f =
    let rest = set h.merkletrees mt none in
    let nobody : count (uses r.shared_state) rest ≡ 0 = omega (
      arith,
      uses-set_here h.merkletrees mt r none e refl,
      owned_at h r.shared_state state c g,
      z,
    ) in
    let kept : at rest w ≡ some other = get_or-set_ne h.merkletrees mt w none none ne ∙ f in
    let unused : (other.shared_state == r.shared_state) ≡ false =
      subst (λ o. uses r.shared_state o ≡ false) kept
        (count_none (uses r.shared_state) rest w none (some-length rest w kept) nobody) in
    ground (arith, unused)

-- The end of a resource whose state goes with it
pub tree_at-ended :
    (h : Heap) (mt w : ℕ) (r : Merkletree) (state : SharedState)
    → Counted h
    → at h.merkletrees mt ≡ some r
    → at h.states r.shared_state ≡ some state
    → state.has_clone ≡ 0
    → tree_at
        (record {
          states = set h.states r.shared_state none;
          merkletrees = set h.merkletrees mt none;
          shared_states = h.shared_states - 1;
        })
        w
      ≡ (if mt == w then none else tree_at h w)
unfolding tree_at
tree_at-ended h mt w r state c e g z = elim (Bool-cases (mt == w)) [
  | inl same ↦
      rw (get_or-set h.merkletrees mt w none none (some-length h.merkletrees mt e), same) refl
  | inr differ ↦ elim (load h w c) [
    | gone n ↦ rw (get_or-set_ne h.merkletrees mt w none none differ, n, differ) refl
    | there other _ f k ↦
        let away = only_user h mt w r other state c e g z differ f in
        rw
          (
            get_or-set_ne h.merkletrees mt w none none differ,
            f,
            differ,
            get_or-set_ne h.states r.shared_state other.shared_state none none away,
          )
          refl
  ]
]

-- A change of the counter of a state is not seen.
same_tree :
    (states : List (Option SharedState)) (s i n : ℕ) (state : SharedState)
    → at states s ≡ some state
    → Option.map
        (λ (x : SharedState). x.tree)
        (at (set states s (some (record state { has_clone = n }))) i)
      ≡ Option.map (λ (x : SharedState). x.tree) (at states i)
same_tree states s i n state g =
    let v : Option SharedState = some (record state { has_clone = n }) in
    elim (Bool-cases (s == i)) [
      | inl same ↦
          let one : at states i ≡ some state = ap (at states) (sym (==→eq s i same)) ∙ g in
          rw (get_or-set states s i v none (some-length states s g), same, one) refl
      | inr differ ↦ rw (get_or-set_ne states s i v none differ) refl
    ]

-- The end of a resource that leaves its state to others
pub tree_at-left :
    (h : Heap) (mt w n : ℕ) (r : Merkletree) (state : SharedState)
    → Counted h
    → at h.merkletrees mt ≡ some r
    → at h.states r.shared_state ≡ some state
    → tree_at
        (record h {
          states = set h.states r.shared_state (some (record state { has_clone = n }));
          merkletrees = set h.merkletrees mt none;
        })
        w
      ≡ (if mt == w then none else tree_at h w)
unfolding tree_at
tree_at-left h mt w n r state c e g = elim (Bool-cases (mt == w)) [
  | inl same ↦
      rw (get_or-set h.merkletrees mt w none none (some-length h.merkletrees mt e), same) refl
  | inr differ ↦ elim (load h w c) [
    | gone q ↦ rw (get_or-set_ne h.merkletrees mt w none none differ, q, differ) refl
    | there other _ f k ↦
        rw (get_or-set_ne h.merkletrees mt w none none differ, f, differ)
          (same_tree h.states r.shared_state other.shared_state n state g)
  ]
]

-- A state that is added is not seen through the resources that were there.
appended :
    (states : List (Option SharedState)) (i : ℕ) (v : Option SharedState)
    → (x : SharedState) × (at states i ≡ some x)
    → at (states ++ v ∷ []) i ≡ at states i
appended states i v (x, e) = append_some states i v x e ∙ sym e

still_there :
    (states : List (Option SharedState)) (s i : ℕ) (v state : SharedState)
    → at states i ≡ some state
    → (x : SharedState) × (at (set states s (some v)) i ≡ some x)
still_there states s i v state e = elim (Bool-cases (s == i)) [
  | inl same ↦
      let bound : s < length states =
        subst (λ j. j < length states) (sym (==→eq s i same)) (some-length states i e) in
      (v, rw (get_or-set states s i (some v) none bound, same) refl)
  | inr differ ↦ (state, get_or-set_ne states s i (some v) none differ ∙ e)
]

-- A resource that moves to a copy of its state sees what it saw, and so do the others.
pub tree_at-detached :
    (h : Heap) (mt w n : ℕ) (r : Merkletree) (state : SharedState)
    → Counted h
    → at h.merkletrees mt ≡ some r
    → at h.states r.shared_state ≡ some state
    → tree_at
        (record h {
          states =
              set h.states r.shared_state (some (record state { has_clone = n }))
              ++ some (record { tree = state.tree; has_clone = 0 }) ∷ [];
          merkletrees = set h.merkletrees mt (some (record r { shared_state = length h.states }));
          shared_states = h.shared_states + 1;
        })
        w
      ≡ tree_at h w
unfolding tree_at
tree_at-detached h mt w n r state c e g =
    let v : SharedState = record state { has_clone = n } in
    let states = set h.states r.shared_state (some v) in
    let copy : Option SharedState = some (record { tree = state.tree; has_clone = 0 }) in
    let moved : Option Merkletree = some (record r { shared_state = length h.states }) in
    elim (Bool-cases (mt == w)) [
      | inl same ↦
          let was : at h.merkletrees w ≡ some r =
            ap (at h.merkletrees) (sym (==→eq mt w same)) ∙ e in
          let last : (length states == length h.states) ≡ true =
            rw (length-set h.states r.shared_state (some v)) (==_refl (length h.states)) in
          rw
            (
              get_or-set h.merkletrees mt w moved none (some-length h.merkletrees mt e),
              same,
              was,
              g,
              get_or-append states (length h.states) copy none,
              last,
            )
            refl
      | inr differ ↦ elim (load h w c) [
        | gone q ↦ rw (get_or-set_ne h.merkletrees mt w moved none differ, q) refl
        | there other x f k ↦
            rw (get_or-set_ne h.merkletrees mt w moved none differ, f)
              (ap (Option.map (λ (y : SharedState). y.tree)) (
                  appended states other.shared_state copy
                    (still_there h.states r.shared_state other.shared_state v x k))
                ∙ same_tree h.states r.shared_state other.shared_state n state g)
      ]
    ]
