-- ===== src/Resource/Refines.antt =====
-- The heap of resources of c_src/nif.cpp as a store of values: whoever holds a resource sees its
-- slots change by its own writes alone, although clones share their trees.
use mathlib.Core.Path.{fun_ext}
use mathlib.Core.Option
use diode_server.Base.{
  Bool, ℕ, ◌≡◌, refl, ap, sym, subst, ◌∙◌, Option, none, some, [], ◌==◌, if◌then◌else◌, length,
  Bool-cases, inl, inr,
}
use diode_server.Base.Bytes.{Bytes, bin_eq}
use diode_server.Pairs.{Pair, make_pair, is_null}
use diode_server.Trie.{Item, get_item}
use diode_server.Merkle.Store.{IsTree}
use diode_server.Resource.{Heap}
use diode_server.Resource.Counts.{Counted, at_end}
use diode_server.Resource.Views.{tree_at, tree_at-none}

-- The pair of every key that is there
abbrev pub Slots : Type 0
Slots = Bytes → Option Pair

-- A store of values: what is there has slots of its own.
abbrev pub Store : Type 0
Store = ℕ → Option Slots

abbrev pub update : Store → ℕ → Option Slots → Store
update v mt slots w = if mt == w then slots else v w

module _ (sha : Bytes → Bytes) where
  abbrev pub lookups : Item → Slots
  lookups t key = get_item t (make_pair sha key [])

  unfoldable pub view : Heap → Store
  view h mt = Option.map lookups (tree_at h mt)

  -- The slots behind a write; the null value deletes
  abbrev pub written : Bytes → Bytes → Slots → Slots
  written key value slots other =
      if bin_eq key other
      then (if is_null value then none else some (make_pair sha key value))
      else slots other

  -- The store behind a call: a new resource without slots, a new one with the slots of another, a
  -- write to one, a release of one, which stays while more references are left, or no change
  abbrev pub Added : ℕ → Store → Store → Type 0
  Added mt v v' = (v mt ≡ none) × (v' ≡ update v mt (some (λ key. none)))

  abbrev pub Copied : ℕ → ℕ → Store → Store → Type 0
  Copied mt new v v' =
      (slots : Slots) × (v mt ≡ some slots) × (v new ≡ none) × (v' ≡ update v new (some slots))

  abbrev pub Wrote : ℕ → Bytes → Bytes → Store → Store → Type 0
  Wrote mt key value v v' =
      (slots : Slots) × (v mt ≡ some slots) × (v' ≡ update v mt (some (written key value slots)))

  abbrev pub Released : Bool → ℕ → Store → Store → Type 0
  Released more mt v v' = v' ≡ (if more then v else update v mt none)

  abbrev pub Unchanged : Store → Store → Type 0
  Unchanged v v' = v' ≡ v

  -- A heap with its counters right and well-formed tries
  pub record Sound (h : Heap) : Type 0 where
    pub counted : Counted h
    pub trees : (mt : ℕ) (t : Item) → tree_at h mt ≡ some t → IsTree sha t

  abbrev pub Outcome : (Store → Store → Type 0) → Heap → Heap → Type 0
  Outcome Effect h h' = Sound h' × Effect (view h) (view h')

  -- A heap in which one pointer has another tree, or none
  pub view-update :
      (h h' : Heap) (mt : ℕ) (x : Option Item)
      → Sound h
      → Counted h'
      → ((w : ℕ) → tree_at h' w ≡ (if mt == w then x else tree_at h w))
      → ((t : Item) → x ≡ some t → IsTree sha t)
      → Sound h' × (view h' ≡ update (view h) mt (Option.map lookups x))
  unfolding view
  view-update h h' mt x s c here good = (
    record {
      counted = c;
      trees = λ w t e. elim (Bool-cases (mt == w)) [
        | inl same ↦
            let now : (if mt == w then x else tree_at h w) ≡ some t = sym (here w) ∙ e in
            good t (subst (λ b. (if b then x else tree_at h w) ≡ some t) same now)
        | inr differ ↦
            let now : (if mt == w then x else tree_at h w) ≡ some t = sym (here w) ∙ e in
            s.trees w t (subst (λ b. (if b then x else tree_at h w) ≡ some t) differ now)
      ];
    },
    fun_ext λ w. elim (Bool-cases (mt == w)) [
      | inl same ↦ rw (here w, same) refl
      | inr differ ↦ rw (here w, differ) refl
    ],
  )

  -- A heap in which every pointer has the tree that it had
  pub view_same :
      (h h' : Heap)
      → Sound h
      → Counted h'
      → ((w : ℕ) → tree_at h' w ≡ tree_at h w)
      → Outcome Unchanged h h'
  unfolding view
  view_same h h' s c here = (
    record { counted = c; trees = λ w t e. s.trees w t (sym (here w) ∙ e) },
    fun_ext λ w. ap (Option.map lookups) (here w),
  )

  pub view-some :
      (h : Heap) (mt : ℕ) (t : Item) → tree_at h mt ≡ some t → view h mt ≡ some (lookups t)
  unfolding view
  view-some h mt t e = rw e refl

  pub view_end : (h : Heap) → view h (length h.merkletrees) ≡ none
  unfolding view
  view_end h =
      ap (Option.map lookups) (tree_at-none h (length h.merkletrees) (at_end h.merkletrees))
