-- ===== src/Account/Bounds.antt =====
-- How long the lists are that `account_map_storage` of c_src/nif.cpp gives for a range of slots.
use mathlib.Core.Option.{none-ne-some}
use diode_server.Base.{
  ℕ, zero, suc, ◌-◌, ◌≤◌, ◌<◌, ◌^◌, ◌≡◌, refl, ap, sym, subst, ◌∙◌, Bool, true, false, not, ◌||◌,
  Option, none, some, List, [], ◌∷◌, ◌==◌, ltb, if◌then◌else◌, length, set, Option-cases,
  Bool-cases, inl, inr, ◌⊎◌, eq_of_some, arith,
}
use diode_server.Base.Bytes.{Bytes}
use diode_server.Trie.{Item}
use diode_server.Terms.{
  Term, integer, empty_list, cell, tuple3, badarg, resource, get_address, term_is_atom_named,
  binary_of_size,
}
use diode_server.Nif.{uint256_increment, range_from, get_range_entries}
use diode_server.Resource.{at, with_tree}
use diode_server.Account.{AccountEntry, World, M, ◌>>=◌, pure, on_heap, load_map, find_account}
use diode_server.Account.Read.{
  entries_to_term, materialize_at, account_map_storage_get_range_helper,
}
use diode_server.Account.Query.{get_uint, storage_range, account_map_storage}
use diode_server.Account.Frozen.{>>=-some}

-- The cells of a list
unfoldable pub cells : Term → ℕ
cells (cell head tail) = suc (cells tail)
cells term = 0

-- Every answer of a step satisfies `P`.
abbrev Answers : (Term → Type 0) → M Term → Type 0
Answers P m = (w w' : World) (a : Term) → m w ≡ some (a, w') → P a

Answers-pure : (P : Term → Type 0) (a : Term) → P a → Answers P (pure a)
Answers-pure P a p w w' b run = subst P (ap (λ r. r.0) (eq_of_some run)) p

Answers-if :
    (P : Term → Type 0) (b : Bool) (x y : M Term)
    → (b ≡ true → Answers P x)
    → (b ≡ false → Answers P y)
    → Answers P (if b then x else y)
Answers-if P true x y k l = k refl
Answers-if P false x y k l = l refl

Answers->>= :
    {A : Type 0} (P : Term → Type 0) (m : M A) (rest : A → M Term)
    → ((a : A) → Answers P (rest a))
    → Answers P (m >>= rest)
Answers->>= P m rest k w w' b run =
    let (a, w₁, first, last) = >>=-some m rest w w' b run in k a w₁ w' b last

cells-entries_to_term :
    (slots : List (Bytes × Bytes)) → cells (entries_to_term slots) ≡ length slots
unfolding cells entries_to_term
cells-entries_to_term [] = refl
cells-entries_to_term (slot ∷ slots) = ap suc (cells-entries_to_term slots)

module _ (sha : Bytes → Bytes) where
  length-range_from :
      (more : ℕ) (t : Item) (key : Bytes) → length (range_from sha more t key) ≤ suc more
  unfolding range_from
  length-range_from zero t key = omega arith
  length-range_from (suc more) t key =
      let rest = length-range_from more t (uint256_increment key).0 in
      elim (Bool-cases (uint256_increment key).1) [
        | inl e ↦ rw e (omega (arith, rest))
        | inr e ↦ rw e (omega arith)
      ]

  length-get_range_entries :
      (t : Item) (key : Bytes) (count : ℕ) → length (get_range_entries sha t key count) ≤ count
  unfolding get_range_entries
  length-get_range_entries t key count = elim (Bool-cases (count == 0 || not (length key == 32))) [
    | inl e ↦ rw e (omega arith)
    | inr e ↦
        let some_keys : 0 < count = ground arith in
        let bound = length-range_from (count - 1) t key in rw e (omega (arith, bound, some_keys))
  ]

-- What a reader of a tree answers
tree_answer :
    {A : Type 0} (mt : ℕ) (f : Item → A) (w w' : World) (a : A)
    → on_heap (with_tree mt (λ t. some (t, f t))) w ≡ some (a, w')
    → (t : Item) × (a ≡ f t)
unfolding with_tree
tree_answer mt f w w' a run = elim (Option-cases (at w.heap.merkletrees mt)) [
  | inl e ↦
      let stuck : on_heap (with_tree mt (λ t. some (t, f t))) w ≡ none = rw e refl in
      absurd (none-ne-some (a, w') (sym stuck ∙ run))
  | inr (r, e) ↦ elim (Option-cases (at w.heap.states r.shared_state)) [
    | inl g ↦
        let stuck : on_heap (with_tree mt (λ t. some (t, f t))) w ≡ none = rw (e, g) refl in
        absurd (none-ne-some (a, w') (sym stuck ∙ run))
    | inr (state, g) ↦
        let h = w.heap in
        let read : on_heap (with_tree mt (λ t. some (t, f t))) w
            ≡ some (
              f state.tree,
              record w {
                heap = record h {
                  states = set h.states r.shared_state (some (record state { tree = state.tree }));
                };
              },
            ) =
          rw (e, g) refl in
        (state.tree, ap (λ r. r.0) (eq_of_some (sym run ∙ read)))
  ]
]

-- An answer that is refused, or a list of at most `count` cells
abbrev pub Bounded : ℕ → Term → Type 0
Bounded count a = (a ≡ badarg) ⊎ (cells a ≤ count)

module _ (sha : Bytes → Bytes) (fuel : ℕ) where
  -- The range of an account that is there
  range_of : ℕ → Bytes → Bytes → ℕ → AccountEntry → M Term
  range_of am addr key count e = materialize_at sha fuel am addr e >>= λ mt.
      on_heap (with_tree mt (λ t. some (t, get_range_entries sha t key count))) >>= λ entries.
      pure (entries_to_term entries)

  range_of-Bounded :
      (am : ℕ) (addr key : Bytes) (count : ℕ) (e : AccountEntry)
      → Answers (Bounded count) (range_of am addr key count e)
  unfolding range_of
  range_of-Bounded am addr key count e =
      Answers->>= (Bounded count) (materialize_at sha fuel am addr e) _ (λ mt w w' a run.
        let read = on_heap (with_tree mt (λ t. some (t, get_range_entries sha t key count))) in
        let (entries, w₁, first, last) =
          >>=-some read (λ slots. pure (entries_to_term slots)) w w' a run in
        let (t, same) =
          tree_answer mt (λ t. get_range_entries sha t key count) w w₁ entries first in
        let listed : entries_to_term entries ≡ a = ap (λ r. r.0) (eq_of_some last) in
        let fits : length entries ≤ count =
          subst (λ slots. length slots ≤ count) (sym same)
            (length-get_range_entries sha t key count) in
        let size : cells a ≡ length entries =
          ap cells (sym listed) ∙ cells-entries_to_term entries in
        inr (omega (arith, fits, size)))

  helper-Bounded :
      (am : ℕ) (addr key : Bytes) (count : ℕ)
      → Answers (Bounded count) (account_map_storage_get_range_helper sha fuel am addr key count)
  unfolding account_map_storage_get_range_helper cells range_of
  helper-Bounded am addr key count =
      Answers->>= (Bounded count) (load_map am) _
        (λ shared. found (find_account shared.accounts addr))
    where
      found :
          (o : Option AccountEntry)
          → Answers
              (Bounded count)
              (elim o [ none ↦ pure empty_list | some e ↦ range_of am addr key count e ])
      found none = Answers-pure (Bounded count) empty_list (inr (omega arith))
      found (some e) = range_of-Bounded am addr key count e

  -- A refused range, or a list of no more cells than were asked for, which are 256 at most
  abbrev pub InRange : ℕ → Term → Type 0
  InRange count a = (a ≡ badarg) ⊎ ((0 < count) × (count ≤ 256) × (cells a ≤ count))

  refused : (count : ℕ) → Answers (InRange count) (pure badarg)
  refused count = Answers-pure (InRange count) badarg (inl refl)

  counted_range :
      (am : ℕ) (addr key : Bytes) (count : ℕ)
      → Answers (InRange count) (
          if ltb count 1 || ltb 256 count
          then pure badarg
          else account_map_storage_get_range_helper sha fuel am addr key count)
  counted_range am addr key count =
      Answers-if (InRange count) (ltb count 1 || ltb 256 count) (pure badarg)
        (account_map_storage_get_range_helper sha fuel am addr key count) (λ e. refused count)
        (λ e w w' a run.
          let least : 0 < count = ground arith in
          let most : count ≤ 256 = ground arith in
          elim (helper-Bounded am addr key count w w' a run) [
            | inl bad ↦ inl bad
            | inr fits ↦ inr (least, most, fits)
          ])

  uint_range :
      (am : ℕ) (addr key : Bytes) (count : ℕ) (o : Option ℕ)
      → (o ≡ none) ⊎ (o ≡ some count)
      → Answers (InRange count) (elim o [
        | none ↦ pure badarg
        | some n ↦
            if ltb n 1 || ltb 256 n
            then pure badarg
            else account_map_storage_get_range_helper sha fuel am addr key n
      ])
  uint_range am addr key count none k = refused count
  uint_range am addr key count (some n) (inl e) = absurd (none-ne-some n (sym e))
  uint_range am addr key count (some n) (inr e) =
      let same : n ≡ count = eq_of_some e in rw same (counted_range am addr key count)

  get_uint_cases : (n : ℕ) → (get_uint (integer n) ≡ none) ⊎ (get_uint (integer n) ≡ some n)
  get_uint_cases n = elim (Bool-cases (ltb n (2 ^ 32))) [
    | inl e ↦ inr (rw e refl)
    | inr e ↦ inl (rw e refl)
  ]

  storage_range-InRange :
      (am : ℕ) (addr : Bytes) (key : Term) (count : ℕ)
      → Answers (InRange count) (storage_range sha fuel am addr key (integer count))
  unfolding storage_range
  storage_range-InRange am addr key count = go (binary_of_size 32 key)
    where
      go :
          (o : Option Bytes)
          → Answers (InRange count) (elim o [
            | none ↦ pure badarg
            | some k ↦ elim (get_uint (integer count)) [
              | none ↦ pure badarg
              | some n ↦
                  if ltb n 1 || ltb 256 n
                  then pure badarg
                  else account_map_storage_get_range_helper sha fuel am addr k n
            ]
          ])
      go none = refused count
      go (some k) = uint_range am addr k count (get_uint (integer count)) (get_uint_cases count)

  -- A range that is answered has at most 256 slots, and at most as many as were asked for: a count
  -- of 0 or of more than 256 is refused with badarg.
  pub account_map_storage-InRange :
      (w w' : World) (am count : ℕ) (addr tag key answer : Term)
      → account_map_storage sha fuel (resource am) addr (tuple3 tag key (integer count)) w
        ≡ some (answer, w')
      → (answer ≡ badarg) ⊎ ((0 < count) × (count ≤ 256) × (cells answer ≤ count))
  unfolding account_map_storage term_is_atom_named
  account_map_storage-InRange w w' am count addr tag key answer run =
      go (get_address addr) w w' answer run
    where
      go :
          (o : Option Bytes)
          → Answers (InRange count) (elim o [
            | none ↦ pure badarg
            | some a ↦
                if term_is_atom_named tag "range"
                then storage_range sha fuel am a key (integer count)
                else pure badarg
          ])
      go none = refused count
      go (some a) =
          Answers-if (InRange count) (term_is_atom_named tag "range")
            (storage_range sha fuel am a key (integer count)) (pure badarg)
            (λ e. storage_range-InRange am a key count) (λ e. refused count)
