-- ===== src/Account/Difference.antt =====
-- The difference of two account maps (`account_map_difference_full` of c_src/nif.cpp): the accounts
-- whose hashes differ, with snapshots of both sides that hold the storage.
use diode_server.Base.{
  ℕ, Bool, true, false, not, ◌&&◌, ◌||◌, Option, none, some, List, [], ◌∷◌, ◌==◌, if◌then◌else◌,
  length,
}
use diode_server.Base.Bytes.{Bytes, bin_eq, bin_lt}
use diode_server.Pairs.{Pair}
use diode_server.Trie.{Item, empty, each, get_item}
use diode_server.Merkle.{difference}
use diode_server.Terms.{Term, integer, binary, empty_list, cell, tuple2, tuple3, tuple6, make_atom}
use diode_server.Nif.{balance_to_term, code_to_term}
use diode_server.Resource.{
  load_resource, load_state, alloc_merkletree_resource, keep_storage_in_map,
  release_storage_from_map,
}
use diode_server.Account.{
  AccountEntry, SharedAccountMap, M, ◌>>=◌, ◌>>◌, pure, on_heap, lift, load_map, empty_storage,
  find_account, new_entry, with_map,
}
use diode_server.Account.Entry.{insert_slots, slots_of, storage_root_hash_for_entry}

-- `DiffAccountSide`: `none` is a side that is not present
abbrev pub Side : Type 0
Side = Option AccountEntry

-- `snapshot_side`, with the reference that it takes
unfoldable pub snapshot_side : Option AccountEntry → M Side
unfolding keep_storage_in_map
snapshot_side none = pure none
snapshot_side (some e) = do
  elim e.storage [ none ↦ pure tt | some mt ↦ on_heap (keep_storage_in_map mt) ]
  pure (some e)

-- `release_snapshot_side`
unfoldable pub release_snapshot_side : Side → M (Unit {0})
unfolding release_storage_from_map
release_snapshot_side none = pure tt
release_snapshot_side (some e) = elim e.storage [
  | none ↦ pure tt
  | some mt ↦ on_heap (release_storage_from_map mt)
]

-- `diff_side_fields_to_term`
unfoldable pub diff_side_fields_to_term : Side → Term
unfolding balance_to_term code_to_term
diff_side_fields_to_term none = make_atom "nil"
diff_side_fields_to_term (some e) =
    tuple3 (integer e.nonce) (balance_to_term e.balance) (code_to_term e.code)

-- `release_temp_storage`
unfoldable pub release_temp_storage : Option ℕ → M (Unit {0})
unfolding release_storage_from_map
release_temp_storage none = pure tt
release_temp_storage (some mt) = on_heap (release_storage_from_map mt)

-- The keys of 20 bytes, in the order of `std::sort` and without the repeats that `std::unique` erases
unfoldable pub insert_key : Bytes → List Bytes → List Bytes
insert_key key [] = key ∷ []
insert_key key (other ∷ keys) =
    if bin_eq key other
    then other ∷ keys
    else if bin_lt other key
    then other ∷ insert_key key keys
    else key ∷ other ∷ keys

unfoldable pub addresses_of : List Pair → List Bytes
unfolding insert_key
addresses_of [] = []
addresses_of (p ∷ ps) =
    let rest = addresses_of ps in if length p.key == 20 then insert_key p.key rest else rest

-- The value of a pair of a diff, as a term
unfoldable pub value_to_term : Option Pair → Term
value_to_term none = make_atom "nil"
value_to_term (some p) = binary p.value

-- The list that `build_storage_diff_list` makes of the pairs of both differences
unfoldable pub diff_onto : Item → Item → Term → List Pair → Term
unfolding value_to_term
diff_onto a b list [] = list
diff_onto a b list (p ∷ ps) =
    diff_onto a b
      (cell
        (tuple2 (binary p.key)
          (tuple2 (value_to_term (get_item a p)) (value_to_term (get_item b p))))
        list)
      ps

-- `state_of` is `mt->shared_state`
unfoldable pub state_of : ℕ → M ℕ
state_of mt = do r ← on_heap (load_resource mt); pure r.shared_state

unfoldable pub tree_in : ℕ → M Item
tree_in s = do state ← on_heap (load_state s); pure state.tree

-- The tests of `entries_equal` on pointers, before it compares roots
unfoldable pub same_pointer : Option ℕ → Option ℕ → Bool
same_pointer none b = false
same_pointer (some p) none = false
same_pointer (some p) (some q) = p == q

unfoldable pub same_state : Option ℕ → Option ℕ → M Bool
unfolding state_of
same_state none b = pure false
same_state (some p) none = pure false
same_state (some p) (some q) = do s ← state_of p; t ← state_of q; pure (s == t)

module _ (sha : Bytes → Bytes) (fuel : ℕ) where
  -- `entries_equal`
  unfoldable pub entries_equal : AccountEntry → AccountEntry → M Bool
  unfolding same_pointer same_state storage_root_hash_for_entry
  entries_equal a b =
      if a.nonce == b.nonce && bin_eq a.balance b.balance && bin_eq a.code b.code
      then (do
        shared ← same_state a.storage b.storage
        if shared
              || same_pointer a.storage b.storage
              || same_pointer a.compact_storage b.compact_storage
            then pure true
            else (do
              root_a ← storage_root_hash_for_entry sha fuel a
              root_b ← storage_root_hash_for_entry sha fuel b
              pure (bin_eq root_a root_b)))
      else pure false

  -- `storage_for_diff_side`: the resource, and the temporary one to release
  unfoldable pub storage_for_diff_side : Side → M (ℕ × Option ℕ)
  unfolding slots_of insert_slots alloc_merkletree_resource
  storage_for_diff_side none = do mt ← empty_storage; pure (mt, none)
  storage_for_diff_side (some e) = elim e.storage [
    | some mt ↦ pure (mt, none)
    | none ↦ (do
      slots ← slots_of e
      elim slots [
        | [] ↦ (do mt ← empty_storage; pure (mt, none))
        | slot ∷ rest ↦ (do
          mt ← on_heap alloc_merkletree_resource
          insert_slots sha fuel mt (slot ∷ rest)
          pure (mt, some mt))
      ])
  ]

  -- Both differences of two trees
  unfoldable pub both_differences : Item → Item → Option Item
  both_differences a b = elim (difference sha fuel a b empty) [
    | none ↦ none
    | some output ↦ difference sha fuel b a output
  ]

  -- `build_storage_diff_list` behind the choice of the resources
  unfoldable pub diff_list : ℕ → ℕ → M Term
  unfolding state_of tree_in both_differences diff_onto
  diff_list mt_a mt_b = if mt_a == mt_b then pure empty_list else (do
    s ← state_of mt_a
    t ← state_of mt_b
    if s == t then pure empty_list else (do
      a ← tree_in s
      b ← tree_in t
      output ← lift (both_differences a b)
      pure (diff_onto a b empty_list (each output))))

  -- `build_storage_diff_list`
  unfoldable pub build_storage_diff_list : Side → Side → M Term
  unfolding storage_for_diff_side diff_list release_temp_storage
  build_storage_diff_list a b = do
    (mt_a, temp_a) ← storage_for_diff_side a
    (mt_b, temp_b) ← storage_for_diff_side b
    list ← diff_list mt_a mt_b
    release_temp_storage temp_a
    release_temp_storage temp_b
    pure list

  -- `root_term_for_diff_side`
  unfoldable pub root_term_for_diff_side : Side → M Term
  unfolding storage_root_hash_for_entry
  root_term_for_diff_side none = pure (make_atom "nil")
  root_term_for_diff_side (some e) = do
    root ←
        storage_root_hash_for_entry sha fuel
          (record (new_entry []) { storage = e.storage; compact_storage = e.compact_storage })
    pure (binary root)

  -- Whether the accounts of an address go into the list
  unfoldable pub sides_differ : Option AccountEntry → Option AccountEntry → M Bool
  unfolding entries_equal
  sides_differ none none = pure false
  sides_differ none (some b) = pure true
  sides_differ (some a) none = pure true
  sides_differ (some a) (some b) = do same ← entries_equal a b; pure (not same)

  -- The loop that takes the snapshots, under the locks of both maps
  unfoldable pub take_snapshots :
      SharedAccountMap → SharedAccountMap → List Bytes → M (List (Bytes × Side × Side))
  unfolding find_account sides_differ snapshot_side
  take_snapshots a b [] = pure []
  take_snapshots a b (addr ∷ keys) = do
    let in_a = find_account a.accounts addr
    let in_b = find_account b.accounts addr
    differ ← sides_differ in_a in_b
    if differ
        then (do
          side_a ← snapshot_side in_a
          side_b ← snapshot_side in_b
          items ← take_snapshots a b keys
          pure ((addr, side_a, side_b) ∷ items))
        else take_snapshots a b keys

  -- The loop that makes the terms and releases the snapshots
  unfoldable pub items_onto : Term → List (Bytes × Side × Side) → M Term
  unfolding build_storage_diff_list root_term_for_diff_side diff_side_fields_to_term
      release_snapshot_side
  items_onto list [] = pure list
  items_onto list ((addr, a, b) ∷ items) = do
    storage_diff ← build_storage_diff_list a b
    root_a ← root_term_for_diff_side a
    root_b ← root_term_for_diff_side b
    release_snapshot_side a
    release_snapshot_side b
    items_onto
        (cell
          (tuple6 (binary addr) (diff_side_fields_to_term a) (diff_side_fields_to_term b)
            storage_diff root_a root_b)
          list)
        items

  -- `account_map_difference_full` as one step: the code gives up the locks of the maps behind the loop
  -- that takes the snapshots
  unfoldable pub account_map_difference_full : Term → Term → M Term
  unfolding state_of tree_in both_differences addresses_of take_snapshots items_onto
  account_map_difference_full map_a map_b = with_map map_a λ am_a. with_map map_b λ am_b.
      if am_a == am_b then pure empty_list else (do
        a ← load_map am_a
        b ← load_map am_b
        s ← state_of a.state_trie
        t ← state_of b.state_trie
        if s == t then pure empty_list else (do
          trie_a ← tree_in s
          trie_b ← tree_in t
          output ← lift (both_differences trie_a trie_b)
          items ← take_snapshots a b (addresses_of (each output))
          items_onto empty_list items))
