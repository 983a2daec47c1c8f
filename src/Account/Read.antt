-- ===== src/Account/Read.antt =====
-- The functions of the NIF that read an account map (c_src/nif.cpp). They may bring hashes up to date
-- and turn the compact slots of an account into a trie.
use diode_server.Base.{ℕ, ◌%◌, ◌^◌, Option, none, some, List, [], ◌∷◌, ◌++◌, if◌then◌else◌, length}
use diode_server.Base.Bytes.{Bytes, bin_eq}
use diode_server.Pairs.{Pair}
use diode_server.Trie.{Item, each, size}
use diode_server.Merkle.{Proof, branch, hash, term, root_hash, root_hashes}
use diode_server.Terms.{
  Term, integer, binary, empty_list, cell, tuple2, tuple4, make_atom, get_address,
}
use diode_server.Nif.{zeros, balance_to_term, code_to_term, get_range_entries}
use diode_server.Resource.{with_tree}
use diode_server.Account.{
  AccountEntry, M, ◌>>=◌, ◌>>◌, pure, on_heap, load_map, store_entry, find_account, with_map,
  with_address,
}
use diode_server.Account.Entry.{materialize_storage, root_of, storage_root_hash_for_entry}
use diode_server.Account.Apply.{read_slot}

-- A list with a pair put in front of it for every pair of a trie
unfoldable pub pairs_onto : Term → List Pair → Term
pairs_onto list [] = list
pairs_onto list (p ∷ ps) = pairs_onto (cell (tuple2 (binary p.key) (binary p.value)) list) ps

-- The list of the entries of a range, in their order
unfoldable pub entries_to_term : List (Bytes × Bytes) → Term
entries_to_term [] = empty_list
entries_to_term (slot ∷ slots) =
    cell (tuple2 (binary slot.0) (binary slot.1)) (entries_to_term slots)

-- The bytes of hashes one behind the other
unfoldable pub join_bytes : List Bytes → Bytes
join_bytes [] = []
join_bytes (digest ∷ hashes) = digest ++ join_bytes hashes

-- `make_proof`, with `enif_binary_to_term`
unfoldable pub make_proof : (Bytes → Option Term) → Proof → Term
make_proof binary_to_term (branch left right) =
    tuple2 (make_proof binary_to_term left) (make_proof binary_to_term right)
make_proof binary_to_term (hash bytes) = binary bytes
make_proof binary_to_term (term bytes) = elim (binary_to_term bytes) [
  | none ↦ make_atom "error"
  | some t ↦ t
]

-- The entry of an address, or a given answer
abbrev pub with_account : ℕ → Bytes → Term → (AccountEntry → M Term) → M Term
with_account am addr missing step = do
  shared ← load_map am
  elim (find_account shared.accounts addr) [ none ↦ pure missing | some e ↦ step e ]

-- `account_map_size`
unfoldable pub account_map_size : Term → M Term
account_map_size map =
    with_map map λ am. do shared ← load_map am; pure (integer (length shared.accounts % 2 ^ 32))

module _ (sha : Bytes → Bytes) (fuel : ℕ) where
  -- `account_entry_to_term`
  unfoldable pub account_entry_to_term : AccountEntry → M Term
  unfolding storage_root_hash_for_entry balance_to_term code_to_term
  account_entry_to_term e = do
    root ← storage_root_hash_for_entry sha fuel e
    pure (tuple4 (integer e.nonce) (balance_to_term e.balance) (binary root) (code_to_term e.code))

  -- `make_tree_roots_blob`
  unfoldable pub make_tree_roots_blob : Item → Option (Item × Term)
  unfolding join_bytes
  make_tree_roots_blob t = elim (root_hashes sha fuel t) [
    | none ↦ none
    | some (t', hashes) ↦ elim (root_hash sha fuel t') [
      | none ↦ none
      | some (t'', root) ↦ some (t'', binary (root ++ join_bytes hashes))
    ]
  ]

  -- `account_map_get`
  unfoldable pub account_map_get : Term → Term → M Term
  unfolding get_address account_entry_to_term
  account_map_get map addr_term = with_map map λ am.
      with_address addr_term
        λ addr. with_account am addr (make_atom "undefined") account_entry_to_term

  -- `account_map_root_hash`
  unfoldable pub account_map_root_hash : Term → M Term
  unfolding root_of
  account_map_root_hash map =
      with_map map
        λ am. do shared ← load_map am; root ← root_of sha fuel shared.state_trie; pure (binary root)

  -- `account_map_state_roots`
  unfoldable pub account_map_state_roots : Term → M Term
  unfolding with_tree make_tree_roots_blob
  account_map_state_roots map =
      with_map map
        λ am. do shared ← load_map am; on_heap (with_tree shared.state_trie make_tree_roots_blob)

  -- The loop of `account_map_to_list`
  unfoldable pub accounts_onto : Term → List (Bytes × AccountEntry) → M Term
  unfolding account_entry_to_term
  accounts_onto list [] = pure list
  accounts_onto list (account ∷ accounts) = do
    t ← account_entry_to_term account.1
    accounts_onto (cell (tuple2 (binary account.0) t) list) accounts

  -- `account_map_to_list`
  unfoldable pub account_map_to_list : Term → M Term
  unfolding accounts_onto
  account_map_to_list map =
      with_map map λ am. do shared ← load_map am; accounts_onto empty_list shared.accounts

  -- The storage of an entry of the map, which keeps the trie that `materialize_storage` makes
  unfoldable pub materialize_at : ℕ → Bytes → AccountEntry → M ℕ
  unfolding materialize_storage
  materialize_at am addr e = do
    (e', mt) ← materialize_storage sha fuel e
    store_entry am addr e'
    pure mt

  -- `account_map_storage_get_helper`
  unfoldable pub account_map_storage_get_helper : ℕ → Bytes → Bytes → M Term
  unfolding materialize_at read_slot
  account_map_storage_get_helper am addr key = with_account am addr (make_atom "nil") λ e. do
    mt ← materialize_at am addr e
    value ← read_slot sha fuel mt key
    pure (if bin_eq value zeros then make_atom "nil" else binary value)

  -- `account_map_storage_get_range_helper`
  unfoldable pub account_map_storage_get_range_helper : ℕ → Bytes → Bytes → ℕ → M Term
  unfolding materialize_at with_tree get_range_entries entries_to_term
  account_map_storage_get_range_helper am addr key count = with_account am addr empty_list λ e. do
    mt ← materialize_at am addr e
    entries ← on_heap (with_tree mt λ t. some (t, get_range_entries sha t key count))
    pure (entries_to_term entries)

  -- `account_map_storage_to_list_helper`
  unfoldable pub account_map_storage_to_list_helper : ℕ → Bytes → M Term
  unfolding materialize_at with_tree pairs_onto
  account_map_storage_to_list_helper am addr = with_account am addr empty_list λ e. do
    mt ← materialize_at am addr e
    on_heap (with_tree mt λ t. some (t, pairs_onto empty_list (each t)))

  -- `account_map_storage_size_helper`
  unfoldable pub account_map_storage_size_helper : ℕ → Bytes → M Term
  unfolding materialize_at with_tree
  account_map_storage_size_helper am addr = with_account am addr (integer 0) λ e. do
    mt ← materialize_at am addr e
    on_heap (with_tree mt λ t. some (t, integer (size t % 2 ^ 32)))
