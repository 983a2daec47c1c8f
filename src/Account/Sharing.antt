-- ===== src/Account/Sharing.antt =====
-- Whom a write to another map reaches in c_src/nif.cpp, at concrete maps: a clone keeps its storage to
-- itself, and a map that `account_map_uncompact_state` makes of a map shares its resources.
use diode_server.Base.{◌≡◌, refl, Option, none, some, replicate}
use diode_server.Base.Bytes.{Bytes, bin_eq, bin_lt}
use diode_server.Pairs.{is_null, map_get, map_put, map_delete}
use diode_server.Trie.{split_node, insert_path, get_item}
use diode_server.Merkle.{
  hashes, signature_leaf, leaf_hashes_from, bucket_to_leafes, update_merkle_hash_count, insert_item,
  root_hash,
}
use diode_server.Terms.{
  Term, integer, binary, empty_list, cell, tuple2, resource, make_atom, get_address, binary_of_size,
  term_is_atom_named, term_is_nil,
}
use diode_server.Nif.{
  uint256_increment, read_storage_slot, range_from, get_range_entries, get_code,
  get_balance_uint256, store_from, bytes_of, decode_storage_slot,
}
use diode_server.Resource.{
  with_tree, new_state, new_resource, alloc_merkletree_resource, keep_storage_in_map,
  release_merkletree_shared, release_storage_from_map, clone_merkletree_locked,
  make_writeable_locked, insert_in_place, insert_writeable,
}
use diode_server.Account.{M, ◌>>=◌, find_account, set_account, on_load, new_shared_accountmap}
use diode_server.Account.Parse.{read_pair, read_account}
use diode_server.Account.Entry.{
  materialize_storage, root_of, tree_of_slots, release_entry_storage, hash_of_code, account_hash,
  compute, insert_state_trie_hash, prepare_hash, update_state_trie_for_entry, ensure_account_entry,
  write_storage_slot,
}
use diode_server.Account.Change.{
  account_map_put, insert_kv_list, storage_from_kv_list, put_storage, put_entry, put_with,
}
use diode_server.Account.Apply.{
  account_map_storage_put_map, read_slot, put_slots, put_account_slots, put_lists,
}
use diode_server.Account.Read.{
  account_map_storage_get_range_helper, materialize_at, entries_to_term,
  account_map_storage_get_helper,
}
use diode_server.Account.Query.{account_map_storage, storage_range, storage_get}
use diode_server.Account.Fork.{
  account_map_new, account_map_clone, account_map_lock, find_clone, clone_once, fork_entry,
  fork_entries, release_clones, fork_shared_accountmap,
}
use diode_server.Account.Compact.{
  account_map_uncompact_state, insert_sorted, sort_items, adopt_storage, append_uncompacted_account,
  insert_items, batch_insert_state_items, append_accounts, finish_uncompact,
}
use diode_server.Rlp.{
  le_bytes, swap_at, swap_loop, swap_bytes, append_length_prefix, rlp_encode_bytes,
  rlp_encode_uint64, strip_zeros, rlp_encode_uint256, rlp_encode_list,
}

abbrev digest : Bytes → Bytes
digest bytes = replicate 32 0

abbrev no_encoder : Term → Option Bytes
no_encoder term = none

abbrev addr : Term
addr = binary (replicate 20 1)

abbrev key : Term
key = binary (replicate 32 2)

abbrev value : Term
value = binary (replicate 32 3)

program : Unit {0}
unfolding account_map_storage storage_range account_map_storage_get_range_helper materialize_at
    materialize_storage find_account set_account with_tree get_range_entries range_from
    read_storage_slot get_item map_get entries_to_term get_address binary_of_size term_is_atom_named
    bin_eq tree_of_slots insert_item insert_path split_node map_put is_null bin_lt root_hash
    update_merkle_hash_count bucket_to_leafes leaf_hashes_from signature_leaf hashes
    uint256_increment get_balance_uint256 new_shared_accountmap on_load release_entry_storage
    hash_of_code account_hash root_of compute insert_state_trie_hash prepare_hash
    update_state_trie_for_entry ensure_account_entry write_storage_slot read_pair read_account
    insert_kv_list storage_from_kv_list put_storage put_entry put_with account_map_put read_slot
    put_slots put_account_slots put_lists account_map_storage_put_map account_map_storage_get_helper
    storage_get find_clone clone_once fork_entry fork_entries release_clones fork_shared_accountmap
    account_map_new account_map_clone account_map_lock insert_sorted sort_items adopt_storage
    append_uncompacted_account insert_items batch_insert_state_items append_accounts
    finish_uncompact account_map_uncompact_state new_state new_resource alloc_merkletree_resource
    keep_storage_in_map release_merkletree_shared release_storage_from_map clone_merkletree_locked
    make_writeable_locked insert_in_place insert_writeable le_bytes swap_at swap_loop swap_bytes
    append_length_prefix rlp_encode_bytes rlp_encode_uint64 strip_zeros rlp_encode_uint256
    rlp_encode_list store_from bytes_of get_code decode_storage_slot term_is_nil map_delete
program = tt

-- A write to what `uncompact_state` made of a frozen map is seen through the frozen map.
shared_write : M Term
shared_write = do
  map ← account_map_new
  put ←
      account_map_put digest 9 no_encoder map addr (integer 7) (integer 9)
        (cell (tuple2 key value) empty_list) (make_atom "nil")
  locked ← account_map_lock map
  made ← account_map_uncompact_state digest 9 no_encoder map
  other ←
      account_map_storage_put_map digest 9 (resource 1)
        (cell (tuple2 addr (cell (tuple2 key key) empty_list)) empty_list)
  account_map_storage digest 9 map addr (tuple2 (make_atom "get") key)

-- A write to a clone is not.
clone_write : M Term
clone_write = do
  map ← account_map_new
  put ←
      account_map_put digest 9 no_encoder map addr (integer 7) (integer 9)
        (cell (tuple2 key value) empty_list) (make_atom "nil")
  locked ← account_map_lock map
  clone ← account_map_clone map
  other ←
      account_map_storage_put_map digest 9 clone
        (cell (tuple2 addr (cell (tuple2 key key) empty_list)) empty_list)
  account_map_storage digest 9 map addr (tuple2 (make_atom "get") key)

answer : M Term → Option Term
unfolding on_load
answer step = elim on_load [
  | none ↦ none
  | some w ↦ elim (step w) [ none ↦ none | some r ↦ some r.0 ]
]

seen_through : answer shared_write ≡ some key
unfolding program answer shared_write
seen_through = refl

kept_apart : answer clone_write ≡ some value
unfolding program answer clone_write
kept_apart = refl
