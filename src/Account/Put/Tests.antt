-- ===== src/Account/Put/Tests.antt =====
-- `account_map_put` at a concrete map, and the theorem on it.
use diode_server.Base.{◌≡◌, refl, Option, none, some, [], ◌∷◌, replicate, if◌then◌else◌, ◌==◌, ◌++◌}
use diode_server.Base.Bytes.{Bytes, bin_eq, bin_lt}
use diode_server.Pairs.{is_null, map_get, map_put}
use diode_server.Trie.{split_node, insert_path, get_item}
use diode_server.Merkle.{
  hashes, signature_leaf, leaf_hashes_from, bucket_to_leafes, update_merkle_hash_count, insert_item,
  root_hash,
}
use diode_server.Rlp.{
  le_bytes, swap_at, swap_loop, swap_bytes, append_length_prefix, rlp_encode_bytes,
  rlp_encode_uint64, strip_zeros, rlp_encode_uint256, rlp_encode_list,
}
use diode_server.Terms.{Term, integer, binary, resource, make_atom, get_address, term_is_atom_named}
use diode_server.Nif.{store_from, bytes_of, get_balance_uint256, get_code}
use diode_server.Resource.{
  at, new_state, new_resource, alloc_merkletree_resource, keep_storage_in_map,
  release_merkletree_shared, release_storage_from_map, make_writeable_locked, with_tree,
  insert_in_place, insert_writeable,
}
use diode_server.Account.{
  AccountEntry, SharedAccountMap, World, M, on_load, find_account, set_account,
  new_shared_accountmap, new_entry,
}
use diode_server.Account.Parse.{read_account}
use diode_server.Account.Entry.{
  release_entry_storage, hash_of_code, account_hash, root_of, compute, insert_state_trie_hash,
  prepare_hash, update_state_trie_for_entry, ensure_account_entry,
}
use diode_server.Account.Change.{put_storage, put_meta, put_entry, put_with, account_map_put}
use diode_server.Account.Fork.{account_map_new}
use diode_server.Account.Leaves.{Fields}
use diode_server.Account.Put.{account_map_put-find_account}

program : Unit {0}
unfolding find_account set_account with_tree get_item map_get get_address term_is_atom_named bin_eq
    insert_item insert_path split_node map_put is_null bin_lt root_hash update_merkle_hash_count
    bucket_to_leafes leaf_hashes_from signature_leaf hashes get_balance_uint256 get_code bytes_of
    store_from on_load new_shared_accountmap account_map_new release_entry_storage hash_of_code
    account_hash root_of compute insert_state_trie_hash prepare_hash update_state_trie_for_entry
    ensure_account_entry read_account put_storage put_meta put_entry put_with account_map_put
    new_state new_resource alloc_merkletree_resource keep_storage_in_map release_merkletree_shared
    release_storage_from_map make_writeable_locked insert_in_place insert_writeable le_bytes swap_at
    swap_loop swap_bytes append_length_prefix rlp_encode_bytes rlp_encode_uint64 strip_zeros
    rlp_encode_uint256 rlp_encode_list
program = tt

abbrev digest : Bytes → Bytes
digest bytes = replicate 32 0

abbrev no_encoder : Term → Option Bytes
no_encoder term = none

abbrev addr : Term
addr = binary (replicate 20 1)

abbrev put_keep : Term → M Term
put_keep map =
    account_map_put digest 9 no_encoder map addr (integer 7) (integer 9) (make_atom "keep")
      (make_atom "nil")

abbrev new : AccountEntry
new = record (new_entry (replicate 31 0 ++ 9 ∷ [])) { nonce = 7 }

abbrev no_world : World
no_world = record {
  heap = record { states = []; merkletrees = []; shared_states = 0 };
  compacts = [];
  maps = [];
  empty_storage_tree = 0;
}

-- The worlds before and after a put at an empty map
abbrev world_of : Option (Term × World) → World
world_of none = no_world
world_of (some r) = r.1

abbrev first_map : Option World → World
first_map none = no_world
first_map (some w) = world_of (account_map_new w)

start : World
unfolding program
start = first_map on_load

end : World
unfolding program start
end = world_of (put_keep (resource 0) start)

reads :
    read_account no_encoder addr (integer 7) (integer 9) (make_atom "nil")
    ≡ some (replicate 20 1, new)
unfolding program
reads = refl

runs : put_keep (resource 0) start ≡ some (resource 0, end)
unfolding program start end
runs = refl

account_map_put-find_account_example :
    (before : SharedAccountMap) × (after : SharedAccountMap) × (e : AccountEntry) × (at start.maps 0
      ≡ some before)
    × (at end.maps 0 ≡ (if 0 == 0 then some after else at start.maps 0))
    × (after.frozen ≡ before.frozen)
    × (after.state_trie ≡ before.state_trie)
    × Fields e new
    × (find_account after.accounts (replicate 20 1) ≡ (
        if bin_eq (replicate 20 1) (replicate 20 1)
        then some e
        else find_account before.accounts (replicate 20 1)))
account_map_put-find_account_example =
    account_map_put-find_account digest 9 no_encoder 0 addr (integer 7) (integer 9)
      (make_atom "keep") (make_atom "nil") (replicate 20 1) new start end (replicate 20 1) 0 reads
      runs
