-- ===== src/Account/Delete/Tests.antt =====
-- `account_map_delete` at a concrete map, and the theorem on it.
use diode_server.Base.{
  ◌≡◌, refl, Option, none, some, false, [], ◌∷◌, replicate, if◌then◌else◌, ◌==◌,
}
use diode_server.Base.Bytes.{Bytes, bin_eq, bin_lt}
use diode_server.Pairs.{is_null, map_delete}
use diode_server.Trie.{empty, split_node, insert_path}
use diode_server.Merkle.{insert_item}
use diode_server.Terms.{Term, binary, resource, get_address}
use diode_server.Resource.{
  SharedState, at, delete_state, delete_resource, release_merkletree_shared,
  release_storage_from_map, make_writeable_locked, with_tree, insert_in_place, insert_writeable,
}
use diode_server.Account.{
  AccountEntry, SharedAccountMap, World, find_account, erase_account, new_entry,
}
use diode_server.Account.Entry.{
  release_entry_storage, insert_state_trie_hash, remove_state_trie_entry,
}
use diode_server.Account.Change.{account_map_delete}
use diode_server.Account.Delete.{Distinct, account_map_delete-find_account}

program : Unit {0}
unfolding find_account erase_account with_tree get_address bin_eq insert_item insert_path split_node
    map_delete is_null bin_lt release_entry_storage insert_state_trie_hash remove_state_trie_entry
    account_map_delete delete_state delete_resource release_merkletree_shared
    release_storage_from_map make_writeable_locked insert_in_place insert_writeable
program = tt

abbrev digest : Bytes → Bytes
digest bytes = replicate 32 0

abbrev tree_state : Option SharedState
tree_state = some (record { tree = empty; has_clone = 0 })

abbrev account : AccountEntry
account = record (new_entry (replicate 32 0)) { storage = some 1; nonce = 7 }

-- A map with two accounts
abbrev before : SharedAccountMap
before = record {
  frozen = false;
  state_trie = 0;
  accounts = (replicate 20 1, account) ∷ (replicate 20 2, new_entry (replicate 32 0)) ∷ [];
}

abbrev world : World
world = record {
  heap = record {
    states = tree_state ∷ tree_state ∷ tree_state ∷ [];
    merkletrees =
        some (record { shared_state = 0; references = 1 })
        ∷ some (record { shared_state = 1; references = 1 })
        ∷ some (record { shared_state = 2; references = 1 })
        ∷ [];
    shared_states = 3;
  };
  compacts = [];
  maps = some before ∷ [];
  empty_storage_tree = 2;
}

abbrev world_of : Option (Term × World) → World
world_of none = world
world_of (some r) = r.1

end : World
unfolding program
end = world_of (account_map_delete digest 9 (resource 0) (binary (replicate 20 1)) world)

deleting :
    account_map_delete digest 9 (resource 0) (binary (replicate 20 1)) world
    ≡ some (resource 0, end)
unfolding program end
deleting = refl

addressed : get_address (binary (replicate 20 1)) ≡ some (replicate 20 1)
unfolding program
addressed = refl

distinct : Distinct before.accounts
unfolding program
distinct = (refl, (refl, tt))

account_map_delete-find_account_example :
    (after : SharedAccountMap) × (at end.maps 0 ≡ (if 0 == 0 then some after else at world.maps 0))
    × (after.frozen ≡ before.frozen)
    × (after.state_trie ≡ before.state_trie)
    × Distinct after.accounts
    × (find_account after.accounts (replicate 20 2) ≡ (
        if bin_eq (replicate 20 1) (replicate 20 2)
        then none
        else find_account before.accounts (replicate 20 2)))
account_map_delete-find_account_example =
    account_map_delete-find_account digest 9 0 (binary (replicate 20 1)) (replicate 20 1) before
      world end (replicate 20 2) 0 addressed refl distinct deleting
