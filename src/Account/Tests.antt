-- ===== src/Account/Tests.antt =====
-- The functions on account maps at concrete maps, and the theorems on them.
use diode_server.Base.{
  ℕ, ◌<◌, ◌≤◌, ◌≡◌, refl, ◌⊎◌, Bool, true, false, Option, none, some, [], ◌∷◌, replicate, arith,
}
use diode_server.Base.Bytes.{Bytes, bin_eq, bin_lt}
use diode_server.Pairs.{is_null, map_get, map_put}
use diode_server.Trie.{Item, empty, split_node, insert_path, get_item}
use diode_server.Merkle.{
  hashes, signature_leaf, leaf_hashes_from, bucket_to_leafes, update_merkle_hash_count, insert_item,
  root_hash,
}
use diode_server.Terms.{
  Term, integer, binary, tuple3, badarg, resource, make_atom, get_address, binary_of_size,
  term_is_atom_named,
}
use diode_server.Nif.{
  zeros, uint256_increment, read_storage_slot, range_from, get_range_entries, get_balance_uint256,
}
use diode_server.Resource.{SharedState, with_tree}
use diode_server.Account.{AccountEntry, World, find_account, set_account, new_entry}
use diode_server.Account.Parse.{parse_compact_account, apply_balance, balance_equals_term}
use diode_server.Account.Entry.{
  materialize_storage, root_of, storage_root_hash_for_entry, tree_of_slots,
}
use diode_server.Account.Change.{account_map_put, account_map_delete}
use diode_server.Account.Apply.{account_map_apply_difference, account_map_storage_put_map}
use diode_server.Account.Read.{
  account_map_storage_get_range_helper, materialize_at, entries_to_term,
}
use diode_server.Account.Query.{account_map_storage, storage_range}
use diode_server.Account.Compact.{compact_account_term}
use diode_server.Account.Frozen.{Same, frozen-Same}
use diode_server.Account.RoundTrip.{entries_of, stored, parse_compact_account-compact_account_term}
use diode_server.Account.Materialize.{materialize_storage-storage_root_hash_for_entry}
use diode_server.Account.Bounds.{cells, account_map_storage-InRange}

abbrev digest : Bytes → Bytes
digest bytes = replicate 32 0

abbrev no_encoder : Term → Option Bytes
no_encoder term = none

abbrev addr : Term
addr = binary (replicate 20 1)

abbrev key : Term
key = binary (replicate 32 2)

abbrev value : Term
value = binary (replicate 32 3)

program : Unit {0}
unfolding account_map_storage storage_range account_map_storage_get_range_helper materialize_at
    materialize_storage find_account set_account with_tree get_range_entries range_from
    read_storage_slot get_item map_get entries_to_term get_address binary_of_size term_is_atom_named
    bin_eq tree_of_slots insert_item insert_path split_node map_put is_null bin_lt root_hash
    update_merkle_hash_count bucket_to_leafes leaf_hashes_from signature_leaf hashes
    uint256_increment apply_balance balance_equals_term get_balance_uint256
program = tt

-- A map with one account, whose storage is a resource with an empty tree.
abbrev account : AccountEntry
account = record (new_entry (replicate 32 0)) { storage = some 1; nonce = 7 }

abbrev tree_state : Option SharedState
tree_state = some (record { tree = empty; has_clone = 0 })

abbrev world : Bool → World
world frozen = record {
  heap = record {
    states = tree_state ∷ tree_state ∷ [];
    merkletrees =
        some (record { shared_state = 0; references = 1 })
        ∷ some (record { shared_state = 1; references = 1 })
        ∷ [];
    shared_states = 2;
  };
  compacts =
      record { slots = (replicate 32 2, replicate 32 3) ∷ []; root_hash = []; has_root = false }
      ∷ [];
  maps =
      some (record { frozen = frozen; state_trie = 0; accounts = (replicate 20 1, account) ∷ [] })
      ∷ [];
  empty_storage_tree = 0;
}

frozen-Same_example :
    ((a : Term)
      → account_map_delete digest 9 (resource 0) a (world true) ≡ some (badarg, world true))
    × ((list : Term)
        → account_map_apply_difference digest 9 no_encoder (resource 0) list (world true)
          ≡ some (badarg, world true))
    × ((list : Term)
        → account_map_storage_put_map digest 9 (resource 0) list (world true)
          ≡ some (badarg, world true))
    × ((a nonce balance storage code answer : Term) (w' : World)
        → account_map_put digest 9 no_encoder (resource 0) a nonce balance storage code (world true)
          ≡ some (answer, w')
        → (answer ≡ badarg) × Same (world true) w')
frozen-Same_example =
    frozen-Same digest 9 no_encoder (world true) 0
      (record { frozen = true; state_trie = 0; accounts = (replicate 20 1, account) ∷ [] }) refl
      refl

-- What a run answers, and the world that it leaves
abbrev answer_of : Option (Term × World) → Term
answer_of none = badarg
answer_of (some r) = r.0

abbrev world_of : Option (Term × World) → World
world_of none = world false
world_of (some r) = r.1

abbrev range_run : Option (Term × World)
range_run =
    account_map_storage digest 9 (resource 0) addr (tuple3 (make_atom "range") key (integer 3))
      (world false)

ranged : range_run ≡ some (answer_of range_run, world_of range_run)
unfolding program
ranged = refl

account_map_storage-InRange_example :
    (answer_of range_run ≡ badarg) ⊎ ((0 < 3) × (3 ≤ 256) × (cells (answer_of range_run) ≤ 3))
account_map_storage-InRange_example =
    account_map_storage-InRange digest 9 (world false) (world_of range_run) 0 3 addr
      (make_atom "range") key (answer_of range_run) ranged

parse_compact_account-compact_account_term_example :
    parse_compact_account no_encoder (
      compact_account_term account
        (replicate 32 4)
        (replicate 32 5)
        (entries_of ((replicate 32 2, replicate 32 3) ∷ []))
        1)
    ≡ some (record {
      account = record (new_entry (replicate 32 0)) { nonce = 7; code = [] };
      slots = stored ((replicate 32 2, replicate 32 3) ∷ []);
      compact_root_hash = some (replicate 32 4);
      compact_code_hash = some (replicate 32 5);
    })
parse_compact_account-compact_account_term_example =
    parse_compact_account-compact_account_term no_encoder account (replicate 32 4) (replicate 32 5)
      ((replicate 32 2, replicate 32 3) ∷ []) (omega arith)
      (record { len = refl; bytes = omega arith }) refl refl (refl, tt)

-- An account with compact slots
abbrev compact_account : AccountEntry
compact_account = record (new_entry (replicate 32 0)) { compact_storage = some 0 }

abbrev item_of : Option Item → Item
item_of none = empty
item_of (some t) = t

slots_tree : Item
slots_tree = item_of (tree_of_slots digest 9 empty ((replicate 32 2, replicate 32 3) ∷ []))

abbrev rooted_of : Option (Item × Bytes) → Item × Bytes
rooted_of none = (empty, [])
rooted_of (some r) = r

rooted : Item × Bytes
rooted = rooted_of (root_hash digest 9 slots_tree)

slots_taken : tree_of_slots digest 9 empty ((replicate 32 2, replicate 32 3) ∷ []) ≡ some slots_tree
unfolding program slots_tree
slots_taken = refl

root_taken : root_hash digest 9 slots_tree ≡ some (rooted.0, rooted.1)
unfolding program slots_tree rooted
root_taken = refl

materialize_storage-storage_root_hash_for_entry_example :
    ((w₁ : World) × (storage_root_hash_for_entry digest 9 compact_account (world false)
        ≡ some (rooted.1, w₁)))
    × ((e' : AccountEntry) × (mt : ℕ) × (w₂ : World) × (w₃ : World) × (materialize_storage digest 9
            compact_account
            (world false)
          ≡ some ((e', mt), w₂))
        × (e'.storage ≡ some mt)
        × (root_of digest 9 mt w₂ ≡ some (rooted.1, w₃)))
materialize_storage-storage_root_hash_for_entry_example =
    materialize_storage-storage_root_hash_for_entry digest 9 (world false) compact_account 0
      (replicate 32 2, replicate 32 3) [] slots_tree rooted.0 [] rooted.1 refl refl refl slots_taken
      root_taken

-- A difference whose new balance is no balance has cleared the balance when it is refused.
balance_cleared :
    apply_balance no_encoder
      (record account { balance = replicate 32 1 })
      (binary (replicate 32 1))
      (make_atom "none")
    ≡ (record account { balance = zeros }, false)
unfolding program
balance_cleared = refl
