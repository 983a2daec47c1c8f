-- ===== src/Account/Slots/Tests.antt =====
-- A write of a slot through one of two resources that share a tree.
use diode_server.Base.{◌≡◌, refl, Option, none, some, [], replicate, if◌then◌else◌, ◌==◌, arith}
use diode_server.Base.Bytes.{Bytes}
use diode_server.Trie.{empty, each}
use diode_server.Nif.{read_storage_slot}
use diode_server.Resource.{
  Heap, alloc_merkletree_resource, clone_merkletree_locked, new_state, new_resource,
}
use diode_server.Resource.Views.{tree_at}
use diode_server.Resource.Runs.{Returns}
use diode_server.Resource.Refines.{Sound}
use diode_server.Resource.Calls.{allocated, cloned, no_heap, start, next, Reach-Sound}
use diode_server.Account.{AccountEntry, World, new_entry}
use diode_server.Account.Entry.{write_storage_slot}
use diode_server.Account.Slots.{slot_at, slot_after, write_storage_slot-slot_at}

program : Unit {0}
unfolding alloc_merkletree_resource clone_merkletree_locked new_state new_resource tree_at each
program = tt

abbrev digest : Bytes → Bytes
digest bytes = replicate 32 0

abbrev behind : {Answer : Type 0} → Option (Answer × Heap) → Heap
behind none = no_heap
behind (some r) = r.1

one_tree : Heap
one_tree = behind (alloc_merkletree_resource no_heap)

two_trees : Heap
two_trees = behind (clone_merkletree_locked 0 one_tree)

allocating : Returns alloc_merkletree_resource no_heap 0 one_tree
unfolding program one_tree
allocating = refl

cloning : Returns (clone_merkletree_locked 0) one_tree 1 two_trees
unfolding program one_tree two_trees
cloning = refl

two_trees-Sound : Sound digest two_trees
two_trees-Sound =
    Reach-Sound digest 9 two_trees (next (next start (allocated 0 allocating)) (cloned 0 1 cloning))

seen : tree_at two_trees 1 ≡ some empty
unfolding program one_tree two_trees
seen = refl

abbrev world : World
world = record { heap = two_trees; compacts = []; maps = []; empty_storage_tree = 0 }

abbrev account : AccountEntry
account = record (new_entry (replicate 32 0)) { storage = some 1 }

abbrev key : Bytes
key = replicate 32 2

abbrev value : Bytes
value = replicate 32 3

write_storage_slot-slot_at_example :
    (w' : World) × (write_storage_slot digest 129 account key value world
      ≡ some (record account { compact_storage = none }, w'))
    × Sound digest w'.heap
    × (w'.maps ≡ world.maps)
    × (slot_at digest 129 w' 0 key ≡ (
        if 1 == 0
        then some (slot_after key value (read_storage_slot digest empty key) key)
        else slot_at digest 129 world 0 key))
unfolding program
write_storage_slot-slot_at_example =
    write_storage_slot-slot_at digest 129 world account 1 empty key value 0 key (omega arith)
      two_trees-Sound refl seen (tt, tt)
