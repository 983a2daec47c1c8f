-- ===== src/Resource/Tests.antt =====
-- Resources of c_src/nif.cpp at a concrete heap: a tree, its clone, and a write to the clone.
use diode_server.Base.{ℕ, ◌≡◌, refl, Option, none, some, [], ◌∷◌, replicate}
use diode_server.Base.Cells.{is_some}
use diode_server.Base.Bytes.{Bytes, bin_eq, bin_lt}
use diode_server.Pairs.{is_null, map_put}
use diode_server.Trie.{empty, split_node, insert_path}
use diode_server.Merkle.{insert_item}
use diode_server.Resource.{
  Heap, ◌>>◌, alloc_merkletree_resource, keep_storage_in_map, release_merkletree_shared,
  release_storage_from_map, clone_merkletree_locked, make_writeable_locked, with_tree,
  insert_in_place, insert_writeable, new_state, new_resource, delete_state, delete_resource,
}
use diode_server.Resource.Views.{tree_at}
use diode_server.Resource.Runs.{Returns}
use diode_server.Resource.Refines.{Sound, Wrote, view}
use diode_server.Resource.Calls.{
  allocated, cloned, inserted, no_heap, Reach, start, next, Reach-Sound, Step-Refines, view-Returns,
}

program : Unit {0}
unfolding alloc_merkletree_resource keep_storage_in_map release_merkletree_shared
    release_storage_from_map clone_merkletree_locked make_writeable_locked with_tree insert_in_place
    insert_writeable new_state new_resource delete_state delete_resource insert_item insert_path
    split_node map_put is_null bin_eq bin_lt tree_at
program = tt

abbrev digest : Bytes → Bytes
digest bytes = replicate 32 0

-- The heap that a step leaves
abbrev behind : {Answer : Type 0} → Option (Answer × Heap) → Heap
behind none = no_heap
behind (some r) = r.1

one_tree : Heap
one_tree = behind (alloc_merkletree_resource no_heap)

two_trees : Heap
two_trees = behind (clone_merkletree_locked 0 one_tree)

parted : Heap
parted = behind (insert_writeable digest 9 1 (7 ∷ []) (replicate 32 1) two_trees)

allocating : Returns alloc_merkletree_resource no_heap 0 one_tree
unfolding program one_tree
allocating = refl

cloning : Returns (clone_merkletree_locked 0) one_tree 1 two_trees
unfolding program one_tree two_trees
cloning = refl

writing : Returns (insert_writeable digest 9 1 (7 ∷ []) (replicate 32 1)) two_trees tt parted
unfolding program one_tree two_trees parted
writing = refl

shared : Reach digest 9 two_trees
shared = next (next start (allocated 0 allocating)) (cloned 0 1 cloning)

Reach-Sound_example : Sound digest parted
Reach-Sound_example =
    Reach-Sound digest 9 parted (next shared (inserted 1 (7 ∷ []) (replicate 32 1) writing))

Step-Refines_example :
    Sound digest parted
    × Wrote digest 1 (7 ∷ []) (replicate 32 1) (view digest two_trees) (view digest parted)
Step-Refines_example =
    Step-Refines digest 9 two_trees parted (inserted 1 (7 ∷ []) (replicate 32 1) writing)
      (Reach-Sound digest 9 two_trees shared)

seen : tree_at two_trees 1 ≡ some empty
unfolding program one_tree two_trees
seen = refl

view-Returns_example :
    ((h' : Heap) × Returns (keep_storage_in_map 1) two_trees tt h')
    × ((new : ℕ) × (h' : Heap) × Returns (clone_merkletree_locked 1) two_trees new h')
    × ((h' : Heap) × Returns (release_storage_from_map 1) two_trees tt h')
    × (is_some (insert_writeable digest 9 1 (7 ∷ []) (replicate 32 1) two_trees)
        ≡ is_some (insert_item digest 9 empty (7 ∷ []) (replicate 32 1)))
view-Returns_example =
    view-Returns digest 9 two_trees 1 empty (7 ∷ []) (replicate 32 1)
      (Reach-Sound digest 9 two_trees shared) seen

-- Behind the write the original is as it was.
kept_apart : tree_at parted 0 ≡ some empty
unfolding program one_tree two_trees parted
kept_apart = refl

-- The last two releases free everything.
emptied : Heap
emptied = behind ((release_storage_from_map 0 >> release_storage_from_map 1) parted)

counter : emptied.shared_states ≡ 0
unfolding program one_tree two_trees parted emptied
counter = refl
