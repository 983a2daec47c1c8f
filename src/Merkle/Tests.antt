-- ===== src/Merkle/Tests.antt =====
-- The theorems on the trie at concrete tries, with a digest that copies the first byte of the key.
use diode_server.Base.{
  ◌≡◌, refl, none, some, [], ◌∷◌, ◌++◌, arith, get_or, sym, replicate, if◌then◌else◌,
}
use diode_server.Base.Bytes.{Bytes, bin_eq, bin_lt}
use diode_server.Bits.{no_bits, bit_at, last_byte, push_back}
use diode_server.Pairs.{
  Pair, make_pair, is_null, insert, set_value, map_put, map_delete, map_get, delete_from,
}
use diode_server.Pairs.Gather.{gather, or_in}
use diode_server.Erl.{to_erl, to_erl_ext, leaf_to_erl_ext}
use diode_server.Trie.{
  Item, leaf, empty, fresh, decide, side, split_node, insert_path, get_bucket, get_item, each,
}
use diode_server.Merkle.{
  Proof, term, insert_item, delete_item, root_hash, hashes, hashed, hash_to_leafindex,
  bucket_to_leaf, bucket_to_leafes, leaf_hashes_from, signature_leaf, update_merkle_hash_count,
  get_proofs, do_get_proofs, difference, difference_from, differs,
}
use diode_server.Trie.Valid.{prefix_of}
use diode_server.Trie.Content.{content}
use diode_server.Merkle.History.{height}
use diode_server.Merkle.Store.{
  IsTree, empty-IsTree, get_item-insert_item, insert_item_total, get_item-root_hash,
  root_hash_unique, root_hash_total, wrote, Reach, start, next, Reach-IsTree,
}
use diode_server.Merkle.Verify.{Proves, get_proofs-Proves}
use diode_server.Merkle.Difference.{changed, difference-changed}

abbrev digest : Bytes → Bytes
digest key = get_or key 0 0 ∷ (replicate 30 0 ++ get_or key 0 0 ∷ [])

program : Unit {0}
unfolding bin_eq bin_lt bit_at last_byte push_back is_null insert set_value map_put map_delete
    map_get delete_from gather to_erl to_erl_ext leaf_to_erl_ext decide side split_node insert_path
    get_bucket get_item each insert_item delete_item root_hash hashes hash_to_leafindex
    bucket_to_leaf bucket_to_leafes leaf_hashes_from signature_leaf update_merkle_hash_count
    get_proofs do_get_proofs difference difference_from differs prefix_of content height changed
program = tt

abbrev key : Bytes
key = 1 ∷ []

abbrev value : Bytes
value = replicate 31 0 ++ 7 ∷ []

abbrev pair : Pair
pair = make_pair digest key value

abbrev one : Item
one = leaf (fresh no_bits) (pair ∷ [])

insert_run : insert_item digest 300 empty key value ≡ some one
unfolding program
insert_run = refl

one-IsTree : IsTree digest one
one-IsTree =
    (get_item-insert_item digest 300 empty one key value (empty-IsTree digest) insert_run).0

get_item-insert_item_example :
    IsTree digest one
    × ((other : Bytes)
        → get_item one (make_pair digest other []) ≡ (
            if bin_eq key other
            then (if is_null value then none else some (make_pair digest key value))
            else get_item empty (make_pair digest other [])))
get_item-insert_item_example =
    get_item-insert_item digest 300 empty one key value (empty-IsTree digest) insert_run

insert_item_total_example : (t : Item) × (insert_item digest 129 one (2 ∷ []) value ≡ some t)
unfolding program
insert_item_total_example =
    insert_item_total digest 129 one (2 ∷ []) value (omega arith) one-IsTree
      (((λ same. let e = same 6 (omega arith) in cc), tt), (tt, tt))

-- The trie with its hashes.
abbrev one_updated : Item
one_updated = leaf (hashed digest (fresh no_bits) (pair ∷ [])) (pair ∷ [])

abbrev one_root : Bytes
one_root = digest (to_erl_ext [] (bucket_to_leafes digest no_bits (pair ∷ [])))

root_run : root_hash digest 2 one ≡ some (one_updated, one_root)
unfolding program
root_run = refl

get_item-root_hash_example :
    IsTree digest one_updated
    × ((k : Bytes)
        → get_item one_updated (make_pair digest k []) ≡ get_item one (make_pair digest k []))
get_item-root_hash_example =
    get_item-root_hash digest 2 one one_updated one_root one-IsTree root_run

-- The updated trie has the root hash of the one that was never updated.
root_again : root_hash digest 5 one_updated ≡ some (one_updated, one_root)
unfolding program
root_again = refl

root_hash_unique_example : (one_updated ≡ one_updated) × (one_root ≡ one_root)
root_hash_unique_example =
    root_hash_unique digest 2 5 one one_updated one_updated one_updated one_root one_root one-IsTree
      get_item-root_hash_example.0 (λ k. sym_lookup k) root_run root_again
  where
    sym_lookup :
        (k : Bytes)
        → get_item one (make_pair digest k []) ≡ get_item one_updated (make_pair digest k [])
    sym_lookup k = sym (get_item-root_hash_example.1 k)

root_hash_total_example : (t' : Item) × (d : Bytes) × (root_hash digest 1 one ≡ some (t', d))
unfolding height
root_hash_total_example = root_hash_total digest 1 one (omega arith) one-IsTree

one-Reach : Reach digest 300 one
one-Reach = next start (wrote key value insert_run)

Reach-IsTree_example : IsTree digest one
Reach-IsTree_example = Reach-IsTree digest 300 one-Reach

abbrev one_proof : Proof
one_proof = term (leaf_to_erl_ext [] 1 no_bits (pair ∷ []))

proof_run : get_proofs digest 2 one key ≡ some (one_updated, one_proof)
unfolding program
proof_run = refl

get_proofs-Proves_example :
    (update_merkle_hash_count digest 2 one ≡ some one_updated)
    × Proves digest one_updated (make_pair digest key (replicate 32 0)) one_updated one_proof
get_proofs-Proves_example =
    get_proofs-Proves digest 2 one one_updated key one_proof one-IsTree proof_run

difference_run : difference digest 300 one empty empty ≡ some one
unfolding program
difference_run = refl

difference-changed_example :
    IsTree digest one
    × ((k : Bytes)
        → get_item one (make_pair digest k [])
          ≡ or_in
              (changed
                (get_item one (make_pair digest k []))
                (get_item empty (make_pair digest k [])))
              (get_item empty (make_pair digest k [])))
difference-changed_example =
    difference-changed digest 300 one empty empty one one-IsTree (empty-IsTree digest)
      difference_run
