-- ===== src/Merkle.antt =====
-- The hashes of the trie (`update_merkle_hash_count`, `root_hash`, `get_proofs`, `difference` of
-- c_src/merkletree.cpp), over a parameter `sha` for the SHA-256 of sha.h. An update changes the
-- nodes in place, so these functions return the updated trie beside their result.
pub mod Canon
pub mod History
pub mod Store
pub mod Verify
pub mod Difference
mod Tests
use mathlib.Core.Option
use diode_server.Base
use diode_server.Base.{
  ℕ, zero, suc, ◌+◌, ◌%◌, Bool, true, false, not, Option, none, some, List, [], ◌∷◌, ◌++◌, ltb, leb,
  ◌==◌, if◌then◌else◌, ◌>>=◌, length, replicate,
}
use diode_server.Base.Bytes.{Bytes, bin_eq}
use diode_server.Bits.{Bits, last_byte}
use diode_server.Pairs.{Pair, make_pair, leaf_size}
use diode_server.Pairs.Gather.{gather}
use diode_server.Erl.{leaf_to_erl_ext, to_erl_ext}
use diode_server.Trie.{
  Header, Item, leaf, inner, header, set_dirty, decide, split_node, insert_path, get_item, each,
}

-- `Item::ensure_hashes`
unfoldable pub hashes : Item → List Bytes
hashes t = Option.get_or (header t).hash_values (replicate leaf_size (replicate 32 0))

-- `hash_to_leafindex`
unfoldable pub hash_to_leafindex : Pair → ℕ
hash_to_leafindex p = last_byte p.key_hash % leaf_size

-- The bucket that `bucket_to_leaf` gives the leaf `i`.
unfoldable pub bucket_to_leaf : ℕ → List Pair → List Pair
bucket_to_leaf i [] = []
bucket_to_leaf i (p ∷ bucket) =
    if hash_to_leafindex p == i then p ∷ bucket_to_leaf i bucket else bucket_to_leaf i bucket

module _ (sha : Bytes → Bytes) where
  -- `signature(Leaf &, bin_t &)` and `signature(uint256_t &, uint256_t &, bin_t &)`
  unfoldable pub signature_leaf : ℕ → Bits → List Pair → Bytes
  signature_leaf num prefix bucket = sha (leaf_to_erl_ext [] num prefix bucket)

  unfoldable pub signature : Bytes → Bytes → Bytes
  signature left right = sha (to_erl_ext [] (left ∷ right ∷ []))

  -- The loop of `Tree::bucket_to_leafes`, from the leaf `i`.
  unfoldable pub leaf_hashes_from : ℕ → ℕ → Bits → List Pair → List Bytes
  leaf_hashes_from zero i prefix bucket = []
  leaf_hashes_from (suc left) i prefix bucket =
      signature_leaf i prefix (bucket_to_leaf i bucket)
      ∷ leaf_hashes_from left (i + 1) prefix bucket

  -- `Tree::bucket_to_leafes`
  unfoldable pub bucket_to_leafes : Bits → List Pair → List Bytes
  bucket_to_leafes prefix bucket = leaf_hashes_from leaf_size 0 prefix bucket

  -- The header of a leaf whose hashes are those of the bucket.
  abbrev pub hashed : Header → List Pair → Header
  hashed h bucket = record h {
    dirty = false;
    hash_count = length bucket;
    hash_values = some (bucket_to_leafes h.prefix bucket);
  }

  -- The loop over the children's hashes in `update_merkle_hash_count`.
  unfoldable pub join_hashes : List Bytes → List Bytes → List Bytes
  join_hashes [] rh = []
  join_hashes (x ∷ lh) [] = []
  join_hashes (x ∷ lh) (y ∷ rh) = signature x y ∷ join_hashes lh rh

  -- The second half of the branch for inner nodes, once the children are up to date: a node with
  -- few pairs takes them into a bucket of its own. The allocator of the bucket, which the code finds
  -- through `m_tree`, is left out.
  unfoldable pub join : Header → Item → Item → Item
  join h l r =
      let count = (header l).hash_count + (header r).hash_count in
      let bucket = gather [] (each l ++ each r) in
      if leb count leaf_size
      then leaf (record (hashed h bucket) { hash_count = count }) bucket
      else inner
          (record h {
            dirty = false;
            hash_count = count;
            hash_values = some (join_hashes (hashes l) (hashes r));
          })
          l r

  -- `Tree::update_merkle_hash_count`
  unfoldable pub update_merkle_hash_count : ℕ → Item → Option Item
  update_merkle_hash_count zero t = none
  update_merkle_hash_count (suc fuel) (leaf h bucket) =
      let parted = (do
        t ← split_node fuel h bucket
        t' ← update_merkle_hash_count fuel t
        some (set_dirty false t')) in
      if h.dirty
      then if ltb leaf_size (length bucket) then parted else some (leaf (hashed h bucket) bucket)
      else some (leaf h bucket)
  update_merkle_hash_count (suc fuel) (inner h l r) =
      let updated = (do
        l' ← update_merkle_hash_count fuel l
        r' ← update_merkle_hash_count fuel r
        some (join h l' r')) in
      if h.dirty then updated else some (inner h l r)

  -- `Tree::insert_item(bin_t &, uint256_t &)`
  unfoldable pub insert_item : ℕ → Item → Bytes → Bytes → Option Item
  insert_item fuel t key value = insert_path fuel t (make_pair sha key value)

  -- `Tree::delete_item`
  unfoldable pub delete_item : ℕ → Item → Bytes → Option Item
  delete_item fuel t key = insert_item fuel t key (replicate 32 0)

  -- `Tree::root_hash`, with the updated tree
  unfoldable pub root_hash : ℕ → Item → Option (Item × Bytes)
  root_hash fuel t = do
    t' ← update_merkle_hash_count fuel t
    some (t', sha (to_erl_ext [] (hashes t')))

  -- `Tree::root_hashes`, with the updated tree
  unfoldable pub root_hashes : ℕ → Item → Option (Item × List Bytes)
  root_hashes fuel t = do t' ← update_merkle_hash_count fuel t; some (t', hashes t')

-- `proof_t`: the constructors are its types 0, 1 and 2.
pub data Proof : Type 0 where
  branch : Proof → Proof → Proof
  hash : Bytes → Proof
  term : Bytes → Proof

module _ (sha : Bytes → Bytes) where
  -- `do_get_proofs`, with the node whose children it brought up to date
  unfoldable pub do_get_proofs : ℕ → Item → Pair → Option (Item × Proof)
  do_get_proofs zero t p = none
  do_get_proofs (suc fuel) (leaf h bucket) p =
      let index = hash_to_leafindex p in
      some (leaf h bucket, term (leaf_to_erl_ext [] index h.prefix (bucket_to_leaf index bucket)))
  do_get_proofs (suc fuel) (inner h l r) p = do
    l' ← update_merkle_hash_count sha fuel l
    r' ← update_merkle_hash_count sha fuel r
    let index = hash_to_leafindex p
    let on_left = (do
      (l'', proof) ← do_get_proofs fuel l' p
      some (inner h l'' r', branch proof (hash (Base.get_or (hashes r') index []))))
    let on_right = (do
      (r'', proof) ← do_get_proofs fuel r' p
      some (inner h l' r'', branch (hash (Base.get_or (hashes l') index [])) proof))
    if decide p h.prefix.size then on_left else on_right

  -- `Tree::get_proofs`
  unfoldable pub get_proofs : ℕ → Item → Bytes → Option (Item × Proof)
  get_proofs fuel t key = do
    t' ← update_merkle_hash_count sha fuel t
    do_get_proofs fuel t' (make_pair sha key (replicate 32 0))

  -- The test in `Tree::difference`: the other trie has no such pair, or one with another value.
  unfoldable pub differs : Item → Pair → Bool
  differs other p = elim (get_item other p) [ none ↦ true | some q ↦ not (bin_eq q.value p.value) ]

  -- The loop of `Tree::difference` over the pairs of the first trie.
  unfoldable pub difference_from : ℕ → Item → Item → List Pair → Option Item
  difference_from fuel other into [] = some into
  difference_from fuel other into (p ∷ ps) = do
    into' ← (if differs other p then insert_path fuel into p else some into)
    difference_from fuel other into' ps

  -- `Tree::difference`
  unfoldable pub difference : ℕ → Item → Item → Item → Option Item
  difference fuel t other into = difference_from fuel other into (each t)
