-- ===== src/Trie.antt =====
-- The trie (`Item` and `Tree` of c_src/merkletree.hpp and c_src/merkletree.cpp), read from its root
-- with each child in the place of its id: a node whose children are ids of other nodes is the
-- constructor `inner`, and one with a bucket is `leaf`. In this reading a node that
-- `fork_for_write` clones and one that it returns are the same value, so writes give new values.
-- The recursions that the code does not bound take fuel; `none` says that it ran out, or that a
-- prefix has no room for another bit.
pub mod Valid
pub mod Split
pub mod Total
pub mod Insert
pub mod Outcome
pub mod Content
use diode_server.Base.{
  ℕ, zero, suc, ◌+◌, ◌%◌, Bool, true, false, not, Option, none, some, List, [], ◌∷◌, ◌++◌, leb,
  if◌then◌else◌, ◌>>=◌, length,
}
use diode_server.Base.Bytes.{Bytes}
use diode_server.Bits.{Bits, no_bits, bit_at}
use diode_server.Bits
use diode_server.Pairs.{Pair, leaf_size, is_null, map_get, map_put, map_delete}

-- The fields of `Item` beside its children, its bucket and `m_tree`; `hash_values` is `none` for a
-- null pointer. `m_tree`, which leads to the allocator of pairs, is left out with the memory below
-- the pairs.
pub record Header : Type 0 where
  pub dirty : Bool
  pub hash_values : Option (List Bytes)
  pub hash_count : ℕ
  pub prefix : Bits

pub data Item : Type 0 where
  leaf : Header → List Pair → Item
  inner : Header → Item → Item → Item

-- The constructor `Item(Tree &)`, with the prefix that the caller sets.
abbrev pub fresh : Bits → Header
fresh prefix = record { dirty = true; hash_values = none; hash_count = 0; prefix = prefix }

abbrev pub empty : Item
empty = leaf (fresh no_bits) []

abbrev pub header : Item → Header
header (leaf h b) = h
header (inner h l r) = h

abbrev pub set_dirty : Bool → Item → Item
set_dirty d (leaf h b) = leaf (record h { dirty = d }) b
set_dirty d (inner h l r) = inner (record h { dirty = d }) l r

-- `decide`, true for the left side; the prefix length is passed as a `uint8_t`
unfoldable pub decide : Pair → ℕ → Bool
decide p prefix_len = not (bit_at p.key_hash (prefix_len % 256))

abbrev pub agrees : Bool → Bool → Bool
agrees true b = b
agrees false b = not b

-- The pairs of a bucket that `decide` sends to the left, or those that it does not, in their order.
unfoldable pub side : Bool → ℕ → List Pair → List Pair
side left n [] = []
side left n (p ∷ bucket) =
    let rest = side left n bucket in if agrees left (decide p n) then p ∷ rest else rest

-- `Tree::split_node`, at a leaf
unfoldable pub split_node : ℕ → Header → List Pair → Option Item
unfolding side
split_node zero h bucket = none
split_node (suc fuel) h bucket =
    let parted = (do
      to_left ← Bits.push_back h.prefix false
      to_right ← Bits.push_back h.prefix true
      l ← split_node fuel (fresh to_left) (side true h.prefix.size bucket)
      r ← split_node fuel (fresh to_right) (side false h.prefix.size bucket)
      some (inner (record h { dirty = true }) l r)) in
    if leb (length bucket) leaf_size then some (leaf h bucket) else parted

-- `Tree::insert_path`
unfoldable pub insert_path : ℕ → Item → Pair → Option Item
unfolding split_node
insert_path fuel (leaf h bucket) p =
    let put = (do t ← split_node fuel h (map_put bucket p); some (set_dirty true t)) in
    if is_null p.value
    then some (leaf (record h { dirty = true }) (map_delete bucket p.key))
    else put
insert_path fuel (inner h l r) p =
    let on_left = (do l' ← insert_path fuel l p; some (inner (record h { dirty = true }) l' r)) in
    let on_right = (do r' ← insert_path fuel r p; some (inner (record h { dirty = true }) l r')) in
    if decide p h.prefix.size then on_left else on_right

-- `get_bucket`, the bucket of the leaf it finds
unfoldable pub get_bucket : Item → Pair → List Pair
get_bucket (leaf h bucket) p = bucket
get_bucket (inner h l r) p =
    let on_left = get_bucket l p in
    let on_right = get_bucket r p in if decide p h.prefix.size then on_left else on_right

-- `Tree::get_item`
unfoldable pub get_item : Item → Pair → Option Pair
unfolding get_bucket
get_item t p = map_get (get_bucket t p) p.key

-- The pairs in the order in which `Item::each` passes them to its function.
unfoldable pub each : Item → List Pair
each (leaf h bucket) = bucket
each (inner h l r) = each l ++ each r

-- `Tree::size`
unfoldable pub size : Item → ℕ
unfolding each
size t = length (each t)

-- `count_nodes`, from the root on `Tree::node_count`
unfoldable pub node_count : Item → ℕ
node_count (leaf h bucket) = 1
node_count (inner h l r) = 1 + node_count l + node_count r
