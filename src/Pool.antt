-- ===== src/Pool.antt =====
-- The pool of trie nodes (c_src/item_pool.hpp, c_src/item_pool.cpp): slots, reference counts and the
-- free list as explicit state. The recursive mutex makes each call one step. `none` is an assertion
-- that fails, or an access outside the vectors; `free_list` has its back first.
pub mod Edges
pub mod Counts
pub mod Release
pub mod Alloc
pub mod Fork
pub mod Tests
use mathlib.Core.Option
use diode_server.Base.{
  ℕ, zero, suc, ◌+◌, ◌-◌, ◌%◌, ◌^◌, Bool, true, false, Option, none, some, List, [], ◌∷◌, ◌++◌, ltb,
  leb, ◌==◌, if◌then◌else◌, ◌>>=◌, length, get_or, set, replicate,
}
use diode_server.Base.Bytes.{Bytes}
use diode_server.Bits.{Bits, no_bits}
use diode_server.Pairs.{Pair}

-- `ItemId` and `kItemNull`
abbrev pub ItemId : Type 0
ItemId = ℕ

abbrev pub item_null : ItemId
item_null = 0

-- `Item` without `m_tree`, with its children as ids
pub record Node : Type 0 where
  pub is_leaf : Bool
  pub dirty : Bool
  pub hash_values : Option (List Bytes)
  pub hash_count : ℕ
  pub prefix : Bits
  pub leaf_bucket : Option (List Pair)
  pub left_id : ItemId
  pub right_id : ItemId

-- `Item::Item`
abbrev pub new_leaf : Node
new_leaf = record {
  is_leaf = true;
  dirty = true;
  hash_values = none;
  hash_count = 0;
  prefix = no_bits;
  leaf_bucket = some [];
  left_id = item_null;
  right_id = item_null;
}

-- `ItemPool`
pub record Pool : Type 0 where
  pub nodes : List (Option Node)
  pub refcnt : List ℕ
  pub free_list : List ItemId

-- `ItemPool::ItemPool`
abbrev pub make : Pool
make = record { nodes = none ∷ []; refcnt = 0 ∷ []; free_list = [] }

-- `nodes[id]`, with what is past the end as an empty slot
abbrev pub node_at : Pool → ItemId → Option Node
node_at p id = get_or p.nodes id none

-- `refcnt[id]`
abbrev pub count_at : Pool → ItemId → ℕ
count_at p id = get_or p.refcnt id 0

-- `ItemPool::get`: `some none` is the null pointer
unfoldable pub get : Pool → ItemId → Option (Option Node)
get p id =
    if id == item_null
    then some none
    else elim (node_at p id) [ none ↦ none | some n ↦ some (some n) ]

-- `ItemPool::ensure_slot`
unfoldable pub ensure_slot : Pool → ItemId → Pool
ensure_slot p id =
    if leb (length p.nodes) id
    then record p {
      nodes = p.nodes ++ replicate (id + 1 - length p.nodes) none;
      refcnt = p.refcnt ++ replicate (id + 1 - length p.refcnt) 0;
    }
    else p

-- `ItemPool::incr_ref`; a count has 32 bits
unfoldable pub incr_ref : Pool → ItemId → Option Pool
incr_ref p id =
    if id == item_null
    then some p
    else if ltb id (length p.refcnt)
    then some (record p { refcnt = set p.refcnt id ((count_at p id + 1) % 2 ^ 32) })
    else none

-- `ItemPool::decr_ref` behind the last reference: the children give up theirs, and the slot is freed.
unfoldable pub release : (Pool → ItemId → Option Pool) → ItemId → Option Node → Pool → Option Pool
release decr id none p = none
release decr id (some n) p = do
  p₁ ← decr p n.left_id
  p₂ ← decr p₁ n.right_id
  some (record p₂ { nodes = set p₂.nodes id none; free_list = id ∷ p₂.free_list })

-- `ItemPool::decr_ref`, with fuel for the depth of the calls
unfoldable pub decr_ref : ℕ → Pool → ItemId → Option Pool
unfolding release
decr_ref zero p id = none
decr_ref (suc fuel) p id =
    let lowered = record p { refcnt = set p.refcnt id (count_at p id - 1) } in
    let released = release (decr_ref fuel) id (node_at p id) lowered in
    if id == item_null
    then some p
    else if count_at p id == 0
    then none
    else if ltb 0 (count_at p id - 1)
    then some lowered
    else released

-- The id that `alloc_leaf_nolock` takes, with the slot made ready.
unfoldable pub take_slot : Pool → Pool × ItemId
unfolding ensure_slot
take_slot p = elim p.free_list [
  | id ∷ rest ↦ (ensure_slot (record p { free_list = rest }) id, id)
  | [] ↦ (
    record p { nodes = p.nodes ++ none ∷ []; refcnt = p.refcnt ++ 0 ∷ [] },
    length p.nodes % 2 ^ 32,
  )
]

-- `ItemPool::alloc_leaf`
unfoldable pub alloc_leaf : Pool → Pool × ItemId
unfolding take_slot
alloc_leaf p =
    let (q, id) = take_slot p in
    (record q { nodes = set q.nodes id (some new_leaf); refcnt = set q.refcnt id 0 }, id)

-- `ItemPool::create_root`
unfoldable pub create_root : Pool → Option (Pool × ItemId)
create_root p = do let (q, id) = alloc_leaf p; q' ← incr_ref q id; some (q', id)

-- `ItemPool::is_unique`
unfoldable pub is_unique : Pool → ItemId → Option Bool
is_unique p id =
    if id == item_null
    then some true
    else if ltb id (length p.refcnt)
    then some (leb (count_at p id) 1)
    else none

-- What `clone_for_fork` copies into the new node.
abbrev pub copied : Node → Node
copied src = record src { dirty = true }

-- The new node's references to the children of `src` are counted.
unfoldable pub link_children : Pool → ItemId → Node → Option (Pool × ItemId)
link_children p nid src = do
  p₁ ← incr_ref p src.left_id
  p₂ ← incr_ref p₁ src.right_id
  some (p₂, nid)

-- `ItemPool::clone_for_fork`
unfoldable pub clone_for_fork : Pool → ItemId → Option (Pool × ItemId)
unfolding link_children
clone_for_fork p id = do
  src ← node_at p id
  let (q, nid) = alloc_leaf p
  link_children (record q { nodes = set q.nodes nid (some (copied src)) }) nid src

-- `Tree::fork_for_write`
unfoldable pub fork_for_write : Pool → ItemId → Option (Pool × ItemId)
fork_for_write p id =
    if id == item_null
    then some (p, id)
    else do unique ← is_unique p id; if unique then some (p, id) else clone_for_fork p id

-- `ItemPool::set_left`, with fuel for the release of the old child
unfoldable pub set_left : ℕ → Pool → ItemId → ItemId → Option Pool
set_left fuel p parent child = elim (node_at p parent) [
  | none ↦ none
  | some n ↦ if n.left_id == child then some p else do
    q ← decr_ref fuel p n.left_id
    m ← node_at q parent
    incr_ref (record q { nodes = set q.nodes parent (some (record m { left_id = child })) }) child
]

-- `ItemPool::set_right`
unfoldable pub set_right : ℕ → Pool → ItemId → ItemId → Option Pool
set_right fuel p parent child = elim (node_at p parent) [
  | none ↦ none
  | some n ↦ if n.right_id == child then some p else do
    q ← decr_ref fuel p n.right_id
    m ← node_at q parent
    incr_ref (record q { nodes = set q.nodes parent (some (record m { right_id = child })) }) child
]

-- `ItemPool::live_nodes`: the slots behind the first that hold a node
unfoldable pub count_live : List (Option Node) → ℕ
count_live [] = 0
count_live (none ∷ nodes) = count_live nodes
count_live (some n ∷ nodes) = suc (count_live nodes)

unfoldable pub live_nodes : Pool → ℕ
unfolding count_live
live_nodes p = elim p.nodes [ [] ↦ 0 | first ∷ nodes ↦ count_live nodes ]
