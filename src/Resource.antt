-- ===== src/Resource.antt =====
-- The merkletree resources of the NIF (`merkletree`, `SharedState` and the functions on them in
-- c_src/nif.cpp). A pointer is a position in the heap, and `none` there is memory that was freed; a
-- step without a result has followed such a pointer, or run out of the fuel of the trie. A resource
-- stands beside the number of references that `enif_keep_resource` and `enif_release_resource` count.
pub mod Counts
pub mod Steps
pub mod Views
pub mod Release
pub mod Runs
pub mod Refines
pub mod Outcomes
pub mod Calls
pub mod Stats
mod Tests
use diode_server.Base.{
  ℕ, zero, suc, ◌+◌, ◌-◌, Bool, true, false, Option, none, some, List, [], ◌∷◌, ◌++◌, leb, ltb,
  ◌==◌, if◌then◌else◌, length, get_or, set,
}
use mathlib.Core.Option
use diode_server.Base.Bytes.{Bytes}
use diode_server.Trie.{Item, empty}
use diode_server.Merkle.{insert_item}

-- `SharedState`
pub record SharedState : Type 0 where
  pub tree : Item
  pub has_clone : ℕ

-- `merkletree`
pub record Merkletree : Type 0 where
  pub shared_state : ℕ
  pub references : ℕ

-- The memory, with the counter `shared_states` of `stats_mutex`. The counter `resources` is changed by
-- `STAT` only, which a build without `DEBUG` leaves out.
pub record Heap : Type 0 where
  pub states : List (Option SharedState)
  pub merkletrees : List (Option Merkletree)
  pub shared_states : ℕ

abbrev pub H : Type 0 → Type 0
H Answer = Heap → Option (Answer × Heap)

abbrev continue : {Answer B : Type 0} → (Answer → H B) → Option (Answer × Heap) → Option (B × Heap)
continue rest none = none
continue rest (some (answer, heap)) = rest answer heap

infixl 5 ◌>>=◌ ◌>>◌
abbrev pub ◌>>=◌ : {Answer B : Type 0} → H Answer → (Answer → H B) → H B
(step >>= rest) heap = continue rest (step heap)

abbrev pub ◌>>◌ : {B : Type 0} → H (Unit {0}) → H B → H B
step >> rest = step >>= λ answer. rest

abbrev pub pure : {Answer : Type 0} → Answer → H Answer
pure answer heap = some (answer, heap)

-- The value of a computation that may fail and leaves the heap alone
abbrev pub lift : {Answer : Type 0} → Option Answer → H Answer
lift none heap = none
lift (some answer) heap = some (answer, heap)

-- What a pointer points to
abbrev pub at {ℓ} : {A : Type ℓ} → List (Option A) → ℕ → Option A
at cells p = get_or cells p none

abbrev pub load_resource : ℕ → H Merkletree
load_resource mt heap = lift (at heap.merkletrees mt) heap

abbrev pub load_state : ℕ → H SharedState
load_state s heap = lift (at heap.states s) heap

abbrev pub store_resource : ℕ → Merkletree → H (Unit {0})
store_resource mt r heap = some (tt, record heap { merkletrees = set heap.merkletrees mt (some r) })

abbrev pub store_state : ℕ → SharedState → H (Unit {0})
store_state s state heap = some (tt, record heap { states = set heap.states s (some state) })

-- `new SharedState` and `delete`
unfoldable pub new_state : SharedState → H ℕ
new_state state heap = some (
  length heap.states,
  record heap { states = heap.states ++ some state ∷ []; shared_states = heap.shared_states + 1 },
)

unfoldable pub delete_state : ℕ → H (Unit {0})
delete_state s heap =
    some
      (tt, record heap { states = set heap.states s none; shared_states = heap.shared_states - 1 })

-- `enif_alloc_resource` for a `merkletree`, and the end of `destruct_merkletree_type`
unfoldable pub new_resource : ℕ → H ℕ
new_resource s heap = some (
  length heap.merkletrees,
  record heap {
    merkletrees = heap.merkletrees ++ some (record { shared_state = s; references = 1 }) ∷ [];
  },
)

unfoldable pub delete_resource : ℕ → H (Unit {0})
delete_resource mt heap = some (tt, record heap { merkletrees = set heap.merkletrees mt none })

-- `alloc_merkletree_resource`
unfoldable pub alloc_merkletree_resource : H ℕ
unfolding new_state new_resource
alloc_merkletree_resource = do
  s ← new_state (record { tree = empty; has_clone = 0 })
  new_resource s

-- `keep_storage_in_map`, which is `enif_keep_resource`
unfoldable pub keep_storage_in_map : ℕ → H (Unit {0})
keep_storage_in_map mt = do
  r ← load_resource mt
  store_resource mt (record r { references = r.references + 1 })

-- `release_merkletree_shared`
unfoldable pub release_merkletree_shared : Merkletree → H (Unit {0})
unfolding delete_state
release_merkletree_shared r = do
  state ← load_state r.shared_state
  if state.has_clone == 0
      then delete_state r.shared_state
      else store_state r.shared_state (record state { has_clone = state.has_clone - 1 })

-- `release_storage_from_map`, which is `enif_release_resource`; the last release runs
-- `destruct_merkletree_type`
unfoldable pub release_storage_from_map : ℕ → H (Unit {0})
unfolding release_merkletree_shared delete_resource
release_storage_from_map mt = do
  r ← load_resource mt
  if ltb 1 r.references
      then store_resource mt (record r { references = r.references - 1 })
      else (do release_merkletree_shared r; delete_resource mt)

-- `clone_merkletree_locked`
unfoldable pub clone_merkletree_locked : ℕ → H ℕ
unfolding new_resource
clone_merkletree_locked mt = do
  r ← load_resource mt
  state ← load_state r.shared_state
  store_state r.shared_state (record state { has_clone = state.has_clone + 1 })
  new_resource r.shared_state

-- `make_writeable_locked`
unfoldable pub make_writeable_locked : ℕ → H (Unit {0})
unfolding new_state
make_writeable_locked mt = do
  r ← load_resource mt
  state ← load_state r.shared_state
  if state.has_clone == 0 then pure tt else (do
    store_state r.shared_state (record state { has_clone = state.has_clone - 1 })
    s ← new_state (record { tree = state.tree; has_clone = 0 })
    store_resource mt (record r { shared_state = s }))

-- An operation on the tree of a resource under its lock: `mt->shared_state->tree`
unfoldable pub with_tree : {Answer : Type 0} → ℕ → (Item → Option (Item × Answer)) → H Answer
with_tree mt operation = do
  r ← load_resource mt
  state ← load_state r.shared_state
  (tree, answer) ← lift (operation state.tree)
  store_state r.shared_state (record state { tree = tree })
  pure answer

-- A write in place, and one behind `make_writeable_locked`
module _ (sha : Bytes → Bytes) (fuel : ℕ) where
  unfoldable pub insert_in_place : ℕ → Bytes → Bytes → H (Unit {0})
  unfolding with_tree
  insert_in_place mt key value =
      with_tree mt λ tree. Option.map (λ t. (t, tt)) (insert_item sha fuel tree key value)

  unfoldable pub insert_writeable : ℕ → Bytes → Bytes → H (Unit {0})
  unfolding make_writeable_locked insert_in_place
  insert_writeable mt key value = do make_writeable_locked mt; insert_in_place mt key value
