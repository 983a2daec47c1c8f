-- ===== src/Account.antt =====
-- The account map of the NIF (c_src/nif.cpp): accounts by address with their storage, and the trie
-- of their hashes. A `SharedAccountMap` is a position in `maps`, and so is a `CompactStorage` in
-- `compacts`, which keeps what no pointer holds any more. Every function of the NIF holds the lock
-- of its map from start to end, so one is a step from world to world; `none` is a step that has
-- followed a freed pointer, or run out of the fuel of a trie. The order of `accounts` stands for the
-- order of the hash table, which the code leaves open.
pub mod Entry
pub mod Parse
pub mod Change
pub mod Apply
pub mod Read
pub mod Query
pub mod Fork
pub mod Difference
pub mod Frozen
pub mod Leaves
pub mod Writes
pub mod Update
pub mod Put
pub mod Slots
pub mod Delete
pub mod RoundTrip
pub mod Materialize
pub mod Bounds
mod Tests
mod Sharing
pub mod Compact
use diode_server.Base.{
  ℕ, zero, suc, ◌+◌, Bool, true, false, Option, none, some, List, [], ◌∷◌, ◌++◌, if◌then◌else◌,
  length, get_or, set,
}
use diode_server.Base.Bytes.{Bytes, bin_eq}
use diode_server.Terms.{Term, resource, badarg, get_address}
use diode_server.Resource.{Heap, H, at, alloc_merkletree_resource, keep_storage_in_map}

-- `CompactStorage`, with the key and the value of every slot
pub record CompactStorage : Type 0 where
  pub slots : List (Bytes × Bytes)
  pub root_hash : Bytes
  pub has_root : Bool

-- `AccountEntry`; `none` is a null pointer
pub record AccountEntry : Type 0 where
  pub nonce : ℕ
  pub balance : Bytes
  pub storage : Option ℕ
  pub compact_storage : Option ℕ
  pub code : Bytes

-- `SharedAccountMap`
pub record SharedAccountMap : Type 0 where
  pub frozen : Bool
  pub state_trie : ℕ
  pub accounts : List (Bytes × AccountEntry)

pub record World : Type 0 where
  pub heap : Heap
  pub compacts : List CompactStorage
  pub maps : List (Option SharedAccountMap)
  pub empty_storage_tree : ℕ

abbrev pub M : Type 0 → Type 0
M Answer = World → Option (Answer × World)

abbrev proceed : {Answer B : Type 0} → (Answer → M B) → Option (Answer × World) → Option (B × World)
proceed rest none = none
proceed rest (some (answer, world)) = rest answer world

infixl 5 ◌>>=◌ ◌>>◌
abbrev pub ◌>>=◌ : {Answer B : Type 0} → M Answer → (Answer → M B) → M B
(step >>= rest) world = proceed rest (step world)

abbrev pub ◌>>◌ : {B : Type 0} → M (Unit {0}) → M B → M B
step >> rest = step >>= λ answer. rest

abbrev pub pure : {Answer : Type 0} → Answer → M Answer
pure answer world = some (answer, world)

-- The heap that a step on resources leaves, in the world that it started in
abbrev pub in_world : {Answer : Type 0} → World → Option (Answer × Heap) → Option (Answer × World)
in_world world none = none
in_world world (some (answer, heap)) = some (answer, record world { heap = heap })

abbrev pub on_heap : {Answer : Type 0} → H Answer → M Answer
on_heap step world = in_world world (step world.heap)

abbrev pub lift : {Answer : Type 0} → Option Answer → M Answer
lift none world = none
lift (some answer) world = some (answer, world)

abbrev pub load_map : ℕ → M SharedAccountMap
load_map am world = lift (at world.maps am) world

abbrev pub store_map : ℕ → Option SharedAccountMap → M (Unit {0})
store_map am shared world = some (tt, record world { maps = set world.maps am shared })

abbrev pub no_slots : CompactStorage
no_slots = record { slots = []; root_hash = []; has_root = false }

-- A `CompactStorage` is never freed while a pointer to it is left
abbrev pub load_compact : ℕ → M CompactStorage
load_compact c world = some (get_or world.compacts c no_slots, world)

abbrev pub store_compact : ℕ → CompactStorage → M (Unit {0})
store_compact c compact world = some (tt, record world { compacts = set world.compacts c compact })

-- `std::make_shared<CompactStorage>`
abbrev pub new_compact : CompactStorage → M ℕ
new_compact compact world =
    some (length world.compacts, record world { compacts = world.compacts ++ compact ∷ [] })

abbrev pub empty_storage : M ℕ
empty_storage world = some (world.empty_storage_tree, world)

-- `accounts.find`, `accounts[addr] = entry` and `accounts.erase`
unfoldable pub find_account : List (Bytes × AccountEntry) → Bytes → Option AccountEntry
find_account [] addr = none
find_account (account ∷ accounts) addr =
    if bin_eq account.0 addr then some account.1 else find_account accounts addr

unfoldable pub set_account :
    List (Bytes × AccountEntry) → Bytes → AccountEntry → List (Bytes × AccountEntry)
set_account [] addr e = (addr, e) ∷ []
set_account (account ∷ accounts) addr e =
    if bin_eq account.0 addr
    then (account.0, e) ∷ accounts
    else account ∷ set_account accounts addr e

unfoldable pub erase_account : List (Bytes × AccountEntry) → Bytes → List (Bytes × AccountEntry)
erase_account [] addr = []
erase_account (account ∷ accounts) addr =
    if bin_eq account.0 addr then accounts else account ∷ erase_account accounts addr

-- A write to the entry of an address
abbrev pub store_entry : ℕ → Bytes → AccountEntry → M (Unit {0})
store_entry am addr e = do
  shared ← load_map am
  store_map am (some (record shared { accounts = set_account shared.accounts addr e }))

-- The zeros that `uint256_t::uint256_t` sets stand in `Nif`; `AccountEntry::AccountEntry` over them.
abbrev pub new_entry : Bytes → AccountEntry
new_entry balance = record {
  nonce = 0;
  balance = balance;
  storage = none;
  compact_storage = none;
  code = [];
}

-- `SharedAccountMap::SharedAccountMap`
unfoldable pub new_shared_accountmap : M ℕ
unfolding alloc_merkletree_resource
new_shared_accountmap = do
  trie ← on_heap alloc_merkletree_resource
  λ world. some (
    length world.maps,
    record world {
      maps = world.maps ++ some (record { frozen = false; state_trie = trie; accounts = [] }) ∷ [];
    },
  )

-- `on_load`: the resource of the empty storage, with a reference that is kept for good
unfoldable pub on_load : Option World
unfolding alloc_merkletree_resource keep_storage_in_map
on_load =
    let nothing : World = record {
      heap = record { states = []; merkletrees = []; shared_states = 0 };
      compacts = [];
      maps = [];
      empty_storage_tree = 0;
    } in
    let loaded : M ℕ = (do
      mt ← on_heap alloc_merkletree_resource
      on_heap (keep_storage_in_map mt)
      pure mt) in
    elim (loaded nothing) [
      | none ↦ none
      | some (mt, world) ↦ some (record world { empty_storage_tree = mt })
    ]

-- `enif_get_resource` at an account map
abbrev pub with_map : Term → (ℕ → M Term) → M Term
with_map term step = elim term [ resource am ↦ step am | _ ↦ pure badarg ]

abbrev pub with_address : Term → (Bytes → M Term) → M Term
with_address term step = elim (get_address term) [ none ↦ pure badarg | some addr ↦ step addr ]

-- `make_writeable_accountmap`: the step, if the map is not frozen
abbrev pub with_writeable : ℕ → M Term → M Term
with_writeable am step = do shared ← load_map am; if shared.frozen then pure badarg else step
