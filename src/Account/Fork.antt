-- ===== src/Account/Fork.antt =====
-- New account maps, clones, the freeze and the destructor (c_src/nif.cpp). A clone shares the trees
-- of its parent through resources of its own, until one of the two writes.
use diode_server.Base.{ℕ, true, false, Option, none, some, List, [], ◌∷◌, ◌==◌, if◌then◌else◌}
use diode_server.Base.Bytes.{Bytes}
use diode_server.Terms.{Term, resource}
use diode_server.Resource.{keep_storage_in_map, release_storage_from_map, clone_merkletree_locked}
use diode_server.Account.{
  AccountEntry, M, ◌>>=◌, ◌>>◌, pure, on_heap, load_map, store_map, new_shared_accountmap, with_map,
}
use diode_server.Account.Entry.{release_entry_storage}

-- The clones that the loop has made so far, `storage_clones`: the original and its clone
abbrev pub Clones : Type 0
Clones = List (ℕ × ℕ)

unfoldable pub find_clone : Clones → ℕ → Option ℕ
find_clone [] mt = none
find_clone (clone ∷ clones) mt = if clone.0 == mt then some clone.1 else find_clone clones mt

-- The clone of a resource, which is made if there is none
unfoldable pub clone_once : Clones → ℕ → M (Clones × ℕ)
unfolding find_clone clone_merkletree_locked
clone_once clones orig = elim (find_clone clones orig) [
  | some clone ↦ pure (clones, clone)
  | none ↦ (do clone ← on_heap (clone_merkletree_locked orig); pure ((orig, clone) ∷ clones, clone))
]

-- The loop of `fork_shared_accountmap` over the accounts, at one entry
unfoldable pub fork_entry : Clones → AccountEntry → M (Clones × AccountEntry)
unfolding clone_once keep_storage_in_map
fork_entry clones e = elim e.compact_storage [
  | some c ↦ pure (clones, e)
  | none ↦ elim e.storage [
    | none ↦ pure (clones, e)
    | some orig ↦ (do
      (clones', clone) ← clone_once clones orig
      on_heap (keep_storage_in_map clone)
      pure (clones', record e { storage = some clone }))
  ]
]

unfoldable pub fork_entries :
    Clones → List (Bytes × AccountEntry) → M (Clones × List (Bytes × AccountEntry))
unfolding fork_entry
fork_entries clones [] = pure (clones, [])
fork_entries clones (account ∷ accounts) = do
  (clones', e) ← fork_entry clones account.1
  (all, forked) ← fork_entries clones' accounts
  pure (all, (account.0, e) ∷ forked)

-- Its last loop
unfoldable pub release_clones : Clones → M (Unit {0})
unfolding release_storage_from_map
release_clones [] = pure tt
release_clones (clone ∷ clones) = do
  on_heap (release_storage_from_map clone.1)
  release_clones clones

-- `fork_shared_accountmap`
unfoldable pub fork_shared_accountmap : ℕ → M ℕ
unfolding new_shared_accountmap clone_merkletree_locked keep_storage_in_map release_storage_from_map
    fork_entries release_clones
fork_shared_accountmap am = do
  src ← load_map am
  new ← new_shared_accountmap
  created ← load_map new
  on_heap (release_storage_from_map created.state_trie)
  trie ← on_heap (clone_merkletree_locked src.state_trie)
  on_heap (keep_storage_in_map trie)
  on_heap (release_storage_from_map trie)
  (clones, accounts) ← fork_entries [] src.accounts
  release_clones clones
  store_map new (some (record { frozen = false; state_trie = trie; accounts = accounts }))
  pure new

-- `account_map_new`
unfoldable pub account_map_new : M Term
unfolding new_shared_accountmap
account_map_new = do am ← new_shared_accountmap; pure (resource am)

-- `account_map_clone`
unfoldable pub account_map_clone : Term → M Term
unfolding fork_shared_accountmap
account_map_clone map =
    with_map map λ am. do clone ← fork_shared_accountmap am; pure (resource clone)

-- `account_map_lock`
unfoldable pub account_map_lock : Term → M Term
account_map_lock map =
    with_map map
      λ am. do shared ← load_map am; store_map am (some (record shared { frozen = true })); pure map

-- The loop of `SharedAccountMap::~SharedAccountMap`
unfoldable pub release_entries : List (Bytes × AccountEntry) → M (Unit {0})
unfolding release_entry_storage
release_entries [] = pure tt
release_entries (account ∷ accounts) = do
  e ← release_entry_storage account.1
  release_entries accounts

-- `destruct_accountmap_type`, which runs `destroy_shared_accountmap`
unfoldable pub destroy_shared_accountmap : ℕ → M (Unit {0})
unfolding release_entries release_storage_from_map
destroy_shared_accountmap am = do
  shared ← load_map am
  release_entries shared.accounts
  on_heap (release_storage_from_map shared.state_trie)
  store_map am none
