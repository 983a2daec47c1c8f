-- ===== src/Account/Entry.antt =====
-- Entries of an account map: their storage, as a resource or as compact slots, their roots and
-- hashes, and the trie of the hashes (c_src/nif.cpp).
use mathlib.Core.Option
use diode_server.Base.{ℕ, true, Option, none, some, List, [], ◌∷◌, ◌==◌, if◌then◌else◌}
use diode_server.Base.Bytes.{Bytes}
use diode_server.Trie.{Item, empty}
use diode_server.Merkle.{insert_item, root_hash}
use diode_server.Rlp.{rlp_encode_uint64, rlp_encode_uint256, rlp_encode_bytes, rlp_encode_list}
use diode_server.Nif.{zeros}
use diode_server.Resource.{
  with_tree, alloc_merkletree_resource, keep_storage_in_map, release_storage_from_map,
  insert_in_place, insert_writeable,
}
use diode_server.Account.{
  AccountEntry, M, ◌>>=◌, ◌>>◌, pure, on_heap, lift, load_map, load_compact, store_compact,
  empty_storage, find_account, store_entry, new_entry,
}

-- `release_entry_storage`
unfoldable pub release_entry_storage : AccountEntry → M AccountEntry
unfolding release_storage_from_map
release_entry_storage e = do
  shared_tree ← empty_storage
  elim e.storage [
    | none ↦ pure tt
    | some mt ↦ if mt == shared_tree then pure tt else on_heap (release_storage_from_map mt)
  ]
  pure (record e { storage = none; compact_storage = none })

-- The slots of an entry that has no resource
unfoldable pub slots_of : AccountEntry → M (List (Bytes × Bytes))
slots_of e = elim e.compact_storage [
  | none ↦ pure []
  | some c ↦ (do compact ← load_compact c; pure compact.slots)
]

module _ (sha : Bytes → Bytes) where
  -- `empty_code_hash`
  abbrev pub empty_code_hash : Bytes
  empty_code_hash = sha []

  unfoldable pub hash_of_code : Bytes → Bytes
  hash_of_code [] = empty_code_hash
  hash_of_code (b ∷ code) = sha (b ∷ code)

  -- The end of `AccountHashCtx::compute`, over the root and the hash of the code
  unfoldable pub account_hash : AccountEntry → Bytes → Bytes → Bytes
  account_hash e root code_hash = sha (
      rlp_encode_list (rlp_encode_uint64 e.nonce []) (rlp_encode_uint256 e.balance [])
        (rlp_encode_bytes root []) (rlp_encode_bytes code_hash []) [])

module _ (sha : Bytes → Bytes) (fuel : ℕ) where
  -- The loop over the slots of a compact storage
  unfoldable pub insert_slots : ℕ → List (Bytes × Bytes) → M (Unit {0})
  unfolding insert_in_place
  insert_slots mt [] = pure tt
  insert_slots mt (slot ∷ slots) = do
    on_heap (insert_in_place sha fuel mt slot.0 slot.1)
    insert_slots mt slots

  -- The same loop over a tree that no resource holds, as in `Tree temp`
  unfoldable pub tree_of_slots : Item → List (Bytes × Bytes) → Option Item
  tree_of_slots t [] = some t
  tree_of_slots t (slot ∷ slots) = elim (insert_item sha fuel t slot.0 slot.1) [
    | none ↦ none
    | some t' ↦ tree_of_slots t' slots
  ]

  -- `materialize_storage`
  unfoldable pub materialize_storage : AccountEntry → M (AccountEntry × ℕ)
  unfolding insert_slots slots_of alloc_merkletree_resource
  materialize_storage e = elim e.storage [
    | some mt ↦ pure (e, mt)
    | none ↦ (do
      slots ← slots_of e
      mt ← on_heap alloc_merkletree_resource
      insert_slots mt slots
      pure (record e { storage = some mt; compact_storage = none }, mt))
  ]

  -- The root of the tree of a resource
  unfoldable pub root_of : ℕ → M Bytes
  unfolding with_tree
  root_of mt = on_heap (with_tree mt (root_hash sha fuel))

  -- `storage_root_hash_for_entry`, which writes the root that it computes into the compact storage
  unfoldable pub storage_root_hash_for_entry : AccountEntry → M Bytes
  unfolding root_of tree_of_slots
  storage_root_hash_for_entry e = elim e.storage [
    | some mt ↦ root_of mt
    | none ↦ elim e.compact_storage [
      | none ↦ (do mt ← empty_storage; root_of mt)
      | some c ↦ (do
        compact ← load_compact c
        elim compact.slots [
          | [] ↦ (do
            mt ← empty_storage
            root ← root_of mt
            store_compact c (record compact { root_hash = root; has_root = true })
            pure root)
          | slot ∷ slots ↦ if compact.has_root then pure compact.root_hash else (do
            t ← lift (tree_of_slots empty compact.slots)
            (t', root) ← lift (root_hash sha fuel t)
            store_compact c (record compact { root_hash = root; has_root = true })
            pure root)
        ])
    ]
  ]

  -- `AccountHashCtx::compute`; the answer `none` is its failure
  unfoldable pub compute : AccountEntry → Option Bytes → Option Bytes → M (Option Bytes)
  unfolding hash_of_code account_hash root_of
  compute e root_override code_override =
      let code_hash = Option.get_or code_override (hash_of_code sha e.code) in
      elim root_override [
        | some root ↦ pure (some (account_hash sha e root code_hash))
        | none ↦ elim e.storage [
          | none ↦ pure none
          | some mt ↦ (do root ← root_of mt; pure (some (account_hash sha e root code_hash)))
        ]
      ]

  -- `insert_state_trie_hash`
  unfoldable pub insert_state_trie_hash : ℕ → Bytes → Bytes → M (Unit {0})
  unfolding insert_writeable
  insert_state_trie_hash am addr hash = do
    shared ← load_map am
    on_heap (insert_writeable sha fuel shared.state_trie addr hash)

  -- `remove_state_trie_entry`
  unfoldable pub remove_state_trie_entry : ℕ → Bytes → M (Unit {0})
  unfolding insert_state_trie_hash
  remove_state_trie_entry am addr = insert_state_trie_hash am addr zeros

  -- The entry and the root that `update_state_trie_for_entry` gives to `compute`
  unfoldable pub prepare_hash : AccountEntry → M (AccountEntry × Option Bytes)
  unfolding storage_root_hash_for_entry materialize_storage
  prepare_hash e = elim e.storage [
    | some mt ↦ pure (e, none)
    | none ↦ elim e.compact_storage [
      | some c ↦ (do root ← storage_root_hash_for_entry e; pure (e, some root))
      | none ↦ (do (e', mt) ← materialize_storage e; pure (e', none))
    ]
  ]

  -- `update_state_trie_for_entry`, at the entry of the map
  unfoldable pub update_state_trie_for_entry : ℕ → Bytes → AccountEntry → M (Unit {0})
  unfolding prepare_hash compute insert_state_trie_hash
  update_state_trie_for_entry am addr e = do
    (e', root_override) ← prepare_hash e
    store_entry am addr e'
    hash ← compute e' root_override none
    elim hash [ none ↦ pure tt | some h ↦ insert_state_trie_hash am addr h ]

  -- `ensure_account_entry`
  unfoldable pub ensure_account_entry : ℕ → Bytes → M AccountEntry
  unfolding find_account alloc_merkletree_resource keep_storage_in_map release_storage_from_map
  ensure_account_entry am addr = do
    shared ← load_map am
    elim (find_account shared.accounts addr) [
      | some e ↦ pure e
      | none ↦ (do
        mt ← on_heap alloc_merkletree_resource
        on_heap (keep_storage_in_map mt)
        on_heap (release_storage_from_map mt)
        store_entry am addr (record (new_entry zeros) { storage = some mt })
        pure (record (new_entry zeros) { storage = some mt }))
    ]

  -- `write_storage_slot`, with the entry that it changes
  unfoldable pub write_storage_slot : AccountEntry → Bytes → Bytes → M AccountEntry
  unfolding materialize_storage insert_writeable
  write_storage_slot e key value = do
    (e', mt) ← materialize_storage e
    on_heap (insert_writeable sha fuel mt key value)
    pure (record e' { compact_storage = none })
