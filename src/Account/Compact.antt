-- ===== src/Account/Compact.antt =====
-- The compact form of account maps, out and back (`account_map_compact` and
-- `account_map_uncompact_state` of c_src/nif.cpp).
use diode_server.Base.{
  ℕ, true, false, Option, none, some, List, [], ◌∷◌, ◌==◌, if◌then◌else◌, length,
}
use diode_server.Base.Bytes.{Bytes, bin_lt}
use diode_server.Pairs.{Pair}
use diode_server.Trie.{each}
use diode_server.Terms.{
  Term, Entries, done, entry, integer, binary, empty_list, tuple2, tuple3, dict, resource, badarg,
  make_atom, get_address,
}
use diode_server.Nif.{balance_to_term}
use diode_server.Resource.{with_tree, keep_storage_in_map, insert_in_place}
use diode_server.Account.{
  AccountEntry, M, ◌>>=◌, ◌>>◌, pure, on_heap, load_map, new_compact, store_entry,
  new_shared_accountmap, with_map,
}
use diode_server.Account.Parse.{ParsedCompactAccount, parse_compact_account}
use diode_server.Account.Entry.{
  materialize_storage, root_of, storage_root_hash_for_entry, slots_of, hash_of_code, compute,
}
use diode_server.Account.Fork.{destroy_shared_accountmap}

-- The slots of the pairs of a trie
unfoldable pub slots_in : List Pair → List (Bytes × Bytes)
slots_in [] = []
slots_in (p ∷ ps) = (p.key, p.value) ∷ slots_in ps

-- An item of `pending_state`, and the order of `batch_insert_state_items`
abbrev pub PendingStateItem : Type 0
PendingStateItem = Bytes × Bytes

unfoldable pub insert_sorted : PendingStateItem → List PendingStateItem → List PendingStateItem
insert_sorted item [] = item ∷ []
insert_sorted item (other ∷ items) =
    if bin_lt other.0 item.0 then other ∷ insert_sorted item items else item ∷ other ∷ items

unfoldable pub sort_items : List PendingStateItem → List PendingStateItem
unfolding insert_sorted
sort_items [] = []
sort_items (item ∷ items) = insert_sorted item (sort_items items)

-- `make_compact_account_term` over the map of the slots and its size, with the entries in the order
-- of the arrays
unfoldable pub compact_account_term : AccountEntry → Bytes → Bytes → Entries → ℕ → Term
unfolding balance_to_term
compact_account_term e root code_hash items item_count =
    let storage =
      if item_count == 0
      then make_atom "nil"
      else tuple3 (make_atom "Elixir.MapMerkleTree") empty_list (dict items) in
    dict (
      entry (make_atom "__struct__") (make_atom "Elixir.Chain.Account") (
        entry (make_atom "nonce") (integer e.nonce) (
          entry (make_atom "balance") (balance_to_term e.balance) (
            entry (make_atom "storage_root") storage (
              entry (make_atom "code")
                (if length e.code == 0 then make_atom "nil" else binary e.code)
                (entry (make_atom "map_backed") (make_atom "false") (
                  entry (make_atom "root_hash") (binary root)
                    (entry (make_atom "code_hash") (binary code_hash) done))))))))

module _ (sha : Bytes → Bytes) (fuel : ℕ) where
  -- The pairs that `build_compact_storage_items` puts into its map
  unfoldable pub compact_storage_items : AccountEntry → M (List (Bytes × Bytes))
  unfolding with_tree slots_in slots_of
  compact_storage_items e = elim e.storage [
    | some mt ↦ on_heap (with_tree mt λ t. some (t, slots_in (each t)))
    | none ↦ slots_of e
  ]

  module _ (map_put : Entries → Term → Term → Entries) where
    unfoldable pub put_items : Entries → List (Bytes × Bytes) → Entries
    put_items items [] = items
    put_items items (slot ∷ slots) = put_items (map_put items (binary slot.0) (binary slot.1)) slots

    -- `make_compact_account_term`, with `build_compact_storage_items`
    unfoldable pub make_compact_account_term : AccountEntry → M Term
    unfolding storage_root_hash_for_entry compact_storage_items put_items hash_of_code
        compact_account_term
    make_compact_account_term e = do
      root ← storage_root_hash_for_entry sha fuel e
      slots ← compact_storage_items e
      pure (
          compact_account_term e root (hash_of_code sha e.code) (put_items done slots)
            (length slots))

    -- The loop of `account_map_compact`
    unfoldable pub compact_accounts : Entries → List (Bytes × AccountEntry) → M Entries
    unfolding make_compact_account_term
    compact_accounts result [] = pure result
    compact_accounts result (account ∷ accounts) = do
      t ← make_compact_account_term account.1
      compact_accounts (map_put result (binary account.0) t) accounts

    -- `account_map_compact`
    unfoldable pub account_map_compact : Term → M Term
    unfolding compact_accounts
    account_map_compact map = with_map map λ am. do
      shared ← load_map am
      result ← compact_accounts done shared.accounts
      pure (dict result)

  -- The storage of an entry in `append_uncompacted_account`
  unfoldable pub adopt_storage : AccountEntry → Option Bytes → M AccountEntry
  unfolding materialize_storage keep_storage_in_map
  adopt_storage e root_override = elim e.storage [
    | none ↦ elim root_override [
      | none ↦ (do (e', mt) ← materialize_storage sha fuel e; pure e')
      | some root ↦ pure e
    ]
    | some mt ↦ elim e.compact_storage [
      | none ↦ (do on_heap (keep_storage_in_map mt); pure e)
      | some c ↦ pure e
    ]
  ]

  -- `append_uncompacted_account`: the item for the trie, or `none` for its failure
  unfoldable pub append_uncompacted_account :
      ℕ → Bytes → AccountEntry → Option Bytes → Option Bytes → M (Option PendingStateItem)
  unfolding adopt_storage compute
  append_uncompacted_account am addr e root_override code_override = do
    e' ← adopt_storage e root_override
    hash ← compute sha fuel e' root_override code_override
    elim hash [ none ↦ pure none | some h ↦ (do store_entry am addr e'; pure (some (addr, h))) ]

  -- `batch_insert_state_items`
  unfoldable pub insert_items : ℕ → List PendingStateItem → M (Unit {0})
  unfolding insert_in_place
  insert_items mt [] = pure tt
  insert_items mt (item ∷ items) = do
    on_heap (insert_in_place sha fuel mt item.0 item.1)
    insert_items mt items

  unfoldable pub batch_insert_state_items : ℕ → List PendingStateItem → M (Unit {0})
  unfolding sort_items insert_items
  batch_insert_state_items mt items = insert_items mt (sort_items items)

  -- The loop of `account_map_uncompact_state` over the accounts of another map
  unfoldable pub append_accounts :
      ℕ → List PendingStateItem → List (Bytes × AccountEntry) → M (Option (List PendingStateItem))
  unfolding append_uncompacted_account
  append_accounts am items [] = pure (some items)
  append_accounts am items (account ∷ accounts) = do
    item ← append_uncompacted_account am account.0 account.1 none none
    elim item [ none ↦ pure none | some i ↦ append_accounts am (i ∷ items) accounts ]

  module _ (term_to_binary : Term → Option Bytes) where
    -- The compact storage of a parsed account, with the root that the term gives
    unfoldable pub adopt_slots : ParsedCompactAccount → M AccountEntry
    adopt_slots parsed = elim parsed.slots [
      | none ↦ pure parsed.account
      | some slots ↦ (do
        c ← new_compact (elim parsed.compact_root_hash [
          | none ↦ record { slots = slots; root_hash = []; has_root = false }
          | some root ↦ record { slots = slots; root_hash = root; has_root = true }
        ])
        pure (record parsed.account { compact_storage = some c }))
    ]

    -- The loop over the entries of a map
    unfoldable pub append_entries :
        ℕ → List PendingStateItem → Entries → M (Option (List PendingStateItem))
    unfolding get_address parse_compact_account adopt_slots append_uncompacted_account
    append_entries am items done = pure (some items)
    append_entries am items (entry key value entries) = elim (get_address key) [
      | none ↦ pure none
      | some addr ↦ elim (parse_compact_account term_to_binary value) [
        | none ↦ pure none
        | some parsed ↦ (do
          e ← adopt_slots parsed
          item ←
              append_uncompacted_account am addr e parsed.compact_root_hash parsed.compact_code_hash
          elim item [ none ↦ pure none | some i ↦ append_entries am (i ∷ items) entries ])
      ]
    ]

    -- The end of `account_map_uncompact_state`; `uncompact_state_fail` releases the new map
    unfoldable pub finish_uncompact : ℕ → Option (List PendingStateItem) → M Term
    unfolding destroy_shared_accountmap batch_insert_state_items root_of
    finish_uncompact am none = do destroy_shared_accountmap am; pure badarg
    finish_uncompact am (some items) = do
      shared ← load_map am
      batch_insert_state_items shared.state_trie items
      root ← root_of sha fuel shared.state_trie
      pure (tuple2 (resource am) (binary root))

    -- `account_map_uncompact_state`
    unfoldable pub account_map_uncompact_state : Term → M Term
    unfolding new_shared_accountmap append_accounts append_entries finish_uncompact
    account_map_uncompact_state term = elim term [
      | resource input ↦ (do
        am ← new_shared_accountmap
        src ← load_map input
        items ← append_accounts am [] src.accounts
        finish_uncompact am items)
      | dict entries ↦ (do
        am ← new_shared_accountmap
        items ← append_entries am [] entries
        finish_uncompact am items)
      | _ ↦ pure badarg
    ]
