-- ===== src/Account/Apply.antt =====
-- Differences and slots that the NIF writes into an account map (`account_map_apply_difference` and
-- `account_map_storage_put_map` of c_src/nif.cpp). What they wrote before an item that they refuse
-- stays.
use diode_server.Base.{ℕ, Bool, true, false, not, Option, none, some, if◌then◌else◌}
use diode_server.Base.Bytes.{Bytes}
use diode_server.Terms.{
  Term, Entries, done, entry, cell, tuple2, dict, badarg, make_atom, map_get_atom, inspect_binary,
  get_tuple2, get_map, get_address, is_list,
}
use diode_server.Nif.{read_storage_slot, get_storage_value_from_term, storage_values_equal}
use diode_server.Resource.{with_tree}
use diode_server.Account.{
  AccountEntry, M, ◌>>=◌, ◌>>◌, pure, on_heap, store_entry, with_map, with_writeable,
}
use diode_server.Account.Parse.{read_pair, apply_fields}
use diode_server.Account.Entry.{
  materialize_storage, update_state_trie_for_entry, ensure_account_entry, write_storage_slot,
}

-- `make_apply_error`
abbrev pub make_apply_error : Term
make_apply_error = tuple2 (make_atom "error") (make_atom "mismatch")

module _ (sha : Bytes → Bytes) (fuel : ℕ) where
  -- `read_storage_slot`, at a resource
  unfoldable pub read_slot : ℕ → Bytes → M Bytes
  unfolding with_tree read_storage_slot
  read_slot mt key = on_heap (with_tree mt λ t. some (t, read_storage_slot sha t key))

  -- The loop of `apply_storage_delta`
  unfoldable pub apply_slots : AccountEntry → Entries → M (AccountEntry × Bool)
  unfolding materialize_storage read_slot storage_values_equal get_storage_value_from_term
      write_storage_slot
  apply_slots e done = pure (e, true)
  apply_slots e (entry key_term delta deltas) = elim (inspect_binary key_term) [
    | none ↦ pure (e, false)
    | some key ↦ elim (get_tuple2 delta) [
      | none ↦ pure (e, false)
      | some (old, new) ↦ (do
        (e', mt) ← materialize_storage sha fuel e
        current ← read_slot mt key
        if not (storage_values_equal old current)
            then pure (e', false)
            else elim (get_storage_value_from_term new) [
              | none ↦ pure (e', false)
              | some value ↦ (do
                e'' ← write_storage_slot sha fuel e' key value
                apply_slots e'' deltas)
            ])
    ]
  ]

  -- `apply_storage_delta`
  unfoldable pub apply_storage_delta : AccountEntry → Term → M (AccountEntry × Bool)
  unfolding apply_slots
  apply_storage_delta e term = elim term [
    | dict deltas ↦ apply_slots e deltas
    | _ ↦ pure (e, false)
  ]

  module _ (term_to_binary : Term → Option Bytes) where
    -- The field `state` of a report
    unfoldable pub apply_state : AccountEntry → Term → M (AccountEntry × Bool)
    unfolding map_get_atom apply_storage_delta
    apply_state e report = elim (map_get_atom report "state") [
      | none ↦ pure (e, true)
      | some term ↦ apply_storage_delta e term
    ]

    -- An account of `account_map_apply_difference`: whether its report was applied
    unfoldable pub apply_report : ℕ → Bytes → Term → M Bool
    unfolding ensure_account_entry apply_state apply_fields update_state_trie_for_entry
    apply_report am addr report = do
      e ← ensure_account_entry sha fuel am addr
      (e', stored) ← apply_state e report
      store_entry am addr e'
      if not stored then pure false else (do
        let (e'', applied) = apply_fields term_to_binary e' report
        store_entry am addr e''
        if not applied
            then pure false
            else (do update_state_trie_for_entry sha fuel am addr e''; pure true))

    -- The loop of `account_map_apply_difference`, with the map that it returns
    unfoldable pub apply_reports : Term → ℕ → Term → M Term
    unfolding get_address apply_report
    apply_reports map am (cell head tail) = elim (get_tuple2 head) [
      | none ↦ pure badarg
      | some (addr_term, report) ↦ elim (get_address addr_term) [
        | none ↦ pure badarg
        | some addr ↦ elim (get_map report) [
          | none ↦ pure badarg
          | some entries ↦ (do
            applied ← apply_report am addr report
            if applied then apply_reports map am tail else pure make_apply_error)
        ]
      ]
    ]
    apply_reports map am term = pure map

    -- `account_map_apply_difference`
    unfoldable pub account_map_apply_difference : Term → Term → M Term
    unfolding apply_reports
    account_map_apply_difference map list =
        with_map map
          λ am. if is_list list then with_writeable am (apply_reports map am list) else pure badarg

  -- The inner loop of `account_map_storage_put_map`, with the entry and whether it reached the end
  unfoldable pub put_slots : AccountEntry → Term → M (AccountEntry × Bool)
  unfolding read_pair write_storage_slot
  put_slots e (cell head tail) = elim (read_pair head) [
    | none ↦ pure (e, false)
    | some slot ↦ (do e' ← write_storage_slot sha fuel e slot.0 slot.1; put_slots e' tail)
  ]
  put_slots e term = pure (e, true)

  -- An account of `account_map_storage_put_map`
  unfoldable pub put_account_slots : ℕ → Bytes → Term → M Bool
  unfolding ensure_account_entry put_slots update_state_trie_for_entry
  put_account_slots am addr list = do
    e ← ensure_account_entry sha fuel am addr
    (e', ok) ← put_slots e list
    store_entry am addr e'
    if ok then (do update_state_trie_for_entry sha fuel am addr e'; pure true) else pure false

  -- Its loop over the accounts
  unfoldable pub put_lists : Term → ℕ → Term → M Term
  unfolding get_address put_account_slots
  put_lists map am (cell head tail) = elim (get_tuple2 head) [
    | none ↦ pure badarg
    | some (addr_term, list) ↦ elim (get_address addr_term) [
      | none ↦ pure badarg
      | some addr ↦
          if is_list list
          then (do
            ok ← put_account_slots am addr list
            if ok then put_lists map am tail else pure badarg)
          else pure badarg
    ]
  ]
  put_lists map am term = pure map

  -- `account_map_storage_put_map`
  unfoldable pub account_map_storage_put_map : Term → Term → M Term
  unfolding put_lists
  account_map_storage_put_map map list =
      with_map map
        λ am. if is_list list then with_writeable am (put_lists map am list) else pure badarg
