-- ===== src/Account/Change.antt =====
-- The functions of the NIF that change an account map (c_src/nif.cpp). They refuse a frozen map, and
-- what they changed before an argument that they refuse stays.
use diode_server.Base.{ℕ, Bool, true, false, Option, none, some, if◌then◌else◌}
use diode_server.Base.Bytes.{Bytes}
use diode_server.Terms.{
  Term, cell, empty_list, badarg, resource, get_address, term_is_nil, term_is_atom_named,
}
use diode_server.Resource.{
  alloc_merkletree_resource, keep_storage_in_map, release_storage_from_map, insert_in_place,
}
use diode_server.Account.{
  AccountEntry, M, ◌>>=◌, ◌>>◌, pure, on_heap, load_map, store_map, find_account, erase_account,
  with_map, with_address, with_writeable,
}
use diode_server.Account.Parse.{read_pair, read_account}
use diode_server.Account.Entry.{
  release_entry_storage, update_state_trie_for_entry, remove_state_trie_entry, ensure_account_entry,
}

module _ (sha : Bytes → Bytes) (fuel : ℕ) where
  -- The loop of `storage_from_kv_list`: whether it reached the end
  unfoldable pub insert_kv_list : ℕ → Term → M Bool
  unfolding read_pair insert_in_place
  insert_kv_list mt (cell head tail) = elim (read_pair head) [
    | none ↦ pure false
    | some slot ↦ (do on_heap (insert_in_place sha fuel mt slot.0 slot.1); insert_kv_list mt tail)
  ]
  insert_kv_list mt term = pure true

  -- `storage_from_kv_list`
  unfoldable pub storage_from_kv_list : Term → M (Option ℕ)
  unfolding insert_kv_list alloc_merkletree_resource release_storage_from_map
  storage_from_kv_list list = do
    mt ← on_heap alloc_merkletree_resource
    ok ← insert_kv_list mt list
    if ok then pure (some mt) else (do on_heap (release_storage_from_map mt); pure none)

  -- The storage of `account_map_put`; `none` is refused
  unfoldable pub put_storage : Term → M (Option ℕ)
  unfolding storage_from_kv_list term_is_nil
  put_storage term =
      let fresh : M (Option ℕ) = (do mt ← on_heap alloc_merkletree_resource; pure (some mt)) in
      let listed = storage_from_kv_list term in
      if term_is_nil term
      then fresh
      else elim term [ empty_list ↦ fresh | cell head tail ↦ listed | _ ↦ pure none ]

  -- `account_map_put` with `keep`: the entry keeps its storage
  unfoldable pub put_meta : ℕ → Bytes → AccountEntry → M (Unit {0})
  unfolding ensure_account_entry update_state_trie_for_entry
  put_meta am addr new = do
    e ← ensure_account_entry sha fuel am addr
    update_state_trie_for_entry sha fuel am addr
        (record e { nonce = new.nonce; balance = new.balance; code = new.code })

  -- The rest of `account_map_put` with a storage of its own
  unfoldable pub put_entry : ℕ → Bytes → AccountEntry → ℕ → M (Unit {0})
  unfolding find_account release_entry_storage keep_storage_in_map release_storage_from_map
      update_state_trie_for_entry
  put_entry am addr new mt = do
    shared ← load_map am
    elim (find_account shared.accounts addr) [
      | none ↦ pure tt
      | some e ↦ (do e' ← release_entry_storage e; pure tt)
    ]
    on_heap (keep_storage_in_map mt)
    on_heap (release_storage_from_map mt)
    update_state_trie_for_entry sha fuel am addr (record new { storage = some mt })

  unfoldable pub put_with : ℕ → Bytes → AccountEntry → Option ℕ → M Term
  unfolding put_entry release_storage_from_map
  put_with am addr new none = pure badarg
  put_with am addr new (some mt) = do
    shared ← load_map am
    if shared.frozen
        then (do on_heap (release_storage_from_map mt); pure badarg)
        else (do put_entry am addr new mt; pure (resource am))

  -- `account_map_put`
  unfoldable pub account_map_put :
      (Term → Option Bytes) → Term → Term → Term → Term → Term → Term → M Term
  unfolding read_account put_storage put_meta put_with term_is_atom_named
  account_map_put term_to_binary map addr nonce balance storage code = with_map map λ am.
      elim (read_account term_to_binary addr nonce balance code) [
        | none ↦ pure badarg
        | some (a, new) ↦
            if term_is_atom_named storage "keep"
            then with_writeable am (do put_meta am a new; pure map)
            else (do mt ← put_storage storage; put_with am a new mt)
      ]

  -- `account_map_delete`
  unfoldable pub account_map_delete : Term → Term → M Term
  unfolding get_address find_account erase_account release_entry_storage remove_state_trie_entry
  account_map_delete map addr_term = with_map map λ am. with_address addr_term λ addr.
      with_writeable am (do
        shared ← load_map am
        elim (find_account shared.accounts addr) [
          | none ↦ pure tt
          | some e ↦ (do
            e' ← release_entry_storage e
            store_map am (some (record shared { accounts = erase_account shared.accounts addr }))
            remove_state_trie_entry sha fuel am addr)
        ]
        pure map)
