-- ===== src/Account/Parse.antt =====
-- What the functions on account maps read from their arguments (c_src/nif.cpp): the fields of an
-- account, the deltas of a difference, and accounts in the compact form.
use diode_server.Base.{
  Bool, true, false, Option, none, some, List, [], ◌∷◌, ◌==◌, if◌then◌else◌, ◌>>=◌, ◌||◌,
}
use diode_server.Base.Bytes.{Bytes, bin_eq}
use diode_server.Terms.{
  Term, Entries, done, entry, cell, tuple3, inspect_binary, get_uint64, get_tuple2, get_map,
  get_address, is_atom, is_list, term_is_nil, term_is_atom_named, binary_of_size, map_get_atom,
}
use diode_server.Nif.{zeros, get_balance_uint256, get_code, decode_storage_slot}
use diode_server.Account.{AccountEntry, new_entry}

-- The keys and values of a list of slots, with the bytes of `insert_binary_pair`: 32 for each
unfoldable pub read_pair : Term → Option (Bytes × Bytes)
unfolding binary_of_size
read_pair term = do
  (key, value) ← get_tuple2 term
  k ← binary_of_size 32 key
  v ← binary_of_size 32 value
  some (k, v)

-- `StorageSlot`s of an iterator over a map
unfoldable pub parse_entries : Entries → Option (List (Bytes × Bytes))
unfolding decode_storage_slot
parse_entries done = some []
parse_entries (entry key value entries) = do
  k ← inspect_binary key
  v ← inspect_binary value
  slot ← decode_storage_slot k v
  slots ← parse_entries entries
  some (slot ∷ slots)

-- `StorageSlot`s of a list, up to the first tail that is no cell
unfoldable pub parse_list : Term → Option (List (Bytes × Bytes))
unfolding decode_storage_slot
parse_list (cell head tail) = do
  (key, value) ← get_tuple2 head
  k ← inspect_binary key
  v ← inspect_binary value
  slot ← decode_storage_slot k v
  slots ← parse_list tail
  some (slot ∷ slots)
parse_list term = some []

unfoldable pub is_map_merkle_tree : Term → Bool
unfolding term_is_atom_named
is_map_merkle_tree term =
    term_is_atom_named term "MapMerkleTree" || term_is_atom_named term "Elixir.MapMerkleTree"

-- The two forms that `parse_compact_storage` reads slots from. The code does not test that the third
-- element of the tuple is a map before it iterates over it; one that is not is refused here.
unfoldable pub parse_slots : Term → Option (List (Bytes × Bytes))
unfolding parse_entries parse_list is_map_merkle_tree
parse_slots (tuple3 tag path items) =
    let slots = get_map items >>= parse_entries in if is_map_merkle_tree tag then slots else none
parse_slots term = if is_list term then parse_list term else none

-- `parse_compact_storage`: no compact storage for nil, or one with these slots
unfoldable pub parse_compact_storage : Term → Option (Option (List (Bytes × Bytes)))
unfolding parse_slots term_is_nil
parse_compact_storage term =
    let slots = (do found ← parse_slots term; some (some found)) in
    if is_atom term then (if term_is_nil term then some none else none) else slots

-- A hash beside the account: none if the key is missing or has an atom
unfoldable pub optional_hash : Term → Option (Option Bytes)
unfolding binary_of_size
optional_hash term =
    let hash = (do bytes ← binary_of_size 32 term; some (some bytes)) in
    if is_atom term then some none else hash

unfoldable pub parse_hash : Option Term → Option (Option Bytes)
unfolding optional_hash
parse_hash none = some none
parse_hash (some term) = optional_hash term

-- `ParsedCompactAccount`, with the slots in the place of the pointer to the compact storage
pub record ParsedCompactAccount : Type 0 where
  pub account : AccountEntry
  pub slots : Option (List (Bytes × Bytes))
  pub compact_root_hash : Option Bytes
  pub compact_code_hash : Option Bytes

module _ (term_to_binary : Term → Option Bytes) where
  -- The nonce, the balance and the code of `account_map_put`, with the address
  unfoldable pub read_account : Term → Term → Term → Term → Option (Bytes × AccountEntry)
  unfolding get_address get_balance_uint256 get_code
  read_account addr nonce balance code = do
    a ← get_address addr
    n ← get_uint64 nonce
    b ← get_balance_uint256 term_to_binary balance
    c ← get_code code
    some (a, record (new_entry b) { nonce = n; code = c })

  -- `balance_equals_term`
  unfoldable pub balance_equals_term : Bytes → Term → Bool
  unfolding get_balance_uint256
  balance_equals_term actual term = elim (get_balance_uint256 term_to_binary term) [
    | none ↦ false
    | some expected ↦ bin_eq expected actual
  ]

  -- `code_equals_term`
  unfoldable pub code_equals_term : Bytes → Term → Bool
  unfolding get_code
  code_equals_term actual term = elim (get_code term) [
    | none ↦ false
    | some expected ↦ bin_eq expected actual
  ]

  -- `apply_field_delta` at the nonce
  unfoldable pub apply_nonce : AccountEntry → Term → Term → AccountEntry × Bool
  apply_nonce e old new = elim (get_uint64 old) [
    | none ↦ (e, false)
    | some expected ↦ elim (get_uint64 new) [
      | none ↦ (e, false)
      | some n ↦ if e.nonce == expected then (record e { nonce = n }, true) else (e, false)
    ]
  ]

  -- At the balance; `get_balance_uint256` has cleared the balance when it fails
  unfoldable pub apply_balance : AccountEntry → Term → Term → AccountEntry × Bool
  unfolding balance_equals_term
  apply_balance e old new =
      let set : AccountEntry × Bool = elim (get_balance_uint256 term_to_binary new) [
        | none ↦ (record e { balance = zeros }, false)
        | some b ↦ (record e { balance = b }, true)
      ] in
      if balance_equals_term e.balance old then set else (e, false)

  -- At the code; `get_code` has cleared the code when it fails
  unfoldable pub apply_code : AccountEntry → Term → Term → AccountEntry × Bool
  unfolding code_equals_term
  apply_code e old new =
      let set : AccountEntry × Bool = elim (get_code new) [
        | none ↦ (record e { code = [] }, false)
        | some c ↦ (record e { code = c }, true)
      ] in
      if code_equals_term e.code old then set else (e, false)

  -- The loop over the fields of a report, at one of them
  abbrev pub apply_field_delta :
      (AccountEntry → Term → Term → AccountEntry × Bool)
      → Option Term
      → AccountEntry × Bool
      → AccountEntry × Bool
  apply_field_delta step none r = r
  apply_field_delta step (some delta) (e, false) = (e, false)
  apply_field_delta step (some delta) (e, true) = elim (get_tuple2 delta) [
    | none ↦ (e, false)
    | some (old, new) ↦ step e old new
  ]

  -- The fields in their order, up to the first that fails
  unfoldable pub apply_fields : AccountEntry → Term → AccountEntry × Bool
  unfolding apply_nonce apply_balance apply_code map_get_atom
  apply_fields e report = apply_field_delta apply_code (map_get_atom report "code") (
      apply_field_delta apply_balance (map_get_atom report "balance")
        (apply_field_delta apply_nonce (map_get_atom report "nonce") (e, true)))

  -- `parse_compact_account`
  unfoldable pub parse_compact_account : Term → Option ParsedCompactAccount
  unfolding map_get_atom parse_hash parse_compact_storage get_balance_uint256 get_code
  parse_compact_account term = do
    nonce_term ← map_get_atom term "nonce"
    balance_term ← map_get_atom term "balance"
    storage_term ← map_get_atom term "storage_root"
    code_term ← map_get_atom term "code"
    root ← parse_hash (map_get_atom term "root_hash")
    code_hash ← parse_hash (map_get_atom term "code_hash")
    nonce ← get_uint64 nonce_term
    balance ← get_balance_uint256 term_to_binary balance_term
    code ← get_code code_term
    slots ← parse_compact_storage storage_term
    some (record {
      account = record (new_entry balance) { nonce = nonce; code = code };
      slots = slots;
      compact_root_hash = root;
      compact_code_hash = code_hash;
    })
