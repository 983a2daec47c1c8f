-- ===== src/Account/RoundTrip.antt =====
-- Accounts in the compact form of c_src/nif.cpp are read back as they were written.
use diode_server.Base.{
  ◌<◌, ◌^◌, ◌≡◌, refl, true, false, Option, none, some, List, [], ◌∷◌, ◌==◌, ltb, if◌then◌else◌,
  length, All, arith,
}
use diode_server.Base.Bytes.{Bytes, bin_eq}
use diode_server.Bits.Digits.{IsArray}
use diode_server.Terms.{
  Term, Entries, done, entry, binary, dict, empty_list, tuple3, make_atom, term_is_nil,
  term_is_atom_named, binary_of_size, map_get_atom, get_map_value,
}
use diode_server.Nif.{get_code, decode_storage_slot}
use diode_server.Nif.Balance.{get_balance_uint256-balance_to_term}
use diode_server.Account.{AccountEntry, new_entry}
use diode_server.Account.Parse.{
  parse_entries, parse_slots, is_map_merkle_tree, parse_compact_storage, optional_hash, parse_hash,
  parse_compact_account,
}
use diode_server.Account.Compact.{compact_account_term}

-- A map from keys to values, with its entries in the order of the slots
abbrev pub entries_of : List (Bytes × Bytes) → Entries
entries_of [] = done
entries_of (slot ∷ slots) = entry (binary slot.0) (binary slot.1) (entries_of slots)

-- The slots of a parsed account: there are none of them, or a compact storage
abbrev pub stored : List (Bytes × Bytes) → Option (List (Bytes × Bytes))
stored [] = none
stored (slot ∷ slots) = some (slot ∷ slots)

parse_entries_lem :
    (slots : List (Bytes × Bytes))
    → All (λ slot. length slot.1 ≡ 32) slots
    → parse_entries (entries_of slots) ≡ some slots
unfolding parse_entries decode_storage_slot
parse_entries_lem [] a = refl
parse_entries_lem (slot ∷ slots) (h, a) =
    let size : (length slot.1 == 32) ≡ true = rw h refl in
    let rest = parse_entries_lem slots a in rw (size, rest) refl

parse_storage_lem :
    (slots : List (Bytes × Bytes))
    → All (λ slot. length slot.1 ≡ 32) slots
    → parse_compact_storage (
        if length slots == 0
        then make_atom "nil"
        else tuple3 (make_atom "Elixir.MapMerkleTree") empty_list (dict (entries_of slots)))
      ≡ some (stored slots)
unfolding parse_compact_storage parse_slots is_map_merkle_tree term_is_nil term_is_atom_named bin_eq
parse_storage_lem [] a = refl
parse_storage_lem (slot ∷ slots) a =
    let more : (length (slot ∷ slots) == 0) ≡ false = ground arith in
    let found = parse_entries_lem (slot ∷ slots) a in rw (more, found) refl

get_code_lem :
    (code : Bytes)
    → get_code (if length code == 0 then make_atom "nil" else binary code) ≡ some code
unfolding get_code term_is_nil term_is_atom_named bin_eq
get_code_lem [] = refl
get_code_lem (b ∷ code) = let more : (length (b ∷ code) == 0) ≡ false = ground arith in rw more refl

hash_lem : (bytes : Bytes) → length bytes ≡ 32 → optional_hash (binary bytes) ≡ some (some bytes)
unfolding optional_hash binary_of_size
hash_lem bytes h = let size : (length bytes == 32) ≡ true = rw h refl in rw size refl

-- The compact term of an account with a nonce of 64 bits, a balance and hashes of 32 bytes and slots
-- with values of 32 bytes parses to the same nonce, balance, code, slots and hashes.
pub parse_compact_account-compact_account_term :
    (term_to_binary : Term → Option Bytes) (e : AccountEntry) (root code_hash : Bytes)
    (slots : List (Bytes × Bytes))
    → e.nonce < 2 ^ 64
    → IsArray 32 e.balance
    → length root ≡ 32
    → length code_hash ≡ 32
    → All (λ slot. length slot.1 ≡ 32) slots
    → parse_compact_account term_to_binary
        (compact_account_term e root code_hash (entries_of slots) (length slots))
      ≡ some (record {
        account = record (new_entry e.balance) { nonce = e.nonce; code = e.code };
        slots = stored slots;
        compact_root_hash = some root;
        compact_code_hash = some code_hash;
      })
unfolding parse_compact_account compact_account_term map_get_atom get_map_value parse_hash bin_eq
parse_compact_account-compact_account_term term_to_binary e root code_hash slots n b r c a =
    let small : ltb e.nonce (2 ^ 64) ≡ true = ground arith in
    let balance = get_balance_uint256-balance_to_term term_to_binary e.balance b in
    let code = get_code_lem e.code in
    let storage = parse_storage_lem slots a in
    let root_back = hash_lem root r in
    let code_back = hash_lem code_hash c in
    rw (root_back, code_back, small, balance, code, storage) refl
