-- ===== src/Nif.antt =====
-- The terms and the storage slots of the NIF (c_src/nif.cpp): balances, codes, slot values and ranges
-- of slots.
pub mod Range
pub mod Balance
pub mod Extern
pub mod Tests
use diode_server.Base.{
  ℕ, zero, suc, ◌+◌, ◌-◌, ◌*◌, ◌/◌, ◌%◌, ◌^◌, Bool, true, false, ◌&&◌, ◌||◌, not, Option, none,
  some, List, [], ◌∷◌, ◌++◌, ltb, leb, ◌==◌, if◌then◌else◌, ◌>>=◌, length, take, replicate, set,
}
use diode_server.Base.Bytes.{Bytes, bin_eq}
use diode_server.Pairs.{Pair, make_pair}
use diode_server.Trie.{Item, get_item}
use diode_server.Terms.{
  Term, badarg, integer, binary, is_atom, inspect_binary, term_is_nil, binary_of_size,
}

-- `uint256_t::uint256_t`
abbrev pub zeros : Bytes
zeros = replicate 32 0

-- The loops that write `out.value[31 - i]`, from `i` on
unfoldable pub store_from : ℕ → Bytes → Bytes → Bytes
store_from i [] out = out
store_from i (b ∷ p) out = store_from (i + 1) p (set out (31 - i) b)

-- `decode_ext_uint256`, the tag 'a'
unfoldable pub small_integer : Bytes → Option Bytes
small_integer [] = none
small_integer (b ∷ p) = some (set zeros 31 b)

-- The tag 'b': 32 bits with a sign
unfoldable pub signed_integer : Bytes → Option Bytes
unfolding store_from
signed_integer (a ∷ b ∷ c ∷ d ∷ p) =
    if ltb a 128 then some (store_from 0 (d ∷ c ∷ b ∷ a ∷ []) zeros) else none
signed_integer p = none

-- The digits of a big integer, with their number and the sign
unfoldable pub big_digits : ℕ → ℕ → Bytes → Option Bytes
unfolding store_from
big_digits n sign p =
    if not (sign == 0) || ltb 32 n
    then none
    else if ltb (length p) n
    then none
    else some (store_from 0 (take n p) zeros)

-- The tag 'n'
unfoldable pub small_big : Bytes → Option Bytes
unfolding big_digits
small_big (n ∷ sign ∷ p) = big_digits n sign p
small_big p = none

-- The tag 'o'
unfoldable pub large_big : Bytes → Option Bytes
unfolding big_digits
large_big (a ∷ b ∷ c ∷ d ∷ sign ∷ p) = big_digits (((a * 256 + b) * 256 + c) * 256 + d) sign p
large_big p = none

-- `decode_ext_uint256`
unfoldable pub decode_ext_uint256 : Bytes → Option Bytes
unfolding small_integer signed_integer small_big large_big
decode_ext_uint256 (version ∷ tag ∷ p) =
    if not (version == 131)
    then none
    else if tag == b'a'
    then small_integer p
    else if tag == b'b'
    then signed_integer p
    else if tag == b'n'
    then small_big p
    else if tag == b'o'
    then large_big p
    else none
decode_ext_uint256 p = none

-- The eight bytes of a 64-bit number, the lowest first, with the bytes left
unfoldable pub bytes_of : ℕ → ℕ → Bytes
bytes_of zero val = []
bytes_of (suc n) val = (val % 256) ∷ bytes_of n (val / 256)

-- `get_balance_uint256`, with `enif_term_to_binary`. The branch for signed numbers takes none that
-- the one for unsigned numbers has not taken.
unfoldable pub get_balance_uint256 : (Term → Option Bytes) → Term → Option Bytes
unfolding decode_ext_uint256 bytes_of store_from
get_balance_uint256 term_to_binary term =
    let encoded = (term_to_binary term >>= decode_ext_uint256) in
    elim term [
      | integer n ↦ if ltb n (2 ^ 64) then some (store_from 0 (bytes_of 8 n) zeros) else encoded
      | binary bin ↦
          if ltb 0 (length bin) && leb (length bin) 32
          then some (replicate (32 - length bin) 0 ++ bin)
          else encoded
      | _ ↦ encoded
    ]

-- The loop of `balance_to_term` over the zeros in front
unfoldable pub significant : Bytes → Bytes
significant [] = []
significant (zero ∷ balance) = significant balance
significant (suc b ∷ balance) = suc b ∷ balance

-- The loop that shifts the bytes into `val`
unfoldable pub shift_in : ℕ → Bytes → ℕ
shift_in val [] = val
shift_in val (b ∷ bytes) = shift_in ((val * 256 + b) % 2 ^ 64) bytes

-- `balance_to_term`
unfoldable pub balance_to_term : Bytes → Term
unfolding significant shift_in
balance_to_term balance =
    let digits = significant balance in
    if length digits == 0
    then integer 0
    else if leb (length digits) 8
    then integer (shift_in 0 digits)
    else binary digits

-- `get_code`
unfoldable pub get_code : Term → Option Bytes
unfolding term_is_nil
get_code term =
    if is_atom term then (if term_is_nil term then some [] else none) else inspect_binary term

-- `code_to_term`
unfoldable pub code_to_term : Bytes → Term
code_to_term code = binary code

-- `decode_storage_slot`: the key and the value of a slot
unfoldable pub decode_storage_slot : Bytes → Bytes → Option (Bytes × Bytes)
decode_storage_slot key value = if length value == 32 then some (key, value) else none

-- `get_storage_value_from_term`
unfoldable pub get_storage_value_from_term : Term → Option Bytes
unfolding term_is_nil binary_of_size
get_storage_value_from_term term = if term_is_nil term then some zeros else binary_of_size 32 term

-- `storage_values_equal`
unfoldable pub storage_values_equal : Term → Bytes → Bool
unfolding get_storage_value_from_term
storage_values_equal expected actual = elim (get_storage_value_from_term expected) [
  | none ↦ false
  | some value ↦ bin_eq value actual
]

-- `uint256_increment`, from the last byte: the bytes, and whether there was no overflow
unfoldable pub uint256_increment : Bytes → Bytes × Bool
uint256_increment [] = ([], false)
uint256_increment (b ∷ key) =
    let (rest, done) = uint256_increment key in
    if done
    then (b ∷ rest, true)
    else if b == 0xff
    then (0 ∷ rest, false)
    else ((b + 1) ∷ rest, true)

-- `merkletree_count_zeros`
unfoldable pub zeros_in : Bytes → ℕ
zeros_in [] = 0
zeros_in (b ∷ bytes) = let rest = zeros_in bytes in if b == 0 then rest + 1 else rest

unfoldable pub merkletree_count_zeros : Term → Term
unfolding zeros_in
merkletree_count_zeros term = elim term [ binary bin ↦ integer (zeros_in bin) | _ ↦ badarg ]

module _ (sha : Bytes → Bytes) where
  -- `read_storage_slot`: the value of a slot, zeros if it is not there
  unfoldable pub read_storage_slot : Item → Bytes → Bytes
  read_storage_slot t key = elim (get_item t (make_pair sha key [])) [
    | none ↦ zeros
    | some p ↦ p.value
  ]

  -- The loop of `get_range_entries`, with the rounds left behind this one
  unfoldable pub range_from : ℕ → Item → Bytes → List (Bytes × Bytes)
  unfolding read_storage_slot uint256_increment
  range_from zero t key = (key, read_storage_slot t key) ∷ []
  range_from (suc more) t key =
      let rest = range_from more t (uint256_increment key).0 in
      (key, read_storage_slot t key) ∷ (if (uint256_increment key).1 then rest else [])

  -- `get_range_entries`
  unfoldable pub get_range_entries : Item → Bytes → ℕ → List (Bytes × Bytes)
  unfolding range_from
  get_range_entries t base_key count =
      if count == 0 || not (length base_key == 32) then [] else range_from (count - 1) t base_key
