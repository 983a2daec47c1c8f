-- ===== src/Nif/Tests.antt =====
-- The functions of the NIF at concrete terms and keys.
use diode_server.Base.{
  ◌+◌, ◌^◌, ◌≤◌, ◌<◌, ◌≡◌, refl, true, some, none, [], ◌∷◌, ◌++◌, replicate, length, arith,
}
use diode_server.Base.Bytes.{Bytes}
use diode_server.Trie.{empty}
use diode_server.Terms.{integer}
use diode_server.Nif.{
  store_from, decode_ext_uint256, bytes_of, get_balance_uint256, significant, shift_in,
  balance_to_term, uint256_increment, get_range_entries,
}
use diode_server.Nif.Balance.{get_balance_uint256-balance_to_term}
use diode_server.Nif.Extern.{ext_term, Reads, decode_ext_uint256-Reads}
use diode_server.Nif.Range.{number, Follows, get_range_entries-Follows}

program : Unit {0}
unfolding store_from decode_ext_uint256 bytes_of get_balance_uint256 significant shift_in
    balance_to_term uint256_increment
program = tt

abbrev digest : Bytes → Bytes
digest bytes = replicate 32 0

abbrev last_keys : Bytes
last_keys = replicate 31 255 ++ 254 ∷ []

get_range_entries-Follows_example :
    Follows digest empty (number last_keys) (get_range_entries digest empty last_keys 5)
    × (number last_keys + 5 ≤ 256 ^ 32 → length (get_range_entries digest empty last_keys 5) ≡ 5)
    × (256 ^ 32 < number last_keys + 5
        → length (get_range_entries digest empty last_keys 5) + number last_keys ≡ 256 ^ 32)
get_range_entries-Follows_example =
    get_range_entries-Follows digest empty last_keys 5 refl (omega arith) (omega arith)

decode_small : decode_ext_uint256 (131 ∷ b'a' ∷ 7 ∷ []) ≡ some (replicate 31 0 ++ 7 ∷ [])
unfolding program
decode_small = refl

decode_big :
    decode_ext_uint256 (131 ∷ b'n' ∷ 2 ∷ 0 ∷ 1 ∷ 2 ∷ []) ≡ some (replicate 30 0 ++ 2 ∷ 1 ∷ [])
unfolding program
decode_big = refl

decode_negative : decode_ext_uint256 (131 ∷ b'n' ∷ 2 ∷ 1 ∷ 1 ∷ 2 ∷ []) ≡ none
unfolding program
decode_negative = refl

balance_run : get_balance_uint256 (λ term. none) (integer 513) ≡ some (replicate 30 0 ++ 2 ∷ 1 ∷ [])
unfolding program
balance_run = refl

term_run : balance_to_term (replicate 30 0 ++ 2 ∷ 1 ∷ []) ≡ integer 513
unfolding program
term_run = refl

increment_run : uint256_increment (1 ∷ 255 ∷ []) ≡ (2 ∷ 0 ∷ [], true)
unfolding program
increment_run = refl

-- A balance with more than 64 bits.
abbrev balance : Bytes
balance = replicate 20 0 ++ replicate 12 9

get_balance_uint256-balance_to_term_example :
    get_balance_uint256 (λ term. none) (balance_to_term balance) ≡ some balance
get_balance_uint256-balance_to_term_example =
    get_balance_uint256-balance_to_term (λ term. none) balance
      (record { len = refl; bytes = omega arith })

decode_ext_uint256-Reads_example :
    (out : Bytes) × (decode_ext_uint256 (ext_term 70000000000) ≡ some out) × Reads 70000000000 out
decode_ext_uint256-Reads_example = decode_ext_uint256-Reads 70000000000 (omega arith)
