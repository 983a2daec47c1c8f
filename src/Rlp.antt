-- ===== src/Rlp.antt =====
-- The RLP encoder for account hashes (c_src/rlp.cpp). The functions append to `out`. The loops over
-- the bytes of a 64-bit number have eight rounds of fuel: such a number has at most eight bytes.
pub mod Digits
pub mod Decode
pub mod Tests
use diode_server.Base.{
  ℕ, zero, suc, ◌+◌, ◌-◌, ◌/◌, ◌%◌, ◌==◌, ltb, leb, List, [], ◌∷◌, ◌++◌, if◌then◌else◌, length,
  get_or, set,
}
use diode_server.Base.Bytes.{Bytes}

-- `while (tmp > 0)`: the bytes of the number, the lowest first
unfoldable pub le_bytes : ℕ → ℕ → Bytes
le_bytes zero tmp = []
le_bytes (suc fuel) tmp =
    let rest = le_bytes fuel (tmp / 256) in if tmp == 0 then [] else (tmp % 256) ∷ rest

-- One round of the loop that swaps the bytes at `i` and `len - 1 - i`.
unfoldable pub swap_at : Bytes → ℕ → Bytes
swap_at bytes i =
    let j = length bytes - 1 - i in set (set bytes i (get_or bytes j 0)) j (get_or bytes i 0)

-- `for (size_t i = 0; i < len / 2; i++)`, with the rounds left and `i`
unfoldable pub swap_loop : ℕ → ℕ → Bytes → Bytes
unfolding swap_at
swap_loop zero i bytes = bytes
swap_loop (suc rounds) i bytes = swap_loop rounds (i + 1) (swap_at bytes i)

unfoldable pub swap_bytes : Bytes → Bytes
unfolding swap_loop
swap_bytes bytes = swap_loop (length bytes / 2) 0 bytes

-- `append_length_prefix`; the size is the length of `payload`
unfoldable pub append_length_prefix : ℕ → Bytes → Bytes → Bytes
append_length_prefix offset payload out =
    let len_bytes = swap_bytes (le_bytes 8 (length payload)) in
    if leb (length payload) 55
    then (out ++ ((offset + length payload) % 256) ∷ []) ++ payload
    else ((out ++ ((offset + 55 + length len_bytes) % 256) ∷ []) ++ len_bytes) ++ payload

-- `rlp_encode_bytes`
unfoldable pub rlp_encode_bytes : Bytes → Bytes → Bytes
rlp_encode_bytes [] out = append_length_prefix 0x80 [] out
rlp_encode_bytes (b ∷ []) out =
    if ltb b 0x80 then out ++ b ∷ [] else append_length_prefix 0x80 (b ∷ []) out
rlp_encode_bytes (b ∷ c ∷ bytes) out = append_length_prefix 0x80 (b ∷ c ∷ bytes) out

-- `rlp_encode_uint64`
unfoldable pub rlp_encode_uint64 : ℕ → Bytes → Bytes
rlp_encode_uint64 value out =
    if value == 0
    then rlp_encode_bytes [] out
    else rlp_encode_bytes (swap_bytes (le_bytes 8 value)) out

-- `while (start < 32 && value[start] == 0)`: what stands from `start` on
unfoldable pub strip_zeros : Bytes → Bytes
strip_zeros [] = []
strip_zeros (zero ∷ bytes) = strip_zeros bytes
strip_zeros (suc b ∷ bytes) = suc b ∷ bytes

-- `rlp_encode_uint256`
unfoldable pub rlp_encode_uint256 : Bytes → Bytes → Bytes
rlp_encode_uint256 value out = rlp_encode_bytes (strip_zeros value) out

-- `rlp_encode_list`
unfoldable pub rlp_encode_list : Bytes → Bytes → Bytes → Bytes → Bytes → Bytes
rlp_encode_list item0 item1 item2 item3 out =
    append_length_prefix 0xC0 (((item0 ++ item1) ++ item2) ++ item3) out
