-- ===== src/Bits.antt =====
-- Bit strings and 256-bit values (`bits_t` and `uint256_t` of c_src/merkletree.hpp). A byte array
-- is the list of its bytes. `x & (1 << k)` is read from the quotient `x / 2 ^ k`.
pub mod Digits
use diode_server.Base.{
  ℕ, ◌+◌, ◌-◌, ◌*◌, ◌/◌, ◌%◌, ◌^◌, Bool, Option, none, some, List, [], ◌∷◌, ◌++◌, bit_or, ltb, ◌==◌,
  if◌then◌else◌, length, get_or, set,
}
use diode_server.Base.Bytes.{Bytes}

-- The bit of a byte array, the most significant bit of its first byte first.
unfoldable pub bit_at : Bytes → ℕ → Bool
bit_at value index = (get_or value (index / 8) 0 / 2 ^ (7 - index % 8)) % 2 == 1

-- `bits_t`: `value` holds `m_value_size` bytes of the array of 16
pub record Bits : Type 0 where
  pub value : Bytes
  pub size : ℕ

abbrev pub no_bits : Bits
no_bits = record { value = []; size = 0 }

-- `bits_t::bit`
unfoldable pub bit : Bits → ℕ → Bool
unfolding bit_at
bit b index = bit_at b.value index

-- The first test of `push_back`: a new byte once the others are full. A 17th byte would be written
-- behind the array, which is `none`.
unfoldable pub grow : Bits → Option Bytes
grow b =
    if ltb (length b.value * 8) (b.size + 1)
    then (if ltb (length b.value) 16 then some (b.value ++ 0 ∷ []) else none)
    else some b.value

-- `m_value[m_value_size - 1] |= 1 << shift`
unfoldable pub or_last : Bytes → ℕ → Bytes
or_last value shift =
    let last = length value - 1 in set value last (bit_or (get_or value last 0) (2 ^ shift))

-- `bits_t::push_back`
unfoldable pub push_back : Bits → Bool → Option Bits
unfolding grow or_last
push_back b new = elim (grow b) [
  | none ↦ none
  | some value ↦
      some (record {
        value = if new then or_last value (7 - b.size % 8) else value;
        size = b.size + 1;
      })
]

-- `uint256_t::last_byte`
unfoldable pub last_byte : Bytes → ℕ
last_byte value = get_or value 31 0
