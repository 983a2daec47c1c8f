-- ===== src/Host.antt =====
-- The EVM host and its port protocol (evm/host.cpp, evm/host.hpp): the caches of the storage, and the
-- messages on the standard streams, which `input` and `output` stand for. `none` is an input that
-- ends early, where the process exits, or a `Map` out of fuel. Integers that are not in network order
-- are sent as they lie in the memory of a little-endian machine.
pub mod Storage
pub mod Server
pub mod Packets
pub mod Writes
pub mod Sent
pub mod Keeps
pub mod Calls
pub mod Session
pub mod Tests
use diode_server.Base.{
  ℕ, zero, suc, ◌+◌, ◌-◌, ◌*◌, ◌/◌, ◌%◌, ◌^◌, Bool, true, false, ◌&&◌, Option, none, some, List, [],
  ◌∷◌, ◌++◌, ltb, leb, ◌==◌, if◌then◌else◌, length, take, drop, replicate, get_or,
}
use diode_server.Base.Bytes.{Bytes, bin_eq}
use diode_server.Map.{Map, empty, map_set, read, resize, assign, get, size}
use Prim.Native.Nat.{bit_xor}

-- `evmc::address` of 20 bytes and `evmc::bytes32`
abbrev pub Address : Type 0
Address = Bytes

abbrev pub Bytes32 : Type 0
Bytes32 = Bytes

abbrev pub Slot : Type 0
Slot = Address × Bytes32

abbrev pub same_slot : Slot → Slot → Bool
same_slot a b = bin_eq a.0 b.0 && bin_eq a.1 b.1

-- A number as `n` bytes, the lowest first.
unfoldable pub le_word : ℕ → ℕ → Bytes
le_word zero value = []
le_word (suc n) value = (value % 256) ∷ le_word n (value / 256)

unfoldable pub le_value : Bytes → ℕ
le_value [] = 0
le_value (b ∷ bytes) = b + 256 * le_value bytes

-- A 32-bit number in network order, as `__bswap_32` turns it.
unfoldable pub be_word : ℕ → Bytes
be_word num = (num / 2 ^ 24 % 256) ∷ (num / 2 ^ 16 % 256) ∷ (num / 2 ^ 8 % 256) ∷ (num % 256) ∷ []

-- `hash<pair<evmc::address, evmc::bytes32>>`: the 13 words of the two in memory
unfoldable pub hash_words : ℕ → Bytes → ℕ → ℕ
unfolding le_value
hash_words zero bytes hash = hash
hash_words (suc words) bytes hash =
    hash_words words (drop 4 bytes) (bit_xor hash (le_value (take 4 bytes)) * 33 % 2 ^ 64)

unfoldable pub hash_slot : Slot → ℕ
unfolding hash_words
hash_slot s = hash_words 13 (s.0 ++ s.1) 5381

-- `evmc_tx_context`, as its bytes
pub record TxContext : Type 0 where
  pub tx_gas_price : Bytes
  pub tx_origin : Bytes
  pub block_coinbase : Bytes
  pub block_number : Bytes
  pub block_timestamp : Bytes
  pub block_gas_limit : Bytes
  pub block_difficulty : Bytes
  pub chain_id : Bytes

-- `Host`, with the standard streams; `at_end` is `feof(stdin)`. `m_buffer` holds nothing between two calls.
pub record Host : Type 0 where
  pub complete_accounts : Map Address Bool
  pub storage_cache : Map Slot Bytes32
  pub storage_write_cache : Map Slot Bytes32
  pub tx_context : TxContext
  pub input : Bytes
  pub at_end : Bool
  pub output : Bytes

-- A step of the process: what it gives back and the host behind it, if it goes on.
abbrev pub M : Type 0 → Type 0
M Answer = Host → Option (Answer × Host)

-- The rest of the process, if the step before it went on.
abbrev pub continue :
    {Answer B : Type 0} → (Answer → M B) → Option (Answer × Host) → Option (B × Host)
continue rest none = none
continue rest (some (answer, host)) = rest answer host

infixl 5 ◌>>=◌ ◌>>◌
abbrev pub ◌>>=◌ : {Answer B : Type 0} → M Answer → (Answer → M B) → M B
(step >>= rest) host = continue rest (step host)

abbrev pub ◌>>◌ : {B : Type 0} → M (Unit {0}) → M B → M B
step >> rest = step >>= λ answer. rest

abbrev pub pure : {Answer : Type 0} → Answer → M Answer
pure answer host = some (answer, host)

-- `fread`
unfoldable pub fread : ℕ → M Bytes
fread n h =
    if ltb (length h.input) n
    then none
    else some (take n h.input, record h { input = drop n h.input })

-- `fwrite`
unfoldable pub fwrite : Bytes → M (Unit {0})
fwrite bytes h = some (tt, record h { output = h.output ++ bytes })

-- `nread`: the length of the next message, which is not looked at
unfoldable pub nread : M (Unit {0})
unfolding fread
nread = do length_bytes ← fread 4; pure tt

-- `nwrite`
unfoldable pub nwrite : ℕ → M (Unit {0})
unfolding fwrite be_word
nwrite num = fwrite (be_word (num % 2 ^ 32))

-- `iread` of a number of `n` bytes
unfoldable pub iread : ℕ → M ℕ
unfolding fread le_value
iread n = do bytes ← fread n; pure (le_value bytes)

-- The bytes of an ASCII code of two letters
abbrev pub code : ℕ → ℕ → Bytes
code a b = a ∷ b ∷ []

-- `get_block_hash`
unfoldable pub get_block_hash : ℕ → M Bytes32
unfolding nwrite fwrite nread fread le_word
get_block_hash number = do
  nwrite (2 + 8)
  fwrite (code b'g' b'h')
  fwrite (le_word 8 number)
  nread
  fread 32

-- `account_exists`
unfoldable pub account_exists : Address → M Bool
unfolding nwrite fwrite nread iread
account_exists addr = do
  nwrite (2 + 20)
  fwrite (code b'a' b'e')
  fwrite addr
  nread
  ret ← iread 8
  pure (ret == 1)

-- `get_balance`
unfoldable pub get_balance : Address → M Bytes32
unfolding nwrite fwrite nread fread
get_balance addr = do nwrite (2 + 20); fwrite (code b'g' b'b'); fwrite addr; nread; fread 32

-- `get_code_size`
unfoldable pub get_code_size : Address → M ℕ
unfolding nwrite fwrite nread iread
get_code_size addr = do nwrite (2 + 20); fwrite (code b'g' b'c'); fwrite addr; nread; iread 8

-- `get_code_hash`
unfoldable pub get_code_hash : Address → M Bytes32
unfolding nwrite fwrite nread fread
get_code_hash addr = do nwrite (2 + 20); fwrite (code b'g' b'd'); fwrite addr; nread; fread 32

-- `copy_code`: the bytes that are written to the buffer; the length in the reply is trusted
unfoldable pub copy_code : Address → ℕ → ℕ → M Bytes
unfolding nwrite fwrite nread iread fread le_word
copy_code addr code_offset buffer_size = do
  nwrite (2 + 20 + 8 + 8)
  fwrite (code b'c' b'c')
  fwrite addr
  fwrite (le_word 8 code_offset)
  fwrite (le_word 8 buffer_size)
  nread
  ret ← iread 8
  fread ret

-- `selfdestruct`
unfoldable pub selfdestruct : Address → Address → M (Unit {0})
unfolding nwrite fwrite
selfdestruct addr beneficiary = do
  nwrite (2 + 20 + 20)
  fwrite (code b's' b'd')
  fwrite addr
  fwrite beneficiary

-- The topics of a log, one after the other.
unfoldable pub write_all : List Bytes → M (Unit {0})
unfolding fwrite
write_all [] = pure tt
write_all (bytes ∷ rest) = do fwrite bytes; write_all rest

-- `emit_log`
unfoldable pub emit_log : Address → Bytes → List Bytes32 → M (Unit {0})
unfolding nwrite fwrite write_all le_word
emit_log addr bytes topics = do
  nwrite (2 + 20 + 8 + length bytes + 8 + length topics * 32)
  fwrite (code b'l' b'o')
  fwrite addr
  fwrite (le_word 8 (length bytes))
  fwrite bytes
  fwrite (le_word 8 (length topics))
  write_all topics
