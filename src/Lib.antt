-- ===== src/Lib.antt =====
-- The native code of diode_server: the Merkle trie behind the accounts and the storage of contracts
-- (c_src/), which the node calls through a NIF, and the process that runs the EVM (evm/), which the
-- node talks to over a port.
--
-- How the parts interact. The NIF (c_src/nif.cpp) keeps maps of accounts: the storage of an account
-- is a resource on a Tree (c_src/merkletree.cpp) that clones share until one of them writes, or
-- compact slots, and a Tree of the map has the hashes of the accounts. A Tree keeps its pairs in
-- sorted buckets, splits a bucket along the bits of the keys' hashes, and computes hashes, proofs
-- and differences. Its nodes live in an ItemPool (c_src/item_pool.cpp) that several trees share: a
-- node with more than one reference is copied before it is written. The hash of an account is made
-- of RLP items (c_src/rlp.cpp). The EVM process (evm/main.cpp) reads messages from its input and
-- runs the interpreter, whose host (evm/host.cpp) answers from caches of the storage, which are
-- open-addressing tables (evm/host.hpp), or asks the node.
--
-- Files, with the source that each models:
--   Base, Bits        numbers, lists, byte strings; uint256_t::bit and bits_t (c_src/merkletree.hpp)
--   Pairs             pair_t, pair_list_t and map_put, map_get, map_delete, map_contains
--   Erl               to_erl, to_erl_ext and Leaf::to_erl_ext: the external terms of hashes and leaves
--   Trie              Item and Tree: decide, split_node, insert_path, get_item, each, size
--   Merkle            update_merkle_hash_count, root_hash, get_proofs and difference
--   Pool              ItemPool, and Tree::fork_for_write
--   Rlp               rlp_encode_bytes, rlp_encode_uint64, rlp_encode_uint256, rlp_encode_list
--   Map               Map: get, set and resize of evm/host.hpp
--   Host              Host and main: the messages, the caches (Host/Storage), nested calls and the
--                     main loop (Host/Server)
--   Terms             the terms of the virtual machine, and the readers of c_src/nif.cpp for them
--   Nif               the terms of balances, codes and slots, and get_range_entries
--   Resource          SharedState and merkletree: clones, copies on write, references and statistics
--   Account           the account map and the functions of the NIF on it: what they read from their
--                     arguments (Account/Parse), entries and hashes (Account/Entry), put and delete
--                     (Account/Change), differences and slots put in (Account/Apply), reads
--                     (Account/Read, Account/Query), new, clone and lock (Account/Fork), the compact
--                     form (Account/Compact) and difference_full (Account/Difference)
--   Locks             SharedStateLock and DualAccountMapLock
-- The children of a module prove what it does; the theorems at concrete data stand in Tests.
--
-- State. A trie is read from its root, with subtrees in place of ids, so the files on the trie say
-- nothing of sharing; that is the part of Pool, whose state is the vectors of nodes and counts and the
-- free list. A mutex makes a call of the pool one step. The host's state is its three tables, the
-- transaction's context, the input that is left and the output so far. The NIF's state is a world: the
-- heap of shared states and resources with their counts, the compact storages and the maps, all
-- numbered. The functions hold the lock of their map from start to end and are one step of the world.
-- account_map_difference_full gives its locks up behind the loop that takes snapshots of the accounts
-- and goes on with the storage that they hold; it is one step too, so what other threads write in
-- between is not seen. The locks on two objects are the part of Locks. A function returns the state
-- that it leaves; `none` is an assertion that fails, an access out of bounds, an input that ends early
-- (the process exits) or fuel that runs out.
--
-- Fuel. Writes to a trie have fuel for the bits that are left: 129 is enough, as a prefix has room for
-- 128 bits. Hashing takes as much as the trie has levels. Giving up a reference takes
-- more than there are ids with a count. The loops of the RLP encoder have a round for each of the
-- eight bytes of a number. The probe of a table and its nested calls share their fuel, and may use up
-- any amount (Map/Probe). The main loop has fuel for its messages.
--
-- Parameters. SHA-256 is any function of byte strings; a theorem that needs different hashes of
-- different keys says so. The interpreter of the EVM, evmc's hash of an
-- address, enif_term_to_binary, enif_binary_to_term and enif_make_map_put are parameters too. Maps
-- of terms are lists of entries in the order of their iterator, and a hash table of accounts is a list
-- in an order that stands for its own. Numbers that C++ keeps in 32 or 64 bits wrap
-- where the code lets them; integers are sent as a little-endian machine keeps them.
--
-- Not modelled: the memory below the pairs (c_src/preallocator.hpp) and Item::m_tree, through which a
-- node that takes its pairs back finds their allocator, also when that tree is freed; no theorem speaks
-- of such an access. Further the statistics under DEBUG, the time slices of the NIF's
-- loops, its unused functions on compact storage, the vendored interpreter and hash functions, the
-- test programs, and the Elixir node.
pub mod Base
pub mod Bits
pub mod Pairs
pub mod Erl
pub mod Trie
pub mod Merkle
pub mod Rlp
pub mod Terms
pub mod Resource
pub mod Account
pub mod Locks
pub mod Pool
pub mod Map
pub mod Host
pub mod Nif
