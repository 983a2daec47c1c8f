-- ===== src/Pairs.antt =====
-- The key-value pairs of the trie and the sorted buckets that hold them (c_src/merkletree.hpp,
-- c_src/merkletree.cpp). `sha` is the SHA-256 of sha.h. A `pair_list_t` is the list of the pairs
-- that its slots point at; a slot is read by its position.
pub mod Place
pub mod Order
pub mod Lookup
pub mod Gather
use diode_server.Base.{
  ℕ, zero, suc, ◌≡◌, Bool, true, false, Option, none, some, List, [], ◌∷◌, if◌then◌else◌, All, ◌++◌,
}
use diode_server.Base.Bytes.{Bytes, bin_eq, bin_lt}

-- `LEAF_SIZE`
abbrev pub leaf_size : ℕ
leaf_size = 16

-- `pair_t`
pub record Pair : Type 0 where
  pub key : Bytes
  pub value : Bytes
  pub key_hash : Bytes

-- `pair_t(bin_t &key, uint256_t &value)`
abbrev pub make_pair : (Bytes → Bytes) → Bytes → Bytes → Pair
make_pair sha key value = record { key = key; value = value; key_hash = sha key }

-- `uint256_t::is_null`
unfoldable pub is_null : Bytes → Bool
is_null [] = true
is_null (zero ∷ xs) = is_null xs
is_null (suc x ∷ xs) = false

-- `pair_list_t::insert`: the pairs from `index` on move one slot up
unfoldable pub insert : List Pair → ℕ → Pair → List Pair
insert [] i p = p ∷ []
insert (q ∷ m) zero p = p ∷ q ∷ m
insert (q ∷ m) (suc i) p = q ∷ insert m i p

-- `pair_list_t::erase`: the pairs behind `index` move one slot down
unfoldable pub erase : List Pair → ℕ → List Pair
erase [] i = []
erase (q ∷ m) zero = m
erase (q ∷ m) (suc i) = q ∷ erase m i

-- `map[i].value = v`
unfoldable pub set_value : List Pair → ℕ → Bytes → List Pair
set_value [] i v = []
set_value (q ∷ m) zero v = record q { value = v } ∷ m
set_value (q ∷ m) (suc i) v = q ∷ set_value m i v

-- `pair_list_t::push_back`
unfoldable pub push_back : List Pair → Pair → List Pair
push_back m p = m ++ p ∷ []

-- The loop of `map_delete`, at the slot `i` with the slots `rest` still ahead.
unfoldable pub delete_from : ℕ → List Pair → List Pair → Bytes → List Pair
unfolding erase
delete_from i [] m key = m
delete_from i (q ∷ rest) m key =
    if bin_eq q.key key then erase m i else delete_from (suc i) rest m key

unfoldable pub map_delete : List Pair → Bytes → List Pair
unfolding delete_from
map_delete m key = delete_from zero m m key

unfoldable pub map_contains : List Pair → Bytes → Bool
map_contains [] key = false
map_contains (q ∷ m) key = if bin_eq q.key key then true else map_contains m key

unfoldable pub map_get : List Pair → Bytes → Option Pair
map_get [] key = none
map_get (q ∷ m) key = if bin_eq q.key key then some q else map_get m key

-- The loop of `map_put`, at the slot `i` with the slots `rest` still ahead.
unfoldable pub put_from : ℕ → List Pair → List Pair → Pair → List Pair
unfolding push_back insert set_value
put_from i [] m p = push_back m p
put_from i (q ∷ rest) m p =
    if bin_eq q.key p.key
    then set_value m i p.value
    else if bin_lt p.key q.key
    then insert m i p
    else put_from (suc i) rest m p

unfoldable pub map_put : List Pair → Pair → List Pair
unfolding put_from
map_put m p = put_from zero m m p

-- The keys ascend, so no key occurs twice.
abbrev pub Sorted : List Pair → Type 0
Sorted [] = Unit
Sorted (q ∷ m) = All (λ (r : Pair). bin_lt q.key r.key ≡ true) m × Sorted m

-- The stored hash is that of the key.
abbrev pub Hashed : (Bytes → Bytes) → Pair → Type 0
Hashed sha p = p.key_hash ≡ sha p.key
