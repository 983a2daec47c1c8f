-- ===== src/Erl.antt =====
-- The external term format that leaves and hashes are written in before they are hashed
-- (`to_erl`, `to_erl_ext` and `Leaf::to_erl_ext` of c_src/merkletree.cpp). The functions append to
-- `binary`; a length is pushed as one byte.
use diode_server.Base.{ℕ, ◌+◌, ◌/◌, ◌%◌, List, [], ◌∷◌, ◌++◌, ltb, if◌then◌else◌, length}
use diode_server.Base.Bytes.{Bytes}
use diode_server.Bits.{Bits}
use diode_server.Pairs.{Pair}

-- `to_erl(bin_t &, uint8_t *, uint8_t *)`
unfoldable pub to_erl : Bytes → Bytes → Bytes
to_erl binary value = (binary ++ 109 ∷ 0 ∷ 0 ∷ 0 ∷ (length value % 256) ∷ []) ++ value

-- The prefix of a leaf: a bit string, or a binary if it fills its bytes.
unfoldable pub prefix_to_erl : Bytes → Bits → Bytes
unfolding to_erl
prefix_to_erl binary prefix =
    if ltb 0 (prefix.size % 8)
    then (binary ++ 77 ∷ 0 ∷ 0 ∷ 0 ∷ ((prefix.size / 8 + 1) % 256) ∷ (prefix.size % 8) ∷ [])
      ++ prefix.value
    else to_erl binary prefix.value

unfoldable pub pairs_to_erl : Bytes → List Pair → Bytes
unfolding to_erl
pairs_to_erl binary [] = binary
pairs_to_erl binary (p ∷ bucket) =
    pairs_to_erl (to_erl (to_erl (binary ++ 104 ∷ 2 ∷ []) p.key) p.value) bucket

-- `Leaf::to_erl_ext`
unfoldable pub leaf_to_erl_ext : Bytes → ℕ → Bits → List Pair → Bytes
unfolding prefix_to_erl pairs_to_erl
leaf_to_erl_ext binary num prefix bucket =
    let head = binary ++ 131 ∷ 108 ∷ 0 ∷ 0 ∷ 0 ∷ ((length bucket + 2) % 256) ∷ [] in
    let numbered = prefix_to_erl head prefix ++ 97 ∷ (num % 256) ∷ [] in
    pairs_to_erl numbered bucket ++ 106 ∷ []

unfoldable pub values_to_erl : Bytes → List Bytes → Bytes
unfolding to_erl
values_to_erl binary [] = binary
values_to_erl binary (v ∷ values) = values_to_erl (to_erl binary v) values

-- `to_erl_ext(bin_t &, uint256_t *, int)`; the overload with two hashes writes the same bytes as
-- this one with `left ∷ right ∷ []`
unfoldable pub to_erl_ext : Bytes → List Bytes → Bytes
unfolding values_to_erl
to_erl_ext binary values =
    values_to_erl (binary ++ 131 ∷ 108 ∷ 0 ∷ 0 ∷ 0 ∷ (length values % 256) ∷ []) values ++ 106 ∷ []
