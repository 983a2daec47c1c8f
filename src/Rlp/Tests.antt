-- ===== src/Rlp/Tests.antt =====
-- The encoder's theorems at concrete data.
use diode_server.Base.{◌≡◌, refl, true, false, [], ◌∷◌, ◌++◌, replicate, arith}
use diode_server.Base.Bytes.{Bytes}
use diode_server.Rlp.{rlp_encode_bytes, rlp_encode_uint64, rlp_encode_uint256, rlp_encode_list}
use diode_server.Rlp.Digits.{be_value}
use diode_server.Rlp.Decode.{
  NoLeadingZero, Encodes, rlp_encode_bytes-Encodes, rlp_encode_uint64-Encodes,
  rlp_encode_uint256-Encodes, rlp_encode_list-Encodes,
}

rlp_encode_bytes-Encodes_example : Encodes false (1 ∷ 200 ∷ []) (rlp_encode_bytes (1 ∷ 200 ∷ []))
rlp_encode_bytes-Encodes_example = rlp_encode_bytes-Encodes (1 ∷ 200 ∷ []) (omega arith)

rlp_encode_uint64-Encodes_example :
    (bytes : Bytes) × Encodes false bytes (rlp_encode_uint64 1000) × (be_value 0 bytes ≡ 1000)
rlp_encode_uint64-Encodes_example = rlp_encode_uint64-Encodes 1000 (omega arith)

rlp_encode_uint256-Encodes_example :
    (bytes : Bytes) × Encodes false bytes (rlp_encode_uint256 (replicate 20 0 ++ replicate 12 7))
    × (be_value 0 bytes ≡ be_value 0 (replicate 20 0 ++ replicate 12 7))
    × NoLeadingZero bytes
rlp_encode_uint256-Encodes_example =
    rlp_encode_uint256-Encodes (replicate 20 0 ++ replicate 12 7) refl

rlp_encode_list-Encodes_example :
    Encodes true
      ((((1 ∷ []) ++ (2 ∷ [])) ++ (3 ∷ [])) ++ (4 ∷ []))
      (rlp_encode_list (1 ∷ []) (2 ∷ []) (3 ∷ []) (4 ∷ []))
rlp_encode_list-Encodes_example =
    rlp_encode_list-Encodes (1 ∷ []) (2 ∷ []) (3 ∷ []) (4 ∷ []) (omega arith)
