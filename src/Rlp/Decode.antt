-- ===== src/Rlp/Decode.antt =====
-- An RLP decoder, as the reference that the encoder is held to.
use mathlib.Core.List.{append_assoc}
use diode_server.Base.{
  ℕ, zero, suc, ◌+◌, ◌-◌, ◌%◌, ◌^◌, ◌≤◌, ◌<◌, ◌≡◌, refl, ap, sym, ◌∙◌, ◌==◌, ltb, leb, Bool, true,
  false, Option, none, some, [], ◌∷◌, ◌++◌, length, take, drop, arith, Bool-cases, inl, inr, leb→le,
  leb→gt, ==→eq, if_true, if_false, if◌then◌else◌,
}
use diode_server.Base.Bytes.{Bytes}
use diode_server.Rlp.{
  le_bytes, swap_bytes, append_length_prefix, rlp_encode_bytes, rlp_encode_uint64,
  rlp_encode_uint256, rlp_encode_list, strip_zeros,
}
use diode_server.Rlp.Digits.{
  be_value, be_value-swap_bytes, length-swap_bytes, length-le_bytes, le_bytes_pos,
}

-- An item: whether it is a list, and its payload.
pub record Decoded : Type 0 where
  pub is_list : Bool
  pub payload : Bytes
  pub rest : Bytes

abbrev pub item : Bool → Bytes → Bytes → Decoded
item l p r = record { is_list = l; payload = p; rest = r }

-- The payload of `n` bytes, and what follows.
cut : Bool → ℕ → Bytes → Decoded
cut l n bytes = item l (take n bytes) (drop n bytes)

-- A payload whose length stands in the next `k` bytes.
cut_long : Bool → ℕ → Bytes → Decoded
unfolding cut
cut_long l k bytes = cut l (be_value 0 (take k bytes)) (drop k bytes)

-- The first item of the bytes.
unfoldable pub decode : Bytes → Option Decoded
unfolding cut cut_long
decode [] = none
decode (b ∷ bytes) = some (
    if ltb b 0x80
    then item false (b ∷ []) bytes
    else if ltb b 0xB8
    then cut false (b - 0x80) bytes
    else if ltb b 0xC0
    then cut_long false (b - 0xB7) bytes
    else if ltb b 0xF8
    then cut true (b - 0xC0) bytes
    else cut_long true (b - 0xF7) bytes)

take-length-append : (xs ys : Bytes) → take (length xs) (xs ++ ys) ≡ xs
take-length-append [] ys = refl
take-length-append (x ∷ xs) ys = ap (◌∷◌ x) (take-length-append xs ys)

drop-length-append : (xs ys : Bytes) → drop (length xs) (xs ++ ys) ≡ ys
drop-length-append [] ys = refl
drop-length-append (x ∷ xs) ys = drop-length-append xs ys

cut-append :
    (l : Bool) (n : ℕ) (p rest : Bytes) → n ≡ length p → cut l n (p ++ rest) ≡ item l p rest
unfolding cut
cut-append l n p rest e = rw (e, take-length-append p rest, drop-length-append p rest)

cut_long-append :
    (l : Bool) (k : ℕ) (len p rest : Bytes)
    → k ≡ length len
    → be_value 0 len ≡ length p
    → cut_long l k (len ++ (p ++ rest)) ≡ item l p rest
unfolding cut_long
cut_long-append l k len p rest e v =
    rw (e, take-length-append len (p ++ rest), drop-length-append len (p ++ rest))
      (cut-append l (be_value 0 len) p rest v)

module _ (bytes : Bytes) (n : ℕ) where
  decode_string : n ≤ 55 → decode ((0x80 + n) ∷ bytes) ≡ some (cut false n bytes)
  unfolding decode
  decode_string h = ground arith

  decode_list : n ≤ 55 → decode ((0xC0 + n) ∷ bytes) ≡ some (cut true n bytes)
  unfolding decode
  decode_list h = ground arith

  decode_long_string :
      0 < n → n ≤ 8 → decode ((0x80 + 55 + n) ∷ bytes) ≡ some (cut_long false n bytes)
  unfolding decode
  decode_long_string h k = ground arith

  decode_long_list : 0 < n → n ≤ 8 → decode ((0xC0 + 55 + n) ∷ bytes) ≡ some (cut_long true n bytes)
  unfolding decode
  decode_long_list h k = ground arith

-- The offset that marks strings, or lists.
abbrev offset_of : Bool → ℕ
offset_of false = 0x80
offset_of true = 0xC0

decode_head_short :
    (l : Bool) (n : ℕ) (bytes : Bytes)
    → n ≤ 55
    → decode (((offset_of l + n) % 256) ∷ bytes) ≡ some (cut l n bytes)
decode_head_short false n bytes h =
    let e : (0x80 + n) % 256 ≡ 0x80 + n = omega arith in rw e (decode_string bytes n h)
decode_head_short true n bytes h =
    let e : (0xC0 + n) % 256 ≡ 0xC0 + n = omega arith in rw e (decode_list bytes n h)

decode_head_long :
    (l : Bool) (n : ℕ) (bytes : Bytes)
    → 0 < n
    → n ≤ 8
    → decode (((offset_of l + 55 + n) % 256) ∷ bytes) ≡ some (cut_long l n bytes)
decode_head_long false n bytes h k =
    let e : (0x80 + 55 + n) % 256 ≡ 0x80 + 55 + n = omega arith in
    rw e (decode_long_string bytes n h k)
decode_head_long true n bytes h k =
    let e : (0xC0 + 55 + n) % 256 ≡ 0xC0 + 55 + n = omega arith in
    rw e (decode_long_list bytes n h k)

-- What `append_length_prefix` puts behind `out`.
prefixed : Bool → Bytes → Bytes
prefixed l payload =
    if leb (length payload) 55
    then ((offset_of l + length payload) % 256) ∷ payload
    else ((offset_of l + 55 + length (swap_bytes (le_bytes 8 (length payload)))) % 256)
      ∷ (swap_bytes (le_bytes 8 (length payload)) ++ payload)

append_length_prefix_lem :
    (l : Bool) (payload out : Bytes)
    → append_length_prefix (offset_of l) payload out ≡ out ++ prefixed l payload
unfolding append_length_prefix prefixed
append_length_prefix_lem l payload out = elim (Bool-cases (leb (length payload) 55)) [
  | inl e ↦ rw e (append_assoc out _ payload)
  | inr e ↦ rw e (
      ap (λ x. x ++ payload) (append_assoc out _ (swap_bytes (le_bytes 8 (length payload))))
      ∙ append_assoc out _ payload)
]

decode-prefixed :
    (l : Bool) (payload rest : Bytes)
    → length payload < 256 ^ 8
    → decode (prefixed l payload ++ rest) ≡ some (item l payload rest)
unfolding prefixed
decode-prefixed l payload rest bound = elim (Bool-cases (leb (length payload) 55)) [
  | inl e ↦ rw e (
      decode_head_short l (length payload) (payload ++ rest) (leb→le _ _ e)
      ∙ ap some (cut-append l (length payload) payload rest refl))
  | inr e ↦
      let large = leb→gt (length payload) 55 e in
      let len = swap_bytes (le_bytes 8 (length payload)) in
      let size = length-swap_bytes (length payload) in
      let upper = length-le_bytes 8 (length payload) in
      let lower = le_bytes_pos 7 (length payload) (omega (arith, large)) in
      rw e (
        decode_head_long l (length len) ((len ++ payload) ++ rest) (omega (arith, size, lower))
          (omega (arith, size, upper))
        ∙ ap (λ x. some (cut_long l (length len) x)) (append_assoc len payload rest)
        ∙ ap some (
            cut_long-append l (length len) len payload rest refl
              (be_value-swap_bytes (length payload) bound)))
]

-- What an encoder appends: an item that decodes to the payload, whatever follows.
pub record Encodes (l : Bool) (payload : Bytes) (encode : Bytes → Bytes) : Type 0 where
  pub code : Bytes
  pub appends : (out : Bytes) → encode out ≡ out ++ code
  pub decodes : (rest : Bytes) → decode (code ++ rest) ≡ some (item l payload rest)

prefix-Encodes :
    (l : Bool) (payload : Bytes)
    → length payload < 256 ^ 8
    → Encodes l payload (append_length_prefix (offset_of l) payload)
prefix-Encodes l payload h = record {
  code = prefixed l payload;
  appends = append_length_prefix_lem l payload;
  decodes = λ rest. decode-prefixed l payload rest h;
}

-- A byte string decodes to itself.
pub rlp_encode_bytes-Encodes :
    (bytes : Bytes) → length bytes < 256 ^ 8 → Encodes false bytes (rlp_encode_bytes bytes)
unfolding rlp_encode_bytes decode
rlp_encode_bytes-Encodes [] h = prefix-Encodes false [] h
rlp_encode_bytes-Encodes (b ∷ []) h = elim (Bool-cases (ltb b 0x80)) [
  | inl e ↦ record {
    code = b ∷ [];
    appends = λ out. if_true _ _ e;
    decodes = λ rest. ap some (if_true _ _ e);
  }
  | inr e ↦
      let long = prefix-Encodes false (b ∷ []) h in
      record {
        code = long.code;
        appends = λ out. if_false _ _ e ∙ long.appends out;
        decodes = long.decodes;
      }
]
rlp_encode_bytes-Encodes (b ∷ c ∷ bytes) h = prefix-Encodes false (b ∷ c ∷ bytes) h

-- A 64-bit number decodes to bytes that stand for it.
pub rlp_encode_uint64-Encodes :
    (value : ℕ)
    → value < 256 ^ 8
    → (bytes : Bytes) × Encodes false bytes (rlp_encode_uint64 value) × (be_value 0 bytes ≡ value)
unfolding rlp_encode_uint64 be_value
rlp_encode_uint64-Encodes value h = elim (Bool-cases (value == 0)) [
  | inl e ↦
      let encoded = rlp_encode_bytes-Encodes [] (omega arith) in
      (
        [],
        record {
          code = encoded.code;
          appends = λ out. if_true _ _ e ∙ encoded.appends out;
          decodes = encoded.decodes;
        },
        sym (==→eq value 0 e),
      )
  | inr e ↦
      let bytes = swap_bytes (le_bytes 8 value) in
      let size = length-swap_bytes value in
      let upper = length-le_bytes 8 value in
      let encoded = rlp_encode_bytes-Encodes bytes (omega (arith, size, upper)) in
      (
        bytes,
        record {
          code = encoded.code;
          appends = λ out. if_false _ _ e ∙ encoded.appends out;
          decodes = encoded.decodes;
        },
        be_value-swap_bytes value h,
      )
]

strip_zeros-value :
    (bytes : Bytes)
    → (be_value 0 (strip_zeros bytes) ≡ be_value 0 bytes)
      × (length (strip_zeros bytes) ≤ length bytes)
unfolding strip_zeros be_value
strip_zeros-value [] = (refl, omega arith)
strip_zeros-value (zero ∷ bytes) =
    let (same, shorter) = strip_zeros-value bytes in (same, omega (arith, shorter))
strip_zeros-value (suc b ∷ bytes) = (refl, omega arith)

-- The first byte is not zero.
abbrev pub NoLeadingZero : Bytes → Type 0
NoLeadingZero [] = Unit {0}
NoLeadingZero (b ∷ bytes) = 0 < b

strip_zeros-NoLeadingZero : (bytes : Bytes) → NoLeadingZero (strip_zeros bytes)
unfolding strip_zeros
strip_zeros-NoLeadingZero [] = tt
strip_zeros-NoLeadingZero (zero ∷ bytes) = strip_zeros-NoLeadingZero bytes
strip_zeros-NoLeadingZero (suc b ∷ bytes) = omega arith

-- A 256-bit number decodes to bytes that stand for it, the first of which is not zero.
pub rlp_encode_uint256-Encodes :
    (value : Bytes)
    → length value ≡ 32
    → (bytes : Bytes) × Encodes false bytes (rlp_encode_uint256 value)
      × (be_value 0 bytes ≡ be_value 0 value)
      × NoLeadingZero bytes
unfolding rlp_encode_uint256
rlp_encode_uint256-Encodes value h =
    let (same, shorter) = strip_zeros-value value in
    (
      strip_zeros value,
      rlp_encode_bytes-Encodes (strip_zeros value) (omega (arith, shorter)),
      same,
      strip_zeros-NoLeadingZero value,
    )

-- The list of four encoded items decodes to their codes in a row.
pub rlp_encode_list-Encodes :
    (item0 item1 item2 item3 : Bytes)
    → length (((item0 ++ item1) ++ item2) ++ item3) < 256 ^ 8
    → Encodes true (((item0 ++ item1) ++ item2) ++ item3) (rlp_encode_list item0 item1 item2 item3)
unfolding rlp_encode_list
rlp_encode_list-Encodes item0 item1 item2 item3 h =
    prefix-Encodes true (((item0 ++ item1) ++ item2) ++ item3) h
