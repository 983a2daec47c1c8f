-- ===== src/Nif/Extern.antt =====
-- Integers in the external term format, as `decode_ext_uint256` of c_src/nif.cpp reads them.
use native.Mathlib.Nat.{pow-succ', mul_assoc, add-mul}
use diode_server.Base.{
  ℕ, zero, suc, ◌+◌, ◌-◌, ◌*◌, ◌/◌, ◌%◌, ◌^◌, ◌≤◌, ◌<◌, ◌≡◌, refl, ap, sym, subst, ◌∙◌, true, false,
  some, [], ◌∷◌, ◌++◌, ltb, ◌==◌, if◌then◌else◌, length, replicate, set, take, All, arith,
  Bool-cases, inl, inr, length-append, length-replicate, ltb→lt,
}
use diode_server.Base.Bytes.{Bytes}
use diode_server.Bits.Digits.{IsArray}
use diode_server.Rlp.{le_bytes}
use diode_server.Rlp.Digits.{le_value, le_value-le_bytes, length-le_bytes}
use diode_server.Nif.{zeros, store_from, decode_ext_uint256}
use diode_server.Nif.Range.{number}

-- An integer that is not negative and has at most 32 bytes, as the virtual machine encodes it: in one
-- byte, in 32 bits with a sign, or by its digits, the lowest first.
unfoldable pub ext_term : ℕ → Bytes
ext_term n =
    if ltb n 256
    then 131 ∷ b'a' ∷ n ∷ []
    else if ltb n (2 ^ 31)
    then 131 ∷ b'b' ∷ (n / 2 ^ 24) ∷ (n / 2 ^ 16 % 256) ∷ (n / 2 ^ 8 % 256) ∷ (n % 256) ∷ []
    else 131 ∷ b'n' ∷ length (le_bytes 32 n) ∷ 0 ∷ le_bytes 32 n

-- The bytes of `p` in reverse order in front of `done`.
abbrev onto : Bytes → Bytes → Bytes
onto [] done = done
onto (b ∷ p) done = onto p (b ∷ done)

set_last :
    (k b : ℕ) (done : Bytes) → set (replicate (suc k) 0 ++ done) k b ≡ replicate k 0 ++ b ∷ done
set_last zero b done = refl
set_last (suc k) b done = ap (λ r. 0 ∷ r) (set_last k b done)

-- The loop fills the zeros from the end.
store_from-onto :
    (p done : Bytes)
    → length p + length done ≤ 32
    → store_from (length done) p (replicate (32 - length done) 0 ++ done)
      ≡ replicate (32 - (length p + length done)) 0 ++ onto p done
unfolding store_from
store_from-onto [] done h =
    let none_left : 0 + length done ≡ length done = omega arith in rw none_left
store_from-onto (b ∷ p) done h =
    let left : 32 - length done ≡ suc (31 - length done) = omega (arith, h) in
    let next : length done + 1 ≡ suc (length done) = omega arith in
    let shape : 31 - length done ≡ 32 - suc (length done) = omega (arith, h) in
    let sum : suc (length p) + length done ≡ length p + suc (length done) = omega arith in
    let ih = store_from-onto p (b ∷ done) (omega (arith, h)) in
    rw (left, set_last (31 - length done) b done, next, shape, sum) ih

number-zeros : (k : ℕ) (bytes : Bytes) → number (replicate k 0 ++ bytes) ≡ number bytes
unfolding number
number-zeros zero bytes = refl
number-zeros (suc k) bytes = omega (arith, number-zeros k bytes)

number-onto : (p done : Bytes) → number (onto p done) ≡ le_value p * 256 ^ length done + number done
unfolding number le_value
number-onto [] done = omega arith
number-onto (b ∷ p) done =
    let ih = number-onto p (b ∷ done) in
    let moved : le_value p * 256 ^ suc (length done) ≡ 256 * le_value p * 256 ^ length done =
      let swapped : le_value p * 256 ≡ 256 * le_value p = omega arith in
      ap (λ (x : ℕ). le_value p * x) (pow-succ' 256 (length done))
      ∙ sym (mul_assoc (le_value p) 256 (256 ^ length done))
      ∙ ap (λ (x : ℕ). x * 256 ^ length done) swapped in
    let split = add-mul b (256 * le_value p) (256 ^ length done) in omega (arith, ih, moved, split)

All-zeros :
    (k : ℕ) (bytes : Bytes) → All (λ x. x < 256) bytes → All (λ x. x < 256) (replicate k 0 ++ bytes)
All-zeros zero bytes a = a
All-zeros (suc k) bytes a = (omega arith, All-zeros k bytes a)

All-onto :
    (p done : Bytes)
    → All (λ x. x < 256) p
    → All (λ x. x < 256) done
    → All (λ x. x < 256) (onto p done)
All-onto [] done a b = b
All-onto (x ∷ p) done (h, a) b = All-onto p (x ∷ done) a (h, b)

length-onto : (p done : Bytes) → length (onto p done) ≡ length p + length done
length-onto [] done = omega arith
length-onto (x ∷ p) done = omega (arith, length-onto p (x ∷ done))

-- 32 bytes that stand for a number.
pub record Reads (n : ℕ) (out : Bytes) : Type 0 where
  pub array : IsArray 32 out
  pub value : number out ≡ n

store_from-Reads :
    (p : Bytes) → length p ≤ 32 → All (λ x. x < 256) p → Reads (le_value p) (store_from 0 p zeros)
store_from-Reads p h a =
    let filled : store_from 0 p zeros ≡ replicate (32 - (length p + 0)) 0 ++ onto p [] =
      store_from-onto p [] (omega (arith, h)) in
    rw filled (record {
      array = record {
        len = omega (
          arith,
          h,
          length-append (replicate (32 - (length p + 0)) 0) (onto p []),
          length-replicate {A = ℕ} (32 - (length p + 0)) 0,
          length-onto p [],
        );
        bytes = All-zeros (32 - (length p + 0)) (onto p []) (All-onto p [] a tt);
      };
      value =
          number-zeros (32 - (length p + 0)) (onto p [])
          ∙ number-onto p []
          ∙ (unfold number in omega arith);
    })

All-le_bytes : (fuel n : ℕ) → All (λ x. x < 256) (le_bytes fuel n)
unfolding le_bytes
All-le_bytes zero n = tt
All-le_bytes (suc fuel) n = elim (Bool-cases (n == 0)) [
  | inl e ↦ rw e tt
  | inr e ↦ rw e (omega arith, All-le_bytes fuel (n / 256))
]

take_all : (p : Bytes) → take (length p) p ≡ p
take_all [] = refl
take_all (x ∷ p) = ap (λ r. x ∷ r) (take_all p)

-- The external term of a natural number below 2^256 decodes to the 32 bytes that stand for it.
pub decode_ext_uint256-Reads :
    (n : ℕ)
    → n < 256 ^ 32
    → (out : Bytes) × (decode_ext_uint256 (ext_term n) ≡ some out) × Reads n out
unfolding decode_ext_uint256 ext_term
decode_ext_uint256-Reads n h = elim (Bool-cases (ltb n 256)) [
  | inl byte ↦
      let small : n < 256 = ltb→lt n 256 byte in
      (
        set zeros 31 n,
        rw byte,
        record {
          array = record { len = refl; bytes = omega arith };
          value = unfold number in omega arith;
        },
      )
  | inr more ↦ elim (Bool-cases (ltb n (2 ^ 31))) [
    | inl word ↦
        let below : n < 2 ^ 31 = ltb→lt n (2 ^ 31) word in
        let plus : ltb (n / 2 ^ 24) 128 ≡ true = ground arith in
        let p = (n % 256) ∷ (n / 2 ^ 8 % 256) ∷ (n / 2 ^ 16 % 256) ∷ (n / 2 ^ 24) ∷ [] in
        let r = store_from-Reads p (omega arith) (omega arith) in
        let value : le_value p ≡ n = unfold le_value in omega arith in
        (
          store_from 0 p zeros,
          rw (more, word, plus),
          subst (λ m. Reads m (store_from 0 p zeros)) value r,
        )
    | inr big ↦
        let p = le_bytes 32 n in
        let fits = length-le_bytes 32 n in
        let room : ltb 32 (length p) ≡ false = ground (arith, fits) in
        let whole : ltb (length p) (length p) ≡ false = ground arith in
        let r = store_from-Reads p fits (All-le_bytes 32 n) in
        (
          store_from 0 p zeros,
          rw (more, big, room, whole, take_all p),
          subst (λ m. Reads m (store_from 0 p zeros)) (le_value-le_bytes 32 n h) r,
        )
  ]
]
