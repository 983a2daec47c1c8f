-- ===== src/Nif/Balance.antt =====
-- Balances as terms (`balance_to_term` and `get_balance_uint256` in c_src/nif.cpp).
use native.Mathlib.Nat.{
  pow-suc, pow-succ', pow-le-pow_right, add-mul, mul_assoc, le-mul_of_pos_right, one-le-pow,
}
use diode_server.Base.{
  ℕ, zero, suc, ◌+◌, ◌-◌, ◌*◌, ◌%◌, ◌^◌, ◌≤◌, ◌<◌, ◌≡◌, refl, ap, sym, subst, ◌∙◌, true, Option,
  some, [], ◌∷◌, ◌++◌, ltb, leb, ◌==◌, ltb→lt, ltb→ge, leb→le, length, replicate, All, arith,
  Bool-cases, inl, inr,
}
use diode_server.Base.Bytes.{Bytes}
use diode_server.Bits.Digits.{IsArray}
use diode_server.Terms.{Term}
use diode_server.Nif.{
  zeros, bytes_of, store_from, significant, shift_in, balance_to_term, get_balance_uint256,
}
use diode_server.Nif.Range.{number, number_lt}

-- Bytes without the zeros in front, and how many these are.
significant-zeros :
    (bytes : Bytes)
    → (length (significant bytes) ≤ length bytes)
      × (replicate (length bytes - length (significant bytes)) 0 ++ significant bytes ≡ bytes)
unfolding significant
significant-zeros [] = (omega arith, refl)
significant-zeros (zero ∷ bytes) =
    let (fewer, same) = significant-zeros bytes in
    let more : suc (length bytes) - length (significant bytes)
        ≡ suc (length bytes - length (significant bytes)) =
      omega (arith, fewer) in
    (omega (arith, fewer), rw more (ap (λ r. 0 ∷ r) same))
significant-zeros (suc b ∷ bytes) =
    let none_left : suc (length bytes) - suc (length bytes) ≡ 0 = omega arith in
    (omega arith, rw none_left refl)

number-significant : (bytes : Bytes) → number (significant bytes) ≡ number bytes
unfolding significant number
number-significant [] = refl
number-significant (zero ∷ bytes) = number-significant bytes ∙ omega arith
number-significant (suc b ∷ bytes) = refl

digit_lt : (x y p r : ℕ) → x < y → r < p → x * p + r < y * p
digit_lt x y p r h g = grind arith

head_eq : (x y p r s : ℕ) → r < p → s < p → x * p + r ≡ y * p + s → x ≡ y
head_eq x y p r s h g e = elim (Bool-cases (ltb x y)) [
  | inl less ↦ absurd (omega (arith, digit_lt x y p r (ltb→lt x y less) h, e))
  | inr c ↦ elim (Bool-cases (ltb y x)) [
    | inl more ↦ absurd (omega (arith, digit_lt y x p s (ltb→lt y x more) g, e))
    | inr d ↦ omega (arith, ltb→ge x y c, ltb→ge y x d)
  ]
]

-- Bytes of one length that stand for one number are the same.
number-inj :
    (xs ys : Bytes)
    → length xs ≡ length ys
    → All (λ x. x < 256) xs
    → All (λ x. x < 256) ys
    → number xs ≡ number ys
    → xs ≡ ys
unfolding number
number-inj [] [] l a b e = refl
number-inj [] (y ∷ ys) l a b e = absurd (omega arith)
number-inj (x ∷ xs) [] l a b e = absurd (omega arith)
number-inj (x ∷ xs) (y ∷ ys) l (h, a) (g, b) e =
    let same : length xs ≡ length ys = omega (arith, l) in
    let upper : number xs < 256 ^ length ys =
      subst (λ n. number xs < 256 ^ n) same (number_lt xs a) in
    let whole : x * 256 ^ length ys + number xs ≡ y * 256 ^ length ys + number ys =
      subst (λ n. x * 256 ^ n + number xs ≡ y * 256 ^ length ys + number ys) same e in
    let heads : x ≡ y =
      head_eq x y (256 ^ length ys) (number xs) (number ys) upper (number_lt ys b) whole in
    let rest : number xs ≡ number ys =
      omega (arith, whole, ap (λ (c : ℕ). c * 256 ^ length ys) heads) in
    let tails = number-inj xs ys same a b rest in ap (λ c. c ∷ xs) heads ∙ ap (λ r. y ∷ r) tails

-- The loop of the shifts does not wrap below 2^64.
shift_in-number :
    (val : ℕ) (bytes : Bytes)
    → val * 256 ^ length bytes + number bytes < 2 ^ 64
    → shift_in val bytes ≡ val * 256 ^ length bytes + number bytes
unfolding shift_in number
shift_in-number val [] h = omega arith
shift_in-number val (b ∷ bytes) h =
    let power = pow-suc 256 (length bytes) in
    let split = add-mul (val * 256) b (256 ^ length bytes) in
    let grows : val * 256 + b ≤ (val * 256 + b) * 256 ^ length bytes =
      le-mul_of_pos_right (val * 256 + b) (one-le-pow (length bytes) 256 (omega arith)) in
    let moved : val * 256 ^ suc (length bytes) ≡ val * 256 * 256 ^ length bytes =
      ap (λ (x : ℕ). val * x) (pow-succ' 256 (length bytes))
      ∙ sym (mul_assoc val 256 (256 ^ length bytes)) in
    let small : (val * 256 + b) % 2 ^ 64 ≡ val * 256 + b = omega (arith, h, split, grows, moved) in
    rw small (
      shift_in-number (val * 256 + b) bytes (omega (arith, h, split, moved))
      ∙ omega (arith, split, moved))

pub significant-All :
    (bytes : Bytes) → All (λ x. x < 256) bytes → All (λ x. x < 256) (significant bytes)
unfolding significant
significant-All [] a = tt
significant-All (zero ∷ bytes) (h, a) = significant-All bytes a
significant-All (suc b ∷ bytes) a = a

-- The eight bytes of a 64-bit number behind 24 zeros stand for it.
stored : (n : ℕ) → n < 2 ^ 64 → number (store_from 0 (bytes_of 8 n) zeros) ≡ n
unfolding store_from bytes_of number
stored n h = omega arith

stored-All : (n : ℕ) → All (λ x. x < 256) (store_from 0 (bytes_of 8 n) zeros)
unfolding store_from bytes_of
stored-All n = omega arith

length-stored : (n : ℕ) → length (store_from 0 (bytes_of 8 n) zeros) ≡ 32
unfolding store_from bytes_of
length-stored n = refl

of_number :
    (balance : Bytes) (n : ℕ)
    → IsArray 32 balance
    → n < 2 ^ 64
    → n ≡ number balance
    → store_from 0 (bytes_of 8 n) zeros ≡ balance
of_number balance n i h e =
    number-inj (store_from 0 (bytes_of 8 n) zeros) balance (length-stored n ∙ sym i.len)
      (stored-All n) i.bytes (stored n h ∙ e)

no_bytes : (bytes : Bytes) → (length bytes == 0) ≡ true → bytes ≡ []
no_bytes [] h = refl
no_bytes (b ∷ bytes) h = absurd (ground arith)

-- A balance of 32 bytes that becomes a term is read back from it as it was, whatever
-- enif_term_to_binary does.
pub get_balance_uint256-balance_to_term :
    (term_to_binary : Term → Option Bytes) (balance : Bytes)
    → IsArray 32 balance
    → get_balance_uint256 term_to_binary (balance_to_term balance) ≡ some balance
unfolding get_balance_uint256 balance_to_term
get_balance_uint256-balance_to_term term_to_binary balance i =
    let digits = significant balance in
    let size = i.len in
    let (fewer, padded) = significant-zeros balance in
    let value = number-significant balance in
    elim (Bool-cases (length digits == 0)) [
      | inl e ↦
          let nothing : number digits ≡ 0 = rw (no_bytes digits e) (unfold number in refl) in
          rw e (ap some (of_number balance 0 i (omega arith) (omega (arith, nothing, value))))
      | inr c ↦ elim (Bool-cases (leb (length digits) 8)) [
        | inl short ↦
            let below = number_lt digits (significant-All balance i.bytes) in
            let power : 256 ^ length digits ≤ 256 ^ 8 =
              pow-le-pow_right (omega arith) (leb→le (length digits) 8 short) in
            let shifted = shift_in-number 0 digits (omega (arith, below, power)) in
            let n : ℕ = shift_in 0 digits in
            let same : n ≡ number balance = omega (arith, shifted, value) in
            let small : n < 2 ^ 64 = omega (arith, shifted, below, power) in
            let fits : ltb n (2 ^ 64) ≡ true = ground (arith, small) in
            rw (c, short, fits) (ap some (of_number balance n i small same))
        | inr long ↦
            let some_bytes : ltb 0 (length digits) ≡ true = ground arith in
            let most : leb (length digits) 32 ≡ true = ground (arith, fewer, size) in
            let back : replicate (32 - length digits) 0 ++ digits ≡ balance =
              subst (λ n. replicate (n - length digits) 0 ++ digits ≡ balance) size padded in
            rw (c, long, some_bytes, most) (ap some back)
      ]
    ]
