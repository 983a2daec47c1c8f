-- ===== src/Rlp/Digits.antt =====
-- The bytes of a number: the loop that takes it apart, the loop that swaps the bytes, and the
-- number that they stand for.
use native.Mathlib.Nat.{pow-suc}
use mathlib.Core.List.{reverse, reverse-append}
use diode_server.Base.{
  ℕ, zero, suc, ◌+◌, ◌*◌, ◌/◌, ◌^◌, ◌≤◌, ◌<◌, ◌≡◌, refl, ap, sym, ◌∙◌, ◌==◌, [], ◌∷◌, ◌++◌, length,
  arith, Bool-cases, inl, inr, ==→eq,
}
use diode_server.Base.Bytes.{Bytes}
use diode_server.Rlp.{le_bytes, swap_bytes}

-- The number that bytes stand for, the highest first, after the digits of `acc`.
unfoldable pub be_value : ℕ → Bytes → ℕ
be_value acc [] = acc
be_value acc (b ∷ bytes) = be_value (acc * 256 + b) bytes

-- The number that bytes stand for, the lowest first.
unfoldable pub le_value : Bytes → ℕ
le_value [] = 0
le_value (b ∷ bytes) = b + 256 * le_value bytes

-- For up to eight bytes the swaps reverse.
pub swap_bytes-reverse : (bytes : Bytes) → length bytes ≤ 8 → swap_bytes bytes ≡ reverse bytes
unfolding swap_bytes
swap_bytes-reverse [] h = refl
swap_bytes-reverse (a ∷ []) h = refl
swap_bytes-reverse (a ∷ b ∷ []) h = refl
swap_bytes-reverse (a ∷ b ∷ c ∷ []) h = refl
swap_bytes-reverse (a ∷ b ∷ c ∷ d ∷ []) h = refl
swap_bytes-reverse (a ∷ b ∷ c ∷ d ∷ e ∷ []) h = refl
swap_bytes-reverse (a ∷ b ∷ c ∷ d ∷ e ∷ f ∷ []) h = refl
swap_bytes-reverse (a ∷ b ∷ c ∷ d ∷ e ∷ f ∷ g ∷ []) h = refl
swap_bytes-reverse (a ∷ b ∷ c ∷ d ∷ e ∷ f ∷ g ∷ i ∷ []) h = refl
swap_bytes-reverse (a ∷ b ∷ c ∷ d ∷ e ∷ f ∷ g ∷ i ∷ j ∷ bytes) h = absurd (omega arith)

be_value-snoc :
    (acc : ℕ) (bytes : Bytes) (b : ℕ)
    → be_value acc (bytes ++ b ∷ []) ≡ be_value acc bytes * 256 + b
unfolding be_value
be_value-snoc acc [] b = refl
be_value-snoc acc (c ∷ bytes) b = be_value-snoc (acc * 256 + c) bytes b

be_value-reverse : (bytes : Bytes) → be_value 0 (reverse bytes) ≡ le_value bytes
unfolding be_value le_value
be_value-reverse [] = refl
be_value-reverse (b ∷ bytes) =
    ap (be_value 0) (reverse-append (b ∷ []) bytes)
    ∙ be_value-snoc 0 (reverse bytes) b
    ∙ omega (arith, be_value-reverse bytes)

pub length-le_bytes : (fuel n : ℕ) → length (le_bytes fuel n) ≤ fuel
unfolding le_bytes
length-le_bytes zero n = omega arith
length-le_bytes (suc fuel) n = ground (arith, length-le_bytes fuel (n / 256))

pub le_bytes_pos : (fuel n : ℕ) → 0 < n → 0 < length (le_bytes (suc fuel) n)
unfolding le_bytes
le_bytes_pos fuel n h = ground arith

pub le_value-le_bytes : (fuel n : ℕ) → n < 256 ^ fuel → le_value (le_bytes fuel n) ≡ n
unfolding le_value le_bytes
le_value-le_bytes zero n h = omega arith
le_value-le_bytes (suc fuel) n h =
    let small : n / 256 < 256 ^ fuel = omega (arith, pow-suc 256 fuel) in
    let ih = le_value-le_bytes fuel (n / 256) small in
    elim (Bool-cases (n == 0)) [
      | inl e ↦ rw e (sym (==→eq n 0 e))
      | inr e ↦ rw e (omega (arith, ih))
    ]

length-reverse : (bytes : Bytes) → length (reverse bytes) ≡ length bytes
length-reverse [] = refl
length-reverse (b ∷ bytes) =
    ap length (reverse-append (b ∷ []) bytes)
    ∙ length-snoc (reverse bytes)
    ∙ ap suc (length-reverse bytes)
  where
    length-snoc : (xs : Bytes) → length (xs ++ b ∷ []) ≡ suc (length xs)
    length-snoc [] = refl
    length-snoc (x ∷ xs) = ap suc (length-snoc xs)

-- The bytes that the encoder writes for a 64-bit number stand for it, and are at most eight.
pub be_value-swap_bytes : (n : ℕ) → n < 256 ^ 8 → be_value 0 (swap_bytes (le_bytes 8 n)) ≡ n
be_value-swap_bytes n h =
    ap (be_value 0) (swap_bytes-reverse (le_bytes 8 n) (length-le_bytes 8 n))
    ∙ be_value-reverse (le_bytes 8 n)
    ∙ le_value-le_bytes 8 n h

pub length-swap_bytes : (n : ℕ) → length (swap_bytes (le_bytes 8 n)) ≡ length (le_bytes 8 n)
length-swap_bytes n =
    ap length (swap_bytes-reverse (le_bytes 8 n) (length-le_bytes 8 n))
    ∙ length-reverse (le_bytes 8 n)
