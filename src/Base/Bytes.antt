-- ===== src/Base/Bytes.antt =====
-- Byte strings (`std::vector<uint8_t>` and byte arrays) and the comparisons that `std::vector`
-- defines on them: equality and the lexicographic order.
use Prim.Native.Nat.{ℕ}
use mathlib.Core.Path.{◌≡◌, refl}
use mathlib.Core.Bool.{Bool, true, false, ◌&&◌}
use mathlib.Core.List.{List, [], ◌∷◌}
use native.Mathlib.Omega.{arith}
use diode_server.Base.Tests.{ltb, ◌==◌, if◌then◌else◌}

abbrev pub Bytes : Type 0
Bytes = List ℕ

-- `a == b`
unfoldable pub bin_eq : Bytes → Bytes → Bool
bin_eq [] [] = true
bin_eq [] (y ∷ ys) = false
bin_eq (x ∷ xs) [] = false
bin_eq (x ∷ xs) (y ∷ ys) = x == y && bin_eq xs ys

-- `a < b`, which is also `b > a`
unfoldable pub bin_lt : Bytes → Bytes → Bool
bin_lt [] [] = false
bin_lt [] (y ∷ ys) = true
bin_lt (x ∷ xs) [] = false
bin_lt (x ∷ xs) (y ∷ ys) = if ltb x y then true else x == y && bin_lt xs ys

pub bin_eq_sound : (a b : Bytes) → bin_eq a b ≡ true → a ≡ b
unfolding bin_eq
bin_eq_sound [] [] h = refl
bin_eq_sound [] (y ∷ ys) h = cc
bin_eq_sound (x ∷ xs) [] h = cc
bin_eq_sound (x ∷ xs) (y ∷ ys) h = ground (arith, bin_eq_sound xs ys)

pub bin_eq_refl : (a : Bytes) → bin_eq a a ≡ true
unfolding bin_eq
bin_eq_refl [] = refl
bin_eq_refl (x ∷ xs) = ground (arith, bin_eq_refl xs)

pub bin_lt_irrefl : (a : Bytes) → bin_lt a a ≡ false
unfolding bin_lt
bin_lt_irrefl [] = refl
bin_lt_irrefl (x ∷ xs) = ground (arith, bin_lt_irrefl xs)

pub bin_lt_trans : (a b c : Bytes) → bin_lt a b ≡ true → bin_lt b c ≡ true → bin_lt a c ≡ true
unfolding bin_lt
bin_lt_trans [] [] c p q = cc
bin_lt_trans [] (y ∷ ys) [] p q = cc
bin_lt_trans [] (y ∷ ys) (z ∷ zs) p q = refl
bin_lt_trans (x ∷ xs) [] c p q = cc
bin_lt_trans (x ∷ xs) (y ∷ ys) [] p q = cc
bin_lt_trans (x ∷ xs) (y ∷ ys) (z ∷ zs) p q = ground (arith, bin_lt_trans xs ys zs)

-- Keys that are neither equal nor in order are in the other order.
pub bin_lt_total : (a b : Bytes) → bin_eq a b ≡ false → bin_lt a b ≡ false → bin_lt b a ≡ true
unfolding bin_lt bin_eq
bin_lt_total [] [] p q = cc
bin_lt_total [] (y ∷ ys) p q = cc
bin_lt_total (x ∷ xs) [] p q = refl
bin_lt_total (x ∷ xs) (y ∷ ys) p q = ground (arith, bin_lt_total xs ys)

pub bin_eq_symm : (a b : Bytes) → bin_eq a b ≡ bin_eq b a
unfolding bin_eq
bin_eq_symm [] [] = refl
bin_eq_symm [] (y ∷ ys) = refl
bin_eq_symm (x ∷ xs) [] = refl
bin_eq_symm (x ∷ xs) (y ∷ ys) = ground (arith, bin_eq_symm xs ys)
