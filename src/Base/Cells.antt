-- ===== src/Base/Cells.antt =====
-- Reads of a list behind a write or an append, the number of elements that satisfy a test, and the
-- elements that are there in a list with holes.
use Prim.Native.Nat.{ℕ, zero, suc, ◌+◌, ◌<◌}
use mathlib.Core.Path.{◌≡◌, refl, ap, ◌∙◌}
use mathlib.Core.Bool.{Bool, true, false}
use mathlib.Core.Option.{Option, none, some}
use mathlib.Core.List.{List, [], ◌∷◌, ◌++◌}
use native.Mathlib.Omega.{arith}
use diode_server.Base.Tests.{◌==◌, if◌then◌else◌}
use diode_server.Base.Lists.{length, get_or, set}

pub get_or-set {ℓ} :
    {A : Type ℓ} (xs : List A) (i j : ℕ) (v d : A)
    → i < length xs
    → get_or (set xs i v) j d ≡ (if i == j then v else get_or xs j d)
get_or-set [] i j v d h = absurd (omega arith)
get_or-set (x ∷ xs) zero zero v d h = refl
get_or-set (x ∷ xs) zero (suc j) v d h = ground arith
get_or-set (x ∷ xs) (suc i) zero v d h = ground arith
get_or-set (x ∷ xs) (suc i) (suc j) v d h = get_or-set xs i j v d (omega arith) ∙ ground arith

pub get_or-set_ne {ℓ} :
    {A : Type ℓ} (xs : List A) (i j : ℕ) (v d : A)
    → (i == j) ≡ false
    → get_or (set xs i v) j d ≡ get_or xs j d
get_or-set_ne [] i j v d h = refl
get_or-set_ne (x ∷ xs) zero zero v d h = absurd (ground arith)
get_or-set_ne (x ∷ xs) zero (suc j) v d h = refl
get_or-set_ne (x ∷ xs) (suc i) zero v d h = refl
get_or-set_ne (x ∷ xs) (suc i) (suc j) v d h = get_or-set_ne xs i j v d (ground arith)

-- A read that finds what is not the default is in bounds.
pub some-length {ℓ} :
    {A : Type ℓ} (xs : List (Option A)) (i : ℕ) {a : A} → get_or xs i none ≡ some a → i < length xs
some-length [] i h = cc
some-length (x ∷ xs) zero h = omega arith
some-length (x ∷ xs) (suc i) h = omega (arith, some-length xs i h)

pub get_or-append {ℓ} :
    {A : Type ℓ} (xs : List A) (i : ℕ) (v d : A)
    → get_or (xs ++ v ∷ []) i d ≡ (if length xs == i then v else get_or xs i d)
get_or-append [] zero v d = ground arith
get_or-append [] (suc i) v d = ground arith
get_or-append (x ∷ xs) zero v d = ground arith
get_or-append (x ∷ xs) (suc i) v d = get_or-append xs i v d ∙ ground arith

abbrev pub one_if : Bool → ℕ
one_if true = 1
one_if false = 0

-- How many elements satisfy a test
abbrev pub count {ℓ} : {A : Type ℓ} → (A → Bool) → List A → ℕ
count test [] = 0
count test (x ∷ xs) = one_if (test x) + count test xs

pub count-append {ℓ} :
    {A : Type ℓ} (test : A → Bool) (xs : List A) (v : A)
    → count test (xs ++ v ∷ []) ≡ count test xs + one_if (test v)
count-append test [] v = omega arith
count-append test (x ∷ xs) v = omega (arith, count-append test xs v)

pub count-set {ℓ} :
    {A : Type ℓ} (test : A → Bool) (xs : List A) (i : ℕ) (v d : A)
    → i < length xs
    → count test (set xs i v) + one_if (test (get_or xs i d)) ≡ count test xs + one_if (test v)
count-set test [] i v d h = absurd (omega arith)
count-set test (x ∷ xs) zero v d h = omega arith
count-set test (x ∷ xs) (suc i) v d h = omega (arith, count-set test xs i v d (omega arith))

-- Where no element satisfies the test, none that is read does.
pub count_none {ℓ} :
    {A : Type ℓ} (test : A → Bool) (xs : List A) (i : ℕ) (d : A)
    → i < length xs
    → count test xs ≡ 0
    → test (get_or xs i d) ≡ false
count_none test [] i d h e = absurd (omega arith)
count_none test (x ∷ xs) zero d h e =
    elim (test x) as (λ b. one_if b + count test xs ≡ 0 → b ≡ false) [
      | true ↦ λ e. absurd (omega arith)
      | false ↦ λ e. refl
    ]
      e
count_none test (x ∷ xs) (suc i) d h e = count_none test xs i d (omega arith) (omega (arith, e))

-- An element that is there
abbrev pub is_some {ℓ} : {A : Type ℓ} → Option A → Bool
is_some none = false
is_some (some a) = true

pub set_same {ℓ} :
    {A : Type ℓ} (xs : List (Option A)) (i : ℕ) (a : A)
    → get_or xs i none ≡ some a
    → set xs i (some a) ≡ xs
set_same [] i a e = refl
set_same (x ∷ xs) zero a e = rw (← e) refl
set_same (x ∷ xs) (suc i) a e = ap (λ r. x ∷ r) (set_same xs i a e)

pub set-set {ℓ} : {A : Type ℓ} (xs : List A) (i : ℕ) (a b : A) → set (set xs i a) i b ≡ set xs i b
set-set [] i a b = refl
set-set (x ∷ xs) zero a b = refl
set-set (x ∷ xs) (suc i) a b = ap (λ r. x ∷ r) (set-set xs i a b)
