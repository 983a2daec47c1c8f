-- ===== src/Trie/Valid.antt =====
-- Well-formed tries. A place in a trie is the path to it from the root, its last turn first:
-- `false` is the left child. The pairs under it have hashes that begin with the path.
use mathlib.Core.Bool.{false≢true}
use diode_server.Base.{
  ◌<◌, ◌+◌, ◌*◌, ◌-◌, ◌%◌, ltb, ltb→lt, if◌then◌else◌, Option, none, some, ap, bit_or, get_or, ◌^◌,
  ℕ, sym, ◌∙◌, eq_of_some, length-set, ◌≤◌, ◌≡◌, refl, Bool, true, false, not, List, [], ◌∷◌, ◌++◌,
  All, length, arith, Bool-cases, inl, inr,
}
use diode_server.Base.Bytes.{Bytes}
use diode_server.Bits.{Bits, no_bits, or_last, grow, push_back}
use diode_server.Pairs.{Pair, Sorted, Hashed, is_null, leaf_size}
use diode_server.Trie.{Item, leaf, inner, agrees, decide, side, each}

-- The bytes for one more bit, as in an array without an end
unfoldable pub grown : Bits → Bytes
grown b = if ltb (length b.value * 8) (b.size + 1) then b.value ++ 0 ∷ [] else b.value

unfoldable pub with_bit : Bits → Bool → Bits
unfolding grown or_last
with_bit b new = record {
  value = if new then or_last (grown b) (7 - b.size % 8) else grown b;
  size = b.size + 1;
}

-- The prefix of the node at a path.
unfoldable pub prefix_of : List Bool → Bits
unfolding with_bit
prefix_of [] = no_bits
prefix_of (b ∷ path) = with_bit (prefix_of path) b

-- The pair belongs below the path.
abbrev pub Under : List Bool → Pair → Type 0
Under [] p = Unit {0}
Under (b ∷ path) p = (decide p (length path) ≡ not b) × Under path p

-- What holds of every stored pair: its hash is that of its key, and its value is not null.
pub record Stored (sha : Bytes → Bytes) (path : List Bool) (p : Pair) : Type 0 where
  pub hashed : Hashed sha p
  pub under : Under path p
  pub live : is_null p.value ≡ false

-- A node at its path: a leaf has an ascending bucket of at most `leaf_size` pairs that belong
-- there.
abbrev pub IsValid : (Bytes → Bytes) → List Bool → Item → Type 0
IsValid sha path (leaf h bucket) =
    (h.prefix ≡ prefix_of path)
    × Sorted bucket
    × (length bucket ≤ leaf_size)
    × All (Stored sha path) bucket
IsValid sha path (inner h l r) =
    (h.prefix ≡ prefix_of path) × IsValid sha (false ∷ path) l × IsValid sha (true ∷ path) r

pub size-prefix_of : (path : List Bool) → (prefix_of path).size ≡ length path
unfolding prefix_of with_bit
size-prefix_of [] = refl
size-prefix_of (b ∷ path) = omega (arith, size-prefix_of path)

grow-grown : (b : Bits) (value : Bytes) → grow b ≡ some value → value ≡ grown b
unfolding grow grown
grow-grown b value = by_case (ltb (length b.value * 8) (b.size + 1)) (ltb (length b.value) 16)
  where
    by_case :
        (full room : Bool)
        → (if full then (if room then some (b.value ++ 0 ∷ []) else none) else some b.value)
          ≡ some value
        → value ≡ (if full then b.value ++ 0 ∷ [] else b.value)
    by_case true true run = sym (eq_of_some run)
    by_case true false run = cc
    by_case false room run = sym (eq_of_some run)

-- `push_back` adds the bit where it returns.
pub push_back-with_bit : (b c : Bits) (new : Bool) → push_back b new ≡ some c → c ≡ with_bit b new
unfolding push_back with_bit
push_back-with_bit b c new = by_case (grow b) (grow-grown b)
  where
    pushed : Bytes → Bits
    pushed value = record {
      value = if new then or_last value (7 - b.size % 8) else value;
      size = b.size + 1;
    }

    by_case :
        (o : Option Bytes)
        → ((value : Bytes) → o ≡ some value → value ≡ grown b)
        → (elim o [ none ↦ none | some value ↦ some (pushed value) ]) ≡ some c
        → c ≡ with_bit b new
    by_case none same run = cc
    by_case (some value) same run = sym (eq_of_some run) ∙ ap pushed (same value refl)

length-grown : (b : Bits) → length b.value * 8 < b.size + 8 → length (grown b) * 8 < b.size + 9
unfolding grown
length-grown b h = elim (Bool-cases (ltb (length b.value * 8) (b.size + 1))) [
  | inl full ↦
      let less = ltb→lt (length b.value * 8) (b.size + 1) full in
      rw full (omega (arith, less, length-snoc b.value))
  | inr fits ↦ rw fits (omega arith)
]
  where
    length-snoc : (xs : Bytes) → length (xs ++ 0 ∷ []) ≡ length xs + 1
    length-snoc [] = refl
    length-snoc (x ∷ xs) = omega (arith, length-snoc xs)

-- A prefix has a byte for every eight of its bits, the last one begun.
length-prefix_of : (path : List Bool) → length (prefix_of path).value * 8 < length path + 8
unfolding prefix_of with_bit or_last
length-prefix_of [] = omega arith
length-prefix_of (true ∷ path) =
    let e =
      length-grown (prefix_of path) (omega (arith, length-prefix_of path, size-prefix_of path)) in
    omega (
      arith,
      e,
      size-prefix_of path,
      length-set (grown (prefix_of path)) (length (grown (prefix_of path)) - 1) (
          bit_or (get_or (grown (prefix_of path)) (length (grown (prefix_of path)) - 1) 0)
            (2 ^ (7 - (prefix_of path).size % 8))),
    )
length-prefix_of (false ∷ path) =
    let e =
      length-grown (prefix_of path) (omega (arith, length-prefix_of path, size-prefix_of path)) in
    omega (arith, e, size-prefix_of path)

-- There is room for 128 bits.
grow-prefix_of :
    (path : List Bool) → length path < 128 → grow (prefix_of path) ≡ some (grown (prefix_of path))
unfolding grow grown
grow-prefix_of path h =
    let b = prefix_of path in
    by_case (ltb (length b.value * 8) (b.size + 1)) (ltb (length b.value) 16) λ full.
      let less = ltb→lt (length b.value * 8) (b.size + 1) full in
      lt→ltb (length b.value) 16 (omega (arith, less, size-prefix_of path))
  where
    lt→ltb : (a b : ℕ) → a < b → ltb a b ≡ true
    lt→ltb a b h = ground arith

    by_case :
        (full room : Bool)
        → (full ≡ true → room ≡ true)
        → (if full
            then (if room then some ((prefix_of path).value ++ 0 ∷ []) else none)
            else some (prefix_of path).value)
          ≡ some (if full then (prefix_of path).value ++ 0 ∷ [] else (prefix_of path).value)
    by_case true true f = refl
    by_case true false f = absurd (false≢true (f refl))
    by_case false room f = refl

pub push_back-prefix_of :
    (path : List Bool) (new : Bool)
    → length path < 128
    → push_back (prefix_of path) new ≡ some (prefix_of (new ∷ path))
unfolding push_back prefix_of with_bit
push_back-prefix_of path new h = rw (grow-prefix_of path h, push_back) refl

module _ (P : Pair → Type 0) where
  pub All-append : (xs ys : List Pair) → All P xs → All P ys → All P (xs ++ ys)
  All-append [] ys a b = b
  All-append (x ∷ xs) ys (h, a) b = (h, All-append xs ys a b)

  pub All-map :
      {Q : Pair → Type 0} (xs : List Pair) → ((p : Pair) → Q p → P p) → All Q xs → All P xs
  All-map [] f a = tt
  All-map (x ∷ xs) f (h, a) = (f x h, All-map xs f a)

  pub All-side : (left : Bool) (n : ℕ) (xs : List Pair) → All P xs → All P (side left n xs)
  unfolding side
  All-side left n [] a = tt
  All-side left n (x ∷ xs) (h, a) = elim (Bool-cases (agrees left (decide x n))) [
    | inl e ↦ rw e (h, All-side left n xs a)
    | inr e ↦ rw e (All-side left n xs a)
  ]

module _ (sha : Bytes → Bytes) where
  pub Stored-up :
      (b : Bool) (path : List Bool) (p : Pair) → Stored sha (b ∷ path) p → Stored sha path p
  Stored-up b path p s = record { hashed = s.hashed; under = s.under.1; live = s.live }

  -- Every pair of a valid trie is stored below its path.
  pub each-Stored :
      (path : List Bool) (t : Item) → IsValid sha path t → All (Stored sha path) (each t)
  unfolding each
  each-Stored path (leaf h bucket) v = v.3
  each-Stored path (inner h l r) v =
      All-append (Stored sha path) (each l) (each r)
        (All-map (Stored sha path) (each l) (Stored-up false path)
          (each-Stored (false ∷ path) l v.1))
        (All-map (Stored sha path) (each r) (Stored-up true path) (each-Stored (true ∷ path) r v.2))
