-- ===== src/Trie/Total.antt =====
-- `split_node` ends within the room of a prefix: where the first 128 bits of the hashes tell the pairs
-- of the bucket apart.
use diode_server.Base.{
  ℕ, zero, suc, ◌-◌, ◌≤◌, ◌<◌, ◌≡◌, Bool, true, false, not, some, List, [], ◌∷◌, All, length, sym,
  ap, refl, ◌∙◌, arith, leb, leb→gt, Bool-cases, inl, inr,
}
use native.Mathlib.Decide.{ℕ_discrete, dec_lt}
use diode_server.Bits.{push_back}
use diode_server.Pairs.{Pair, leaf_size}
use diode_server.Trie.{Header, Item, inner, leaf, agrees, decide, side, split_node, fresh}
use diode_server.Trie.Valid.{prefix_of, Under, size-prefix_of, push_back-prefix_of, All-side}

-- The hashes of two pairs begin with the same 128 bits, as many as a prefix has room for.
abbrev pub SameBits : Pair → Pair → Type 0
SameBits p q = (i : ℕ) → i < 128 → decide p i ≡ decide q i

-- The hashes of no two pairs of the bucket do.
abbrev pub Apart : List Pair → Type 0
Apart [] = Unit
Apart (q ∷ m) = All (λ (r : Pair). ¬ SameBits q r) m × Apart m

Under-decide :
    (path : List Bool) (p q : Pair) (i : ℕ)
    → Under path p
    → Under path q
    → i < length path
    → decide p i ≡ decide q i
Under-decide [] p q i a b h = absurd (omega arith)
Under-decide (c ∷ path) p q i a b h = elim (ℕ_discrete i (length path)) [
  | yes e ↦ rw e (a.0 ∙ sym b.0)
  | no e ↦ Under-decide path p q i a.1 b.1 (omega arith)
]

length-le-one :
    (path : List Bool) (bucket : List Pair)
    → All (Under path) bucket
    → Apart bucket
    → 128 ≤ length path
    → length bucket ≤ 1
length-le-one path [] u a deep = omega arith
length-le-one path (p ∷ []) u a deep = omega arith
length-le-one path (p ∷ q ∷ m) (up, (uq, u)) ((ne, a), b) deep =
    absurd (ne (λ i h. Under-decide path p q i up uq (omega arith)))

side-Apart : (left : Bool) (n : ℕ) (xs : List Pair) → Apart xs → Apart (side left n xs)
unfolding side
side-Apart left n [] a = tt
side-Apart left n (x ∷ xs) (ne, a) = elim (Bool-cases (agrees left (decide x n))) [
  | inl e ↦ rw e (All-side (λ r. ¬ SameBits x r) left n xs ne, side-Apart left n xs a)
  | inr e ↦ rw e (side-Apart left n xs a)
]

side-Under :
    (path : List Bool) (n : ℕ) (left : Bool) (xs : List Pair)
    → n ≡ length path
    → All (Under path) xs
    → All (Under (not left ∷ path)) (side left n xs)
unfolding side
side-Under path n left [] e a = tt
side-Under path n left (x ∷ xs) e (u, a) = elim (Bool-cases (agrees left (decide x n))) [
  | inl c ↦ rw c ((rw (← e) (went left (decide x n) c), u), side-Under path n left xs e a)
  | inr c ↦ rw c (side-Under path n left xs e a)
]
  where
    went : (a b : Bool) → agrees a b ≡ true → b ≡ not (not a)
    went a b h = ground arith

bounded :
    (path : List Bool) (bucket : List Pair)
    → All (Under path) bucket
    → Apart bucket
    → leaf_size < length bucket
    → length path < 128
bounded path bucket u a crowded = elim (dec_lt (length path) 128) [
  | yes h ↦ h
  | no h ↦ absurd (omega (arith, length-le-one path bucket u a (omega arith)))
]

-- With fuel for every bit that is left `split_node` returns a node.
pub split_node_total :
    (fuel : ℕ) (path : List Bool) (h : Header) (bucket : List Pair)
    → h.prefix ≡ prefix_of path
    → All (Under path) bucket
    → Apart bucket
    → 128 - length path < fuel
    → (t : Item) × (split_node fuel h bucket ≡ some t)
unfolding split_node
split_node_total zero path h bucket e u a enough = absurd (omega arith)
split_node_total (suc fuel) path h bucket e u a enough =
    elim (Bool-cases (leb (length bucket) leaf_size)) [
      | inl small ↦ (leaf h bucket, rw small)
      | inr large ↦
          let n = h.prefix.size in
          let depth : n ≡ length path = ap (λ b. b.size) e ∙ size-prefix_of path in
          let crowded : leaf_size < length bucket = leb→gt (length bucket) leaf_size large in
          let shallow : length path < 128 = bounded path bucket u a crowded in
          let push_l = ap (λ b. push_back b false) e ∙ push_back-prefix_of path false shallow in
          let push_r = ap (λ b. push_back b true) e ∙ push_back-prefix_of path true shallow in
          let (l, run_l) =
            split_node_total fuel (false ∷ path) (fresh (prefix_of (false ∷ path)))
              (side true n bucket) refl (side-Under path n true bucket depth u)
              (side-Apart true n bucket a) (omega arith) in
          let (r, run_r) =
            split_node_total fuel (true ∷ path) (fresh (prefix_of (true ∷ path)))
              (side false n bucket) refl (side-Under path n false bucket depth u)
              (side-Apart false n bucket a) (omega arith) in
          (inner (record h { dirty = true }) l r, rw (large, push_l, push_r, run_l, run_r))
    ]
