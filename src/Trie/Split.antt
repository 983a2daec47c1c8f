-- ===== src/Trie/Split.antt =====
-- `split_node`: what the node it returns holds, and when it returns one.
use diode_server.Base.{
  ℕ, zero, suc, ◌+◌, ◌≤◌, ◌≡◌, refl, Bool, true, false, not, List, [], ◌∷◌, All, length, ◌≢◌, ap,
  subst, ◌∙◌, arith, some, Bool-cases, inl, inr, leb, leb→le, >>=-eq-some, eq_of_some,
}
use diode_server.Base.Bytes.{Bytes, bin_eq, bin_lt, bin_eq_sound}
use diode_server.Bits.{Bits, push_back}
use diode_server.Pairs.{Pair, Sorted, Hashed, leaf_size, map_get}
use diode_server.Trie.{
  Header, Item, leaf, inner, agrees, decide, side, split_node, get_bucket, get_item, fresh,
}
use diode_server.Trie.Valid.{
  push_back-with_bit, with_bit, prefix_of, Stored, IsValid, size-prefix_of, All-side, All-map,
}

-- Pairs with one key have one hash, and go the same way.
pub decide_congr :
    (sha : Bytes → Bytes) (p q : Pair) (n : ℕ)
    → Hashed sha p
    → Hashed sha q
    → p.key ≡ q.key
    → decide p n ≡ decide q n
unfolding decide
decide_congr sha p q n hp hq e = rw (hp, hq, e)

agrees_sound : (a b : Bool) → agrees a b ≡ true → b ≡ a
agrees_sound true b h = h
agrees_sound false b h = ground arith

agrees_complete : (a b : Bool) → agrees a b ≡ false → b ≢ a
agrees_complete true b h = λ e. cc
agrees_complete false b h = λ e. ground arith

module _ (n : ℕ) where
  pub side-Sorted : (left : Bool) (xs : List Pair) → Sorted xs → Sorted (side left n xs)
  unfolding side
  side-Sorted left [] s = tt
  side-Sorted left (x ∷ xs) (a, s) = elim (Bool-cases (agrees left (decide x n))) [
    | inl e ↦ rw e (All-side (λ r. bin_lt x.key r.key ≡ true) left n xs a, side-Sorted left xs s)
    | inr e ↦ rw e (side-Sorted left xs s)
  ]

  -- Every pair of a side went there.
  pub side-decide : (left : Bool) (xs : List Pair) → All (λ p. decide p n ≡ left) (side left n xs)
  unfolding side
  side-decide left [] = tt
  side-decide left (x ∷ xs) = elim (Bool-cases (agrees left (decide x n))) [
    | inl e ↦ rw e (agrees_sound left (decide x n) e, side-decide left xs)
    | inr e ↦ rw e (side-decide left xs)
  ]

  pub length-side :
      (xs : List Pair) → length (side true n xs) + length (side false n xs) ≡ length xs
  unfolding side
  length-side [] = omega arith
  length-side (x ∷ xs) = ground (arith, length-side xs)

  -- A key is found on the side that its hash goes to.
  pub map_get-side :
      (sha : Bytes → Bytes) (q : Pair) (left : Bool) (xs : List Pair)
      → decide q n ≡ left
      → Hashed sha q
      → All (Hashed sha) xs
      → map_get (side left n xs) q.key ≡ map_get xs q.key
  unfolding side map_get
  map_get-side sha q left [] d hq a = refl
  map_get-side sha q left (x ∷ xs) d hq (hx, a) = elim (Bool-cases (agrees left (decide x n))) [
    | inl e ↦ rw (e, map_get-side sha q left xs d hq a)
    | inr e ↦
        rw (e, map_get-side sha q left xs d hq a)
          (elim (Bool-cases (bin_eq x.key q.key)) [
            | inl same ↦
                let c : decide x n ≡ decide q n =
                  decide_congr sha x q n hx hq (bin_eq_sound x.key q.key same) in
                absurd (agrees_complete left (decide x n) e (c ∙ d))
            | inr other ↦ rw other
          ])
  ]

module _ (sha : Bytes → Bytes) where
  pub Stored-down :
      (path : List Bool) (n : ℕ) (left : Bool) (xs : List Pair)
      → n ≡ length path
      → All (Stored sha path) xs
      → All (Stored sha (not left ∷ path)) (side left n xs)
  unfolding side
  Stored-down path n left [] e a = tt
  Stored-down path n left (x ∷ xs) e (s, a) = elim (Bool-cases (agrees left (decide x n))) [
    | inl c ↦
        let went : decide x (length path) ≡ not (not left) =
          rw (← e) (agrees_sound left (decide x n) c ∙ not_not left) in
        let down : Stored sha (not left ∷ path) x = record {
          hashed = s.hashed;
          under = (went, s.under);
          live = s.live;
        } in
        rw c (down, Stored-down path n left xs e a)
    | inr c ↦ rw c (Stored-down path n left xs e a)
  ]
    where
      not_not : (b : Bool) → b ≡ not (not b)
      not_not b = ground arith

  -- What `split_node` returns for a bucket of pairs that belong below the path: a valid node in
  -- which a lookup finds what it finds in the bucket.
  pub record Splits (path : List Bool) (bucket : List Pair) (t : Item) : Type 0 where
    pub valid : IsValid sha path t
    pub finds : (q : Pair) → Hashed sha q → get_item t q ≡ map_get bucket q.key

  join-Splits :
      (path : List Bool) (h : Header) (bucket : List Pair) (l r : Item)
      → h.prefix ≡ prefix_of path
      → All (Stored sha path) bucket
      → Splits (false ∷ path) (side true h.prefix.size bucket) l
      → Splits (true ∷ path) (side false h.prefix.size bucket) r
      → Splits path bucket (inner (record h { dirty = true }) l r)
  unfolding get_item
  join-Splits path h bucket l r e a sl sr = record {
    valid = (e, sl.valid, sr.valid);
    finds = λ q hq.
        let hashed : All (Hashed sha) bucket =
          All-map (Hashed sha) bucket (λ p (s : Stored sha path p). s.hashed) a in
        elim (Bool-cases (decide q h.prefix.size)) [
          | inl d ↦
              rw (d, get_bucket)
                (sl.finds q hq ∙ map_get-side h.prefix.size sha q true bucket d hq hashed)
          | inr d ↦
              rw (d, get_bucket)
                (sr.finds q hq ∙ map_get-side h.prefix.size sha q false bucket d hq hashed)
        ];
  }

  pub split_node-Splits :
      (fuel : ℕ) (path : List Bool) (h : Header) (bucket : List Pair) (t : Item)
      → h.prefix ≡ prefix_of path
      → Sorted bucket
      → All (Stored sha path) bucket
      → split_node fuel h bucket ≡ some t
      → Splits path bucket t
  unfolding split_node prefix_of get_item get_bucket
  split_node-Splits zero path h bucket t e s a run = cc
  split_node-Splits (suc fuel) path h bucket t e s a run =
      elim (Bool-cases (leb (length bucket) leaf_size)) [
        | inl small ↦
            let same : leaf h bucket ≡ t = eq_of_some (rw small at run) in
            subst (Splits path bucket) same (kept (leb→le (length bucket) leaf_size small))
        | inr large ↦
            let (to_left, push_l, rest₁) = >>=-eq-some _ _ (rw large at run) in
            let (to_right, push_r, rest₂) = >>=-eq-some _ _ rest₁ in
            let (l, run_l, rest) = >>=-eq-some _ _ rest₂ in
            let (r, run_r, last) = >>=-eq-some _ _ rest in
            subst (Splits path bucket) (eq_of_some last) (
              join-Splits path h bucket l r e a
                (split_node-Splits fuel (false ∷ path) (fresh to_left) (side true n bucket) l
                  (below to_left false push_l) (side-Sorted n true bucket s)
                  (Stored-down path n true bucket depth a) run_l)
                (split_node-Splits fuel (true ∷ path) (fresh to_right) (side false n bucket) r
                  (below to_right true push_r) (side-Sorted n false bucket s)
                  (Stored-down path n false bucket depth a) run_r))
      ]
    where
      n : ℕ
      n = h.prefix.size

      depth : h.prefix.size ≡ length path
      depth = ap (λ b. b.size) e ∙ size-prefix_of path

      below : (p : Bits) (b : Bool) → push_back h.prefix b ≡ some p → p ≡ prefix_of (b ∷ path)
      below p b pushed = push_back-with_bit h.prefix p b pushed ∙ ap (λ q. with_bit q b) e

      kept : length bucket ≤ leaf_size → Splits path bucket (leaf h bucket)
      kept small = record { valid = (e, s, small, a); finds = λ q hq. refl }
