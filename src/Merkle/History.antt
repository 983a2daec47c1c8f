-- ===== src/Merkle/History.antt =====
-- What the trie for a bucket is, and that it depends on the bucket alone: the trie and its hashes
-- are those of its content, whatever writes led to it.
use diode_server.Base.{
  ℕ, zero, suc, ◌≤◌, ◌≡◌, refl, Bool, true, false, some, List, [], ◌∷◌, ◌++◌, All, length, sym, ◌∙◌,
  arith, Bool-cases, inl, inr, subst, ltb, leb, leb→le, leb→gt, if_true, if_false, if◌then◌else◌,
}
use diode_server.Base.Bytes.{Bytes}
use diode_server.Pairs.{Pair, Sorted, Hashed, leaf_size, make_pair}
use diode_server.Pairs.Gather.{gather, eq_of_lookups, gather-Sorted}
use diode_server.Trie.{Header, Item, leaf, inner, decide, side, get_item}
use diode_server.Merkle.{hashed, join, update_merkle_hash_count}
use diode_server.Trie.Valid.{Stored, IsValid}
use diode_server.Trie.Split.{side-Sorted, Stored-down, map_get-side}
use diode_server.Trie.Content.{
  content, content-Sorted, hashed_of, map_get-gather_left, map_get-gather_right,
}
use diode_server.Merkle.Canon.{joined, Canonical, IsCached, get_item-content}

abbrev larger : ℕ → ℕ → ℕ
larger a b = if leb a b then b else a

-- The levels of a node, itself included.
unfoldable pub height : Item → ℕ
height (leaf h b) = 1
height (inner h l r) = suc (larger (height l) (height r))

height_bound : (a b n : ℕ) → suc (larger a b) ≤ suc n → (a ≤ n) × (b ≤ n)
height_bound a b n h = elim (Bool-cases (leb a b)) [
  | inl e ↦
      let less = leb→le a b e in
      let bound : b ≤ n = ground arith in (omega (arith, less, bound), bound)
  | inr e ↦
      let less = leb→gt a b e in
      let bound : a ≤ n = ground arith in (bound, omega (arith, less, bound))
]

module _ (sha : Bytes → Bytes) where
  header_eq :
      (h k : Header) (b : List Pair)
      → h.prefix ≡ k.prefix
      → h ≡ hashed sha h b
      → k ≡ hashed sha k b
      → h ≡ k
  header_eq h k b e p q = let same : hashed sha h b ≡ hashed sha k b = rw e in p ∙ same ∙ sym q

  -- There is one trie for a bucket at a path.
  pub Canonical-unique :
      (path : List Bool) (xs : List Pair) (t u : Item)
      → Canonical sha path xs t
      → Canonical sha path xs u
      → t ≡ u
  Canonical-unique path xs (leaf h b) (leaf k c) p q =
      let buckets : b ≡ c = p.0 ∙ sym q.0 in
      let headers : h ≡ k = header_eq h k b (p.2 ∙ sym q.2) p.3 (rw buckets q.3) in
      λ i. leaf (headers i) (buckets i)
  Canonical-unique path xs (leaf h b) (inner k l r) p q = absurd (omega (arith, p.1, q.1))
  Canonical-unique path xs (inner h l r) (leaf k c) p q = absurd (omega (arith, p.1, q.1))
  Canonical-unique path xs (inner h l r) (inner k l' r') p q =
      let lefts : l ≡ l' =
        Canonical-unique (false ∷ path) (side true (length path) xs) l l' p.2 q.2 in
      let rights : r ≡ r' =
        Canonical-unique (true ∷ path) (side false (length path) xs) r r' p.3 q.3 in
      let headers : h ≡ k = p.4 ∙ joined_eq lefts rights (p.0 ∙ sym q.0) ∙ sym q.4 in
      λ i. inner (headers i) (lefts i) (rights i)
    where
      joined_eq :
          l ≡ l'
          → r ≡ r'
          → h.prefix ≡ k.prefix
          → joined sha h (length xs) l r ≡ joined sha k (length xs) l' r'
      joined_eq el er e = rw (el, er, e)

  -- The sides of a bucket make the bucket again.
  gather-side :
      (path : List Bool) (xs : List Pair)
      → Sorted xs
      → All (Stored sha path) xs
      → gather [] (side true (length path) xs ++ side false (length path) xs) ≡ xs
  gather-side path xs s a = eq_of_lookups _ xs (gather-Sorted [] (ls ++ rs) tt) s λ key.
      let q : Pair = make_pair sha key [] in
      elim (Bool-cases (decide q (length path))) [
        | inl d ↦
            map_get-gather_left sha path ls rs sl sr al ar q refl d
            ∙ map_get-side (length path) sha q true xs d refl hashes
        | inr d ↦
            map_get-gather_right sha path ls rs sl sr al ar q refl d
            ∙ map_get-side (length path) sha q false xs d refl hashes
      ]
    where
      ls : List Pair
      ls = side true (length path) xs

      rs : List Pair
      rs = side false (length path) xs

      sl : Sorted (side true (length path) xs)
      sl = side-Sorted (length path) true xs s

      sr : Sorted (side false (length path) xs)
      sr = side-Sorted (length path) false xs s

      al : All (Stored sha (false ∷ path)) (side true (length path) xs)
      al = Stored-down sha path (length path) true xs refl a

      ar : All (Stored sha (true ∷ path)) (side false (length path) xs)
      ar = Stored-down sha path (length path) false xs refl a

      hashes : All (Hashed sha) xs
      hashes = hashed_of sha path xs a

  -- The trie for a bucket of stored pairs is valid, holds the bucket, and is clean throughout.
  pub record Holds (path : List Bool) (xs : List Pair) (t : Item) : Type 0 where
    pub valid : IsValid sha path t
    pub holds : content t ≡ xs
    pub cached : IsCached sha path t

  pub Canonical-Holds :
      (path : List Bool) (xs : List Pair) (t : Item)
      → Sorted xs
      → All (Stored sha path) xs
      → Canonical sha path xs t
      → Holds path xs t
  unfolding content
  Canonical-Holds path xs (leaf h b) s a c = record {
    valid = (c.2, rw c.0 s, rw c.0 c.1, rw c.0 a);
    holds = c.0;
    cached = λ _. (refl, rw c.0 c.1, c.2, c.3);
  }
  Canonical-Holds path xs (inner h l r) s a c =
      let hl : Holds (false ∷ path) (side true (length path) xs) l =
        Canonical-Holds (false ∷ path) (side true (length path) xs) l
          (side-Sorted (length path) true xs s) (Stored-down sha path (length path) true xs refl a)
          c.2 in
      let hr : Holds (true ∷ path) (side false (length path) xs) r =
        Canonical-Holds (true ∷ path) (side false (length path) xs) r
          (side-Sorted (length path) false xs s)
          (Stored-down sha path (length path) false xs refl a) c.3 in
      let whole : gather [] (content l ++ content r) ≡ xs =
        rw (hl.holds, hr.holds) (gather-side path xs s a) in
      record {
        valid = (c.0, hl.valid, hr.valid);
        holds = whole;
        cached = (
          λ _. subst (λ ys. Canonical sha path ys (inner h l r)) (sym whole) c,
          hl.cached,
          hr.cached,
        );
      }

  -- With fuel for its levels the update of a valid trie ends.
  pub update_total :
      (fuel : ℕ) (path : List Bool) (t : Item)
      → height t ≤ fuel
      → IsValid sha path t
      → (t' : Item) × (update_merkle_hash_count sha fuel t ≡ some t')
  unfolding update_merkle_hash_count height
  update_total zero path (leaf h b) enough v = absurd (omega arith)
  update_total zero path (inner h l r) enough v = absurd (omega arith)
  update_total (suc fuel) path (leaf h b) enough v = elim (Bool-cases h.dirty) [
    | inl d ↦ (leaf (hashed sha h b) b, if_true _ _ d ∙ if_false _ _ (not_less v.2))
    | inr d ↦ (leaf h b, if_false _ _ d)
  ]
    where
      not_less : length b ≤ leaf_size → ltb leaf_size (length b) ≡ false
      not_less h = ground arith
  update_total (suc fuel) path (inner h l r) enough v = elim (Bool-cases h.dirty) [
    | inl d ↦
        let (on_left, on_right) = height_bound (height l) (height r) fuel enough in
        let (l', run_l) = update_total fuel (false ∷ path) l on_left v.1 in
        let (r', run_r) = update_total fuel (true ∷ path) r on_right v.2 in
        (join sha h l' r', if_true _ _ d ∙ rw (run_l, run_r))
    | inr d ↦ (inner h l r, if_false _ _ d)
  ]

  -- Two valid tries at a path in which every lookup gives the same have one content.
  pub content_eq :
      (path : List Bool) (t u : Item)
      → IsValid sha path t
      → IsValid sha path u
      → ((key : Bytes) → get_item t (make_pair sha key []) ≡ get_item u (make_pair sha key []))
      → content t ≡ content u
  content_eq path t u v w same =
      eq_of_lookups (content t) (content u) (content-Sorted sha path t v)
        (content-Sorted sha path u w)
        λ key.
          sym (get_item-content sha path t (make_pair sha key []) v refl)
          ∙ same key
          ∙ get_item-content sha path u (make_pair sha key []) w refl
