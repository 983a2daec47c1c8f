-- ===== src/Trie/Content.antt =====
-- The content of a trie: its pairs as one ascending bucket.
use diode_server.Base.{
  ℕ, ◌+◌, ◌≡◌, refl, Bool, true, false, not, Option, none, some, List, [], ◌∷◌, ◌++◌, All, length,
  sym, ap, ◌∙◌, arith, Bool-cases, inl, inr,
}
use diode_server.Base.Bytes.{Bytes, bin_eq, bin_eq_sound}
use diode_server.Pairs.{Pair, Sorted, Hashed, map_get, make_pair}
use diode_server.Pairs.Lookup.{replaced}
use diode_server.Pairs.Gather.{
  gather, eq_of_lookups, or_in, All-gather, gather-Sorted, gather-append, Hashed-value,
  map_get-gather,
}
use diode_server.Trie.{Item, leaf, inner, decide, side}
use diode_server.Trie.Valid.{Stored, IsValid, All-append, All-map, All-side, Stored-up}
use diode_server.Trie.Split.{decide_congr, side-Sorted, side-decide, length-side, map_get-side}

unfoldable pub content : Item → List Pair
content (leaf h bucket) = bucket
content (inner h l r) = gather [] (content l ++ content r)

module _ (sha : Bytes → Bytes) where
  Stored-value :
      (path : List Bool) (q p : Pair)
      → Stored sha path q
      → Stored sha path p
      → q.key ≡ p.key
      → Stored sha path (record q { value = p.value })
  Stored-value path q p sq sp e = rw (replaced q p e (sq.hashed ∙ ap sha e ∙ sym sp.hashed)) sp

  pub hashed_of :
      (path : List Bool) (xs : List Pair) → All (Stored sha path) xs → All (Hashed sha) xs
  hashed_of path xs a = All-map (Hashed sha) xs (λ p (s : Stored sha path p). s.hashed) a

  -- The two buckets below a node, as one.
  pub Stored-gather :
      (path : List Bool) (xs ys : List Pair)
      → All (Stored sha (false ∷ path)) xs
      → All (Stored sha (true ∷ path)) ys
      → All (Stored sha path) (gather [] (xs ++ ys))
  Stored-gather path xs ys a b = All-gather (Stored sha path) [] (xs ++ ys) (Stored-value path) tt (
      All-append (Stored sha path) xs ys (All-map (Stored sha path) xs (Stored-up sha false path) a)
        (All-map (Stored sha path) ys (Stored-up sha true path) b))

  pub content-Sorted : (path : List Bool) (t : Item) → IsValid sha path t → Sorted (content t)
  unfolding content
  content-Sorted path (leaf h b) v = v.1
  content-Sorted path (inner h l r) v = gather-Sorted [] (content l ++ content r) tt

  pub content-Stored :
      (path : List Bool) (t : Item) → IsValid sha path t → All (Stored sha path) (content t)
  unfolding content
  content-Stored path (leaf h b) v = v.3
  content-Stored path (inner h l r) v =
      Stored-gather path (content l) (content r) (content-Stored (false ∷ path) l v.1)
        (content-Stored (true ∷ path) r v.2)

  -- A key whose hash goes the other way is in no bucket of the side.
  pub map_get-other_side :
      (n : ℕ) (q : Pair) (left : Bool) (xs : List Pair)
      → Hashed sha q
      → All (Hashed sha) xs
      → All (λ p. decide p n ≡ left) xs
      → decide q n ≡ not left
      → map_get xs q.key ≡ none
  unfolding map_get
  map_get-other_side n q left [] hq h a d = refl
  map_get-other_side n q left (x ∷ xs) hq (hx, h) (ax, a) d =
      elim (Bool-cases (bin_eq x.key q.key)) [
        | inl e ↦
            let same : decide x n ≡ decide q n =
              decide_congr sha x q n hx hq (bin_eq_sound x.key q.key e) in
            absurd (differ left (sym ax ∙ same ∙ d))
        | inr e ↦ rw e (map_get-other_side n q left xs hq h a d)
      ]
    where
      differ : (b : Bool) → b ≡ not b → ⊥
      differ b e = ground arith

  module _ (path : List Bool) (xs ys : List Pair) (sx : Sorted xs) (sy : Sorted ys)
      (ax : All (Stored sha (false ∷ path)) xs) (ay : All (Stored sha (true ∷ path)) ys) where
    went_left : All (λ p. decide p (length path) ≡ true) xs
    went_left =
        All-map (λ p. decide p (length path) ≡ true) xs
          (λ p (s : Stored sha (false ∷ path) p). s.under.0) ax

    went_right : All (λ p. decide p (length path) ≡ false) ys
    went_right =
        All-map (λ p. decide p (length path) ≡ false) ys
          (λ p (s : Stored sha (true ∷ path) p). s.under.0) ay

    both :
        (key : Bytes) → map_get (gather [] (xs ++ ys)) key ≡ or_in (map_get ys key) (map_get xs key)
    both key = rw (gather-append [] xs ys) (
        map_get-gather sha (gather [] xs) ys key (gather-Sorted [] xs tt) sy
          (All-gather (Hashed sha) [] xs (Hashed-value sha) tt (hashed_of (false ∷ path) xs ax))
          (hashed_of (true ∷ path) ys ay)
        ∙ ap (or_in (map_get ys key)) (
            map_get-gather sha [] xs key tt sx tt (hashed_of (false ∷ path) xs ax)
            ∙ or_none (map_get xs key)))
      where
        or_none : (o : Option Pair) → or_in o (map_get [] key) ≡ o
        or_none none = unfold map_get in refl
        or_none (some p) = refl

    -- A key is looked up in the bucket of its side.
    pub map_get-gather_left :
        (q : Pair)
        → Hashed sha q
        → decide q (length path) ≡ true
        → map_get (gather [] (xs ++ ys)) q.key ≡ map_get xs q.key
    map_get-gather_left q hq d =
        let miss : map_get ys q.key ≡ none =
          map_get-other_side (length path) q false ys hq (hashed_of (true ∷ path) ys ay) went_right
            d in
        both q.key ∙ rw miss refl

    pub map_get-gather_right :
        (q : Pair)
        → Hashed sha q
        → decide q (length path) ≡ false
        → map_get (gather [] (xs ++ ys)) q.key ≡ map_get ys q.key
    map_get-gather_right q hq d =
        let miss : map_get xs q.key ≡ none =
          map_get-other_side (length path) q true xs hq (hashed_of (false ∷ path) xs ax) went_left
            d in
        both q.key ∙ rw miss (or_same (map_get ys q.key))
      where
        or_same : (o : Option Pair) → or_in o none ≡ o
        or_same none = refl
        or_same (some p) = refl

    hashed_both : All (Hashed sha) (gather [] (xs ++ ys))
    hashed_both = hashed_of path (gather [] (xs ++ ys)) (Stored-gather path xs ys ax ay)

    -- `decide` parts the one bucket into the two again.
    pub side_left : side true (length path) (gather [] (xs ++ ys)) ≡ xs
    side_left =
        eq_of_lookups _ xs (side-Sorted (length path) true _ (gather-Sorted [] (xs ++ ys) tt)) sx
          λ key.
            let q : Pair = make_pair sha key [] in
            elim (Bool-cases (decide q (length path))) [
              | inl d ↦
                  map_get-side (length path) sha q true _ d refl hashed_both
                  ∙ map_get-gather_left q refl d
              | inr d ↦
                  map_get-other_side (length path) q true _ refl
                    (All-side (Hashed sha) true (length path) _ hashed_both)
                    (side-decide (length path) true (gather [] (xs ++ ys))) d
                  ∙ sym (
                      map_get-other_side (length path) q true xs refl
                        (hashed_of (false ∷ path) xs ax) went_left d)
            ]

    pub side_right : side false (length path) (gather [] (xs ++ ys)) ≡ ys
    side_right =
        eq_of_lookups _ ys (side-Sorted (length path) false _ (gather-Sorted [] (xs ++ ys) tt)) sy
          λ key.
            let q : Pair = make_pair sha key [] in
            elim (Bool-cases (decide q (length path))) [
              | inl d ↦
                  map_get-other_side (length path) q false _ refl
                    (All-side (Hashed sha) false (length path) _ hashed_both)
                    (side-decide (length path) false (gather [] (xs ++ ys))) d
                  ∙ sym (
                      map_get-other_side (length path) q false ys refl
                        (hashed_of (true ∷ path) ys ay) went_right d)
              | inr d ↦
                  map_get-side (length path) sha q false _ d refl hashed_both
                  ∙ map_get-gather_right q refl d
            ]

    pub length-gather : length (gather [] (xs ++ ys)) ≡ length xs + length ys
    length-gather =
        let whole = length-side (length path) (gather [] (xs ++ ys)) in
        omega (arith, whole, ap length side_left, ap length side_right)
