-- ===== src/Merkle/Canon.antt =====
-- The one trie that holds a bucket with all its hashes up to date, and the invariant that a clean
-- node is that trie: what `update_merkle_hash_count` computes and what it relies on.
use diode_server.Base.{
  ℕ, zero, suc, ◌+◌, ◌≤◌, ◌<◌, ◌≡◌, refl, Bool, true, false, some, List, [], ◌∷◌, ◌++◌, All, length,
  sym, ap, ◌∙◌, arith, Bool-cases, inl, inr, subst, ltb, leb, leb→le, leb→gt, >>=-eq-some,
  eq_of_some, if_true, if_false,
}
use diode_server.Base.Bytes.{Bytes}
use diode_server.Pairs.{Pair, Sorted, Hashed, leaf_size, map_get}
use diode_server.Pairs.Gather.{gather}
use diode_server.Trie.{Header, Item, leaf, inner, decide, side, get_bucket, get_item, header, each}
use diode_server.Merkle.{hashed, hashes, join_hashes, join, update_merkle_hash_count}
use diode_server.Trie.Valid.{prefix_of, Stored, IsValid, size-prefix_of}
use diode_server.Trie.Content.{
  content, content-Sorted, content-Stored, map_get-gather_left, map_get-gather_right, side_left,
  side_right, length-gather,
}

module _ (sha : Bytes → Bytes) where
  -- The header that an inner node has once its children are up to date.
  abbrev pub joined : Header → ℕ → Item → Item → Header
  joined h count l r = record h {
    dirty = false;
    hash_count = count;
    hash_values = some (join_hashes sha (hashes l) (hashes r));
  }

  -- The trie for the bucket at the path: a leaf up to `leaf_size` pairs, else a node over the two
  -- sides of the bucket.
  abbrev pub Canonical : List Bool → List Pair → Item → Type 0
  Canonical path xs (leaf h b) =
      (b ≡ xs) × (length xs ≤ leaf_size) × (h.prefix ≡ prefix_of path) × (h ≡ hashed sha h b)
  Canonical path xs (inner h l r) =
      (h.prefix ≡ prefix_of path)
      × (leaf_size < length xs)
      × Canonical (false ∷ path) (side true (length path) xs) l
      × Canonical (true ∷ path) (side false (length path) xs) r
      × (h ≡ joined h (length xs) l r)

  -- A clean node is up to date.
  abbrev pub IsCached : List Bool → Item → Type 0
  IsCached path (leaf h b) = h.dirty ≡ false → Canonical path b (leaf h b)
  IsCached path (inner h l r) =
      (h.dirty ≡ false → Canonical path (content (inner h l r)) (inner h l r))
      × IsCached (false ∷ path) l
      × IsCached (true ∷ path) r

  pub get_item-content :
      (path : List Bool) (t : Item) (q : Pair)
      → IsValid sha path t
      → Hashed sha q
      → get_item t q ≡ map_get (content t) q.key
  unfolding get_item get_bucket content
  get_item-content path (leaf h b) q v hq = refl
  get_item-content path (inner h l r) q v hq = elim (Bool-cases (decide q h.prefix.size)) [
    | inl d ↦ rw d (
        get_item-content (false ∷ path) l q v.1 hq
        ∙ sym
            (map_get-gather_left sha path (content l) (content r) sl sr al ar q hq (rw depth at d)))
    | inr d ↦ rw d (
        get_item-content (true ∷ path) r q v.2 hq
        ∙ sym (
            map_get-gather_right sha path (content l) (content r) sl sr al ar q hq (rw depth at d)))
  ]
    where
      depth : h.prefix.size ≡ length path
      depth = ap (λ b. b.size) v.0 ∙ size-prefix_of path

      sl : Sorted (content l)
      sl = content-Sorted sha (false ∷ path) l v.1

      sr : Sorted (content r)
      sr = content-Sorted sha (true ∷ path) r v.2

      al : All (Stored sha (false ∷ path)) (content l)
      al = content-Stored sha (false ∷ path) l v.1

      ar : All (Stored sha (true ∷ path)) (content r)
      ar = content-Stored sha (true ∷ path) r v.2

  hash_count-Canonical :
      (path : List Bool) (xs : List Pair) (t : Item)
      → Canonical path xs t
      → (header t).hash_count ≡ length xs
  hash_count-Canonical path xs (leaf h b) c = ap (λ h. h.hash_count) c.3 ∙ ap length c.0
  hash_count-Canonical path xs (inner h l r) c = ap (λ h. h.hash_count) c.4

  each-Canonical :
      (path : List Bool) (xs : List Pair) (t : Item)
      → Canonical path xs t
      → length xs ≤ leaf_size
      → each t ≡ xs
  unfolding each
  each-Canonical path xs (leaf h b) c small = c.0
  each-Canonical path xs (inner h l r) c small = absurd (omega (arith, c.1))

  -- The branch for inner nodes gives the trie of the two buckets together.
  pub join-Canonical :
      (path : List Bool) (h : Header) (xs ys : List Pair) (l r : Item)
      → h.prefix ≡ prefix_of path
      → Sorted xs
      → Sorted ys
      → All (Stored sha (false ∷ path)) xs
      → All (Stored sha (true ∷ path)) ys
      → Canonical (false ∷ path) xs l
      → Canonical (true ∷ path) ys r
      → Canonical path (gather [] (xs ++ ys)) (join sha h l r)
  unfolding join
  join-Canonical path h xs ys l r e sx sy ax ay cl cr =
      elim (Bool-cases (leb ((header l).hash_count + (header r).hash_count) leaf_size)) [
        | inl small ↦
            let few = leb→le _ _ small in
            let el : each l ≡ xs =
              each-Canonical (false ∷ path) xs l cl (omega (arith, few, nl, nr)) in
            let er : each r ≡ ys =
              each-Canonical (true ∷ path) ys r cr (omega (arith, few, nl, nr)) in
            let total : (header l).hash_count + (header r).hash_count
                ≡ length (gather [] (each l ++ each r)) =
              rw (el, er) (omega (arith, nl, nr, whole)) in
            rw (small, total) (rw (el, er) (refl, omega (arith, few, nl, nr, whole), e, refl))
        | inr large ↦
            let many = leb→gt _ _ large in
            let total : (header l).hash_count + (header r).hash_count
                ≡ length (gather [] (xs ++ ys)) =
              omega (arith, nl, nr, whole) in
            rw (large, total)
              (
                e,
                omega (arith, many, nl, nr, whole),
                rw (side_left sha path xs ys sx sy ax ay) cl,
                rw (side_right sha path xs ys sx sy ax ay) cr,
                refl,
              )
      ]
    where
      nl : (header l).hash_count ≡ length xs
      nl = hash_count-Canonical (false ∷ path) xs l cl

      nr : (header r).hash_count ≡ length ys
      nr = hash_count-Canonical (true ∷ path) ys r cr

      whole : length (gather [] (xs ++ ys)) ≡ length xs + length ys
      whole = length-gather sha path xs ys sx sy ax ay

  -- `update_merkle_hash_count` brings a valid trie into the form that its content determines.
  pub update-Canonical :
      (fuel : ℕ) (path : List Bool) (t t' : Item)
      → IsValid sha path t
      → IsCached path t
      → update_merkle_hash_count sha fuel t ≡ some t'
      → Canonical path (content t) t'
  unfolding update_merkle_hash_count content
  update-Canonical zero path t t' v c run = cc
  update-Canonical (suc fuel) path (leaf h b) t' v c run = elim (Bool-cases h.dirty) [
    | inl d ↦
        let small : ltb leaf_size (length b) ≡ false = not_less (v.2) in
        subst (Canonical path b) (eq_of_some (sym (if_false _ _ small) ∙ sym (if_true _ _ d) ∙ run))
          (refl, v.2, v.0, refl)
    | inr d ↦ subst (Canonical path b) (eq_of_some (sym (if_false _ _ d) ∙ run)) (c d)
  ]
    where
      not_less : length b ≤ leaf_size → ltb leaf_size (length b) ≡ false
      not_less h = ground arith
  update-Canonical (suc fuel) path (inner h l r) t' v c run = elim (Bool-cases h.dirty) [
    | inl d ↦
        let (l', run_l, rest) = >>=-eq-some _ _ (sym (if_true _ _ d) ∙ run) in
        let (r', run_r, last) = >>=-eq-some _ _ rest in
        subst (Canonical path (content (inner h l r))) (eq_of_some last) (
          join-Canonical path h (content l) (content r) l' r' v.0
            (content-Sorted sha (false ∷ path) l v.1) (content-Sorted sha (true ∷ path) r v.2)
            (content-Stored sha (false ∷ path) l v.1) (content-Stored sha (true ∷ path) r v.2)
            (update-Canonical fuel (false ∷ path) l l' v.1 c.1 run_l)
            (update-Canonical fuel (true ∷ path) r r' v.2 c.2 run_r))
    | inr d ↦
        subst (Canonical path (content (inner h l r))) (eq_of_some (sym (if_false _ _ d) ∙ run))
          (c.0 d)
  ]
