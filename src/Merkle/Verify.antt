-- ===== src/Merkle/Verify.antt =====
-- Merkle proofs: what `get_proofs` returns hashes to the root's hash of its leaf index, and the
-- term in it is that of the leaf that the key belongs to.
use diode_server.Base.{
  ℕ, zero, suc, ◌+◌, ◌<◌, ◌≡◌, refl, Bool, true, false, Option, none, some, List, [], ◌∷◌, sym, ap,
  ◌∙◌, arith, Bool-cases, inl, inr, subst, length, get_or, >>=-eq-some, eq_of_some, if_true,
  if_false, replicate,
}
use diode_server.Base.Bytes.{Bytes}
use diode_server.Bits.{Bits}
use diode_server.Pairs.{Pair, make_pair, leaf_size}
use diode_server.Erl.{leaf_to_erl_ext}
use diode_server.Trie.{Header, Item, leaf, inner, decide, side, get_bucket}
use diode_server.Merkle.{
  Proof, branch, hash, term, do_get_proofs, get_proofs, hashes, hash_to_leafindex, bucket_to_leaf,
  bucket_to_leafes, leaf_hashes_from, signature, signature_leaf, join_hashes,
  update_merkle_hash_count,
}
use diode_server.Merkle.Canon.{Canonical, update-Canonical}
use diode_server.Merkle.Store.{IsTree}
use diode_server.Trie.Content.{content}

module _ (sha : Bytes → Bytes) where
  -- What a verifier computes from a proof.
  unfoldable pub proof_hash : Proof → Bytes
  proof_hash (branch l r) = signature sha (proof_hash l) (proof_hash r)
  proof_hash (hash digest) = digest
  proof_hash (term t) = sha t

  -- The leaf term in a proof.
  unfoldable pub proof_term : Proof → Option Bytes
  proof_term (branch l r) = elim (proof_term l) [ none ↦ proof_term r | some t ↦ some t ]
  proof_term (hash digest) = none
  proof_term (term t) = some t

  get_or-leaf_hashes_from :
      (count i j : ℕ) (prefix : Bits) (b : List Pair)
      → j < count
      → get_or (leaf_hashes_from sha count i prefix b) j []
        ≡ signature_leaf sha (i + j) prefix (bucket_to_leaf (i + j) b)
  unfolding leaf_hashes_from
  get_or-leaf_hashes_from zero i j prefix b h = absurd (omega arith)
  get_or-leaf_hashes_from (suc count) i zero prefix b h =
      let here : i + 0 ≡ i = omega arith in rw here
  get_or-leaf_hashes_from (suc count) i (suc j) prefix b h =
      let next : i + suc j ≡ i + 1 + j = omega arith in
      rw next (get_or-leaf_hashes_from count (i + 1) j prefix b (omega arith))

  length-leaf_hashes_from :
      (count i : ℕ) (prefix : Bits) (b : List Pair)
      → length (leaf_hashes_from sha count i prefix b) ≡ count
  unfolding leaf_hashes_from
  length-leaf_hashes_from zero i prefix b = refl
  length-leaf_hashes_from (suc count) i prefix b =
      ap suc (length-leaf_hashes_from count (i + 1) prefix b)

  length-join_hashes :
      (xs ys : List Bytes) → length xs ≡ length ys → length (join_hashes sha xs ys) ≡ length xs
  unfolding join_hashes
  length-join_hashes [] ys e = refl
  length-join_hashes (x ∷ xs) [] e = absurd (omega arith)
  length-join_hashes (x ∷ xs) (y ∷ ys) e = ap suc (length-join_hashes xs ys (omega arith))

  get_or-join_hashes :
      (xs ys : List Bytes) (j : ℕ)
      → length xs ≡ length ys
      → j < length xs
      → get_or (join_hashes sha xs ys) j [] ≡ signature sha (get_or xs j []) (get_or ys j [])
  unfolding join_hashes
  get_or-join_hashes [] ys j e h = absurd (omega arith)
  get_or-join_hashes (x ∷ xs) [] j e h = absurd (omega arith)
  get_or-join_hashes (x ∷ xs) (y ∷ ys) zero e h = refl
  get_or-join_hashes (x ∷ xs) (y ∷ ys) (suc j) e h =
      get_or-join_hashes xs ys j (omega arith) (omega arith)

  -- A trie that is up to date has the hashes of its leaf, or those of its children joined.
  length-hashes :
      (path : List Bool) (xs : List Pair) (t : Item)
      → Canonical sha path xs t
      → length (hashes t) ≡ leaf_size
  unfolding hashes bucket_to_leafes
  length-hashes path xs (leaf h b) c = rw c.3 (length-leaf_hashes_from leaf_size 0 h.prefix b)
  length-hashes path xs (inner h l r) c =
      let nl = length-hashes (false ∷ path) (side true (length path) xs) l c.2 in
      let nr = length-hashes (true ∷ path) (side false (length path) xs) r c.3 in
      rw c.4 (length-join_hashes (hashes l) (hashes r) (nl ∙ sym nr) ∙ nl)

  -- An update of a trie that is up to date changes nothing.
  update-Canonical_self :
      (fuel : ℕ) (path : List Bool) (xs : List Pair) (t t' : Item)
      → Canonical sha path xs t
      → update_merkle_hash_count sha fuel t ≡ some t'
      → t ≡ t'
  unfolding update_merkle_hash_count
  update-Canonical_self zero path xs t t' c run = cc
  update-Canonical_self (suc fuel) path xs (leaf h b) t' c run =
      eq_of_some (sym (if_false _ _ (ap (λ h. h.dirty) c.3)) ∙ run)
  update-Canonical_self (suc fuel) path xs (inner h l r) t' c run =
      eq_of_some (sym (if_false _ _ (ap (λ h. h.dirty) c.4)) ∙ run)

  index-lt : (p : Pair) → hash_to_leafindex p < leaf_size
  unfolding hash_to_leafindex
  index-lt p = omega arith

  -- What a proof made at an up-to-date node is: the node is as it was, the proof hashes to the
  -- node's hash of the leaf index, and its term is the leaf of that index of the key's bucket.
  pub record Proves (t : Item) (p : Pair) (t' : Item) (proof : Proof) : Type 0 where
    pub same : t ≡ t'
    pub root : proof_hash proof ≡ get_or (hashes t) (hash_to_leafindex p) []
    pub at : Bits
    pub leaf_term :
        proof_term proof
        ≡ some (
            leaf_to_erl_ext []
              (hash_to_leafindex p)
              at
              (bucket_to_leaf (hash_to_leafindex p) (get_bucket t p)))

  leaf_hash :
      (path : List Bool) (xs b : List Pair) (h : Header) (p : Pair)
      → Canonical sha path xs (leaf h b)
      → Proves (leaf h b) p (leaf h b) (
          term (
            leaf_to_erl_ext []
              (hash_to_leafindex p)
              h.prefix
              (bucket_to_leaf (hash_to_leafindex p) b)))
  unfolding proof_hash proof_term get_bucket hashes bucket_to_leafes signature_leaf
  leaf_hash path xs b h p c =
      let index = hash_to_leafindex p in
      let zero_add : 0 + index ≡ index = omega arith in
      let listed = get_or-leaf_hashes_from leaf_size 0 index h.prefix b (index-lt p) in
      record {
        same = refl;
        root = rw c.3 (sym (rw zero_add at listed));
        at = h.prefix;
        leaf_term = refl;
      }

  module _ (path : List Bool) (xs : List Pair) (h : Header) (l r : Item) (p : Pair)
      (c : Canonical sha path xs (inner h l r)) where
    joined_hash :
        get_or (hashes (inner h l r)) (hash_to_leafindex p) []
        ≡ signature sha
            (get_or (hashes l) (hash_to_leafindex p) [])
            (get_or (hashes r) (hash_to_leafindex p) [])
    unfolding hashes
    joined_hash =
        let nl = length-hashes (false ∷ path) (side true (length path) xs) l c.2 in
        let nr = length-hashes (true ∷ path) (side false (length path) xs) r c.3 in
        rw c.4 (
          get_or-join_hashes (hashes l) (hashes r) (hash_to_leafindex p) (nl ∙ sym nr)
            (rw nl (index-lt p)))

    branch_left :
        (l' : Item) (proof : Proof)
        → decide p h.prefix.size ≡ true
        → Proves l p l' proof
        → Proves
            (inner h l r)
            p
            (inner h l' r)
            (branch proof (hash (get_or (hashes r) (hash_to_leafindex p) [])))
    unfolding proof_hash proof_term get_bucket
    branch_left l' proof d w = record {
      same = ap (λ x. inner h x r) w.same;
      root = rw w.root (sym joined_hash);
      at = w.at;
      leaf_term = rw (d, w.leaf_term) refl;
    }

    branch_right :
        (r' : Item) (proof : Proof)
        → decide p h.prefix.size ≡ false
        → Proves r p r' proof
        → Proves
            (inner h l r)
            p
            (inner h l r')
            (branch (hash (get_or (hashes l) (hash_to_leafindex p) [])) proof)
    unfolding proof_hash proof_term get_bucket
    branch_right r' proof d w = record {
      same = ap (λ x. inner h l x) w.same;
      root = rw w.root (sym joined_hash);
      at = w.at;
      leaf_term = rw (d, w.leaf_term) refl;
    }

  do_get_proofs-Proves :
      (fuel : ℕ) (path : List Bool) (xs : List Pair) (t : Item) (p : Pair) (t' : Item)
      (proof : Proof)
      → Canonical sha path xs t
      → do_get_proofs sha fuel t p ≡ some (t', proof)
      → Proves t p t' proof
  unfolding do_get_proofs
  do_get_proofs-Proves zero path xs t p t' proof c run = cc
  do_get_proofs-Proves (suc fuel) path xs (leaf h b) p t' proof c run =
      let e = eq_of_some run in
      subst (λ w. Proves (leaf h b) p w.0 w.1) e (leaf_hash path xs b h p c)
  do_get_proofs-Proves (suc fuel) path xs (inner h l r) p t' proof c run =
      let (l', up_l, rest) = >>=-eq-some (update_merkle_hash_count sha fuel l) _ run in
      let (r', up_r, last) = >>=-eq-some (update_merkle_hash_count sha fuel r) _ rest in
      let el : l ≡ l' = update-Canonical_self fuel (false ∷ path) _ l l' c.2 up_l in
      let er : r ≡ r' = update-Canonical_self fuel (true ∷ path) _ r r' c.3 up_r in
      elim (Bool-cases (decide p h.prefix.size)) [
        | inl d ↦
            let (w, run_w, done) =
              >>=-eq-some (do_get_proofs sha fuel l' p) _ (sym (if_true _ _ d) ∙ last) in
            let sub : Proves l p w.0 w.1 =
              do_get_proofs-Proves fuel (false ∷ path) (side true (length path) xs) l p w.0 w.1 c.2
                (ap (λ x. do_get_proofs sha fuel x p) el ∙ run_w) in
            let made : Proves (inner h l r) p (inner h w.0 r')
                (branch w.1 (hash (get_or (hashes r') (hash_to_leafindex p) []))) =
              subst
                (λ x.
                  Proves (inner h l r) p (inner h w.0 x)
                    (branch w.1 (hash (get_or (hashes x) (hash_to_leafindex p) []))))
                er (branch_left path xs h l r p c w.0 w.1 d sub) in
            subst (λ v. Proves (inner h l r) p v.0 v.1) (eq_of_some done) made
        | inr d ↦
            let (w, run_w, done) =
              >>=-eq-some (do_get_proofs sha fuel r' p) _ (sym (if_false _ _ d) ∙ last) in
            let sub : Proves r p w.0 w.1 =
              do_get_proofs-Proves fuel (true ∷ path) (side false (length path) xs) r p w.0 w.1 c.3
                (ap (λ x. do_get_proofs sha fuel x p) er ∙ run_w) in
            let made : Proves (inner h l r) p (inner h l' w.0)
                (branch (hash (get_or (hashes l') (hash_to_leafindex p) [])) w.1) =
              subst
                (λ x.
                  Proves (inner h l r) p (inner h x w.0)
                    (branch (hash (get_or (hashes x) (hash_to_leafindex p) [])) w.1))
                el (branch_right path xs h l r p c w.0 w.1 d sub) in
            subst (λ v. Proves (inner h l r) p v.0 v.1) (eq_of_some done) made
      ]

  -- A proof for a key in a well-formed trie hashes to the updated trie's hash of the key's leaf
  -- index, one of the hashes under the root hash, and its term is that leaf of the key's bucket.
  pub get_proofs-Proves :
      (fuel : ℕ) (t u : Item) (key : Bytes) (proof : Proof)
      → IsTree sha t
      → get_proofs sha fuel t key ≡ some (u, proof)
      → (update_merkle_hash_count sha fuel t ≡ some u)
        × Proves u (make_pair sha key (replicate 32 0)) u proof
  unfolding get_proofs
  get_proofs-Proves fuel t u key proof w run =
      let (t', up, rest) = >>=-eq-some (update_merkle_hash_count sha fuel t) _ run in
      let made : Proves t' (make_pair sha key (replicate 32 0)) u proof =
        do_get_proofs-Proves fuel [] (content t) t' (make_pair sha key (replicate 32 0)) u proof
          (update-Canonical sha fuel [] t t' w.valid w.cached up) rest in
      (
        up ∙ ap some made.same,
        subst (λ x. Proves x (make_pair sha key (replicate 32 0)) u proof) made.same made,
      )
