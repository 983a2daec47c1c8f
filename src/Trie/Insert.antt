-- ===== src/Trie/Insert.antt =====
-- `insert_path` on a valid trie: the result is valid, a lookup finds the new pair under its key and
-- the old ones elsewhere, and there is a result.
use diode_server.Base.{
  ℕ, ◌≡◌, refl, Bool, true, false, Option, none, some, List, ◌∷◌, All, length, sym, subst, ap, ◌∙◌,
  ◌≢◌, arith, if◌then◌else◌, Bool-cases, inl, inr, >>=-eq-some, eq_of_some,
}
use diode_server.Base.Bytes.{Bytes, bin_eq, bin_eq_sound}
use diode_server.Pairs.{Pair, Hashed, is_null, map_get, map_put, map_delete}
use diode_server.Pairs.Place.{map_put-place, map_delete-remove}
use diode_server.Pairs.Order.{
  All-place, All-remove, map_put-Sorted, map_delete-Sorted, length-map_delete-le,
}
use diode_server.Pairs.Lookup.{replaced, map_get-map_put, map_get-map_delete}
use diode_server.Trie.{
  Header, Item, leaf, inner, decide, split_node, insert_path, get_bucket, get_item, set_dirty,
}
use diode_server.Trie.Valid.{Under, Stored, IsValid, size-prefix_of, All-map}
use diode_server.Trie.Split.{decide_congr, Splits, split_node-Splits}

module _ (sha : Bytes → Bytes) where
  -- What the code writes: the pair under its key, or nothing there if its value is null.
  abbrev pub written : Pair → Option Pair
  written p = if is_null p.value then none else some p

  Stored-map_put :
      (path : List Bool) (bucket : List Pair) (p : Pair)
      → All (Stored sha path) bucket
      → Stored sha path p
      → All (Stored sha path) (map_put bucket p)
  Stored-map_put path bucket p a s = rw (map_put-place bucket p) (
      All-place (Stored sha path) bucket p
        (λ q (sq : Stored sha path q) (sp : Stored sha path p) (e : q.key ≡ p.key).
          rw (replaced q p e (sq.hashed ∙ ap sha e ∙ sym sp.hashed)) sp)
        a s)

  Stored-map_delete :
      (path : List Bool) (bucket : List Pair) (key : Bytes)
      → All (Stored sha path) bucket
      → All (Stored sha path) (map_delete bucket key)
  Stored-map_delete path bucket key a =
      rw (map_delete-remove bucket key) (All-remove (Stored sha path) bucket key a)

  pub IsValid-set_dirty :
      (path : List Bool) (d : Bool) (t : Item)
      → IsValid sha path t
      → IsValid sha path (set_dirty d t)
  IsValid-set_dirty path d (leaf h b) v = v
  IsValid-set_dirty path d (inner h l r) v = v

  pub get_item-set_dirty :
      (d : Bool) (t : Item) (q : Pair) → get_item (set_dirty d t) q ≡ get_item t q
  unfolding get_item get_bucket
  get_item-set_dirty d (leaf h b) q = refl
  get_item-set_dirty d (inner h l r) q = refl

  -- The outcome of a write of `p` below a path.
  pub record Writes (path : List Bool) (t : Item) (p : Pair) (t' : Item) : Type 0 where
    pub valid : IsValid sha path t'
    pub finds :
        (q : Pair)
        → Hashed sha q
        → get_item t' q ≡ (if bin_eq p.key q.key then written p else get_item t q)

  hashed_of : (path : List Bool) (xs : List Pair) → All (Stored sha path) xs → All (Hashed sha) xs
  hashed_of path xs a = All-map (Hashed sha) xs (λ p (s : Stored sha path p). s.hashed) a

  deletes :
      (path : List Bool) (h : Header) (bucket : List Pair) (p : Pair)
      → IsValid sha path (leaf h bucket)
      → is_null p.value ≡ true
      → Writes path (leaf h bucket) p (leaf (record h { dirty = true }) (map_delete bucket p.key))
  unfolding get_item get_bucket
  deletes path h bucket p (e, s, small, a) gone = record {
    valid = (
      e,
      map_delete-Sorted bucket p.key s,
      omega (arith, length-map_delete-le bucket p.key),
      Stored-map_delete path bucket p.key a,
    );
    finds = λ q hq. rw gone (map_get-map_delete bucket p.key q.key s);
  }

  puts :
      (path : List Bool) (fuel : ℕ) (h : Header) (bucket : List Pair) (p : Pair) (t : Item)
      → IsValid sha path (leaf h bucket)
      → Hashed sha p
      → Under path p
      → is_null p.value ≡ false
      → split_node fuel h (map_put bucket p) ≡ some t
      → Writes path (leaf h bucket) p (set_dirty true t)
  puts path fuel h bucket p t (e, s, small, a) hp up live run =
      let stored : Stored sha path p = record { hashed = hp; under = up; live = live } in
      let done : Splits sha path (map_put bucket p) t =
        split_node-Splits sha fuel path h (map_put bucket p) t e (map_put-Sorted bucket p s)
          (Stored-map_put path bucket p a stored) run in
      record {
        valid = IsValid-set_dirty path true t done.valid;
        finds = λ q hq. rw live (get_item-set_dirty true t q ∙ done.finds q hq ∙ found q);
      }
    where
      found :
          (q : Pair)
          → map_get (map_put bucket p) q.key
            ≡ (if bin_eq p.key q.key then some p else get_item (leaf h bucket) q)
      found q =
          unfold get_item get_bucket in
          map_get-map_put sha bucket p q.key s (hashed_of path bucket a) hp

  -- A key on the other side of a node is another key.
  other_key :
      (n : ℕ) (p q : Pair)
      → Hashed sha p
      → Hashed sha q
      → decide p n ≢ decide q n
      → bin_eq p.key q.key ≡ false
  other_key n p q hp hq ne = elim (Bool-cases (bin_eq p.key q.key)) [
    | inl e ↦ absurd (ne (decide_congr sha p q n hp hq (bin_eq_sound p.key q.key e)))
    | inr e ↦ e
  ]

  module _ (path : List Bool) (h : Header) (l r : Item) (p : Pair) (hp : Hashed sha p) where
    below_left :
        (l' : Item)
        → IsValid sha path (inner h l r)
        → decide p h.prefix.size ≡ true
        → Writes (false ∷ path) l p l'
        → Writes path (inner h l r) p (inner (record h { dirty = true }) l' r)
    unfolding get_item get_bucket
    below_left l' v d w = record {
      valid = (v.0, w.valid, v.2);
      finds = λ q hq. elim (Bool-cases (decide q h.prefix.size)) [
        | inl c ↦ rw c (w.finds q hq)
        | inr c ↦ rw (c, other_key h.prefix.size p q hp hq (λ e. cc (d, c, e)))
      ];
    }

    below_right :
        (r' : Item)
        → IsValid sha path (inner h l r)
        → decide p h.prefix.size ≡ false
        → Writes (true ∷ path) r p r'
        → Writes path (inner h l r) p (inner (record h { dirty = true }) l r')
    unfolding get_item get_bucket
    below_right r' v d w = record {
      valid = (v.0, v.1, w.valid);
      finds = λ q hq. elim (Bool-cases (decide q h.prefix.size)) [
        | inl c ↦ rw (c, other_key h.prefix.size p q hp hq (λ e. cc (d, c, e)))
        | inr c ↦ rw c (w.finds q hq)
      ];
    }

  pub insert_path-Writes :
      (fuel : ℕ) (path : List Bool) (t : Item) (p : Pair) (t' : Item)
      → IsValid sha path t
      → Hashed sha p
      → Under path p
      → insert_path fuel t p ≡ some t'
      → Writes path t p t'
  unfolding insert_path
  insert_path-Writes fuel path (leaf h bucket) p t' v hp up run =
      elim (Bool-cases (is_null p.value)) [
        | inl gone ↦
            subst (Writes path (leaf h bucket) p) (eq_of_some (rw gone at run))
              (deletes path h bucket p v gone)
        | inr live ↦
            let (t, run_t, last) = >>=-eq-some _ _ (rw live at run) in
            subst (Writes path (leaf h bucket) p) (eq_of_some last)
              (puts path fuel h bucket p t v hp up live run_t)
      ]
  insert_path-Writes fuel path (inner h l r) p t' v hp up run =
      elim (Bool-cases (decide p h.prefix.size)) [
        | inl d ↦
            let (l', run_l, last) = >>=-eq-some _ _ (rw d at run) in
            subst (Writes path (inner h l r) p) (eq_of_some last) (
              below_left path h l r p hp l' v d
                (insert_path-Writes fuel (false ∷ path) l p l' v.1 hp (rw depth at d, up) run_l))
        | inr d ↦
            let (r', run_r, last) = >>=-eq-some _ _ (rw d at run) in
            subst (Writes path (inner h l r) p) (eq_of_some last) (
              below_right path h l r p hp r' v d
                (insert_path-Writes fuel (true ∷ path) r p r' v.2 hp (rw depth at d, up) run_r))
      ]
    where
      depth : h.prefix.size ≡ length path
      depth = ap (λ b. b.size) v.0 ∙ size-prefix_of path
