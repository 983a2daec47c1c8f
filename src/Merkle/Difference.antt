-- ===== src/Merkle/Difference.antt =====
-- `Tree::difference`: which pairs it adds.
use diode_server.Base.{
  ℕ, ◌≡◌, refl, Bool, true, false, not, Option, none, some, List, [], ◌∷◌, ◌++◌, All, sym, ap, ◌∙◌,
  arith, Bool-cases, inl, inr, subst, length, >>=-eq-some, eq_of_some, if_true, if_false,
  if◌then◌else◌,
}
use diode_server.Base.Bytes.{Bytes, bin_eq, bin_lt, bin_eq_sound, bin_lt_irrefl}
use diode_server.Pairs.{Pair, Sorted, Hashed, make_pair, is_null, map_get}
use diode_server.Pairs.Gather.{or_in}
use diode_server.Trie.{Item, leaf, inner, decide, each, insert_path, get_item, get_bucket}
use diode_server.Trie.Valid.{Stored, IsValid, size-prefix_of, All-map, each-Stored}
use diode_server.Trie.Split.{decide_congr}
use diode_server.Trie.Insert.{Writes, insert_path-Writes}
use diode_server.Trie.Content.{content, content-Stored}
use diode_server.Merkle.{differs, difference_from, difference}
use diode_server.Merkle.Canon.{get_item-content}
use diode_server.Merkle.Store.{IsTree, insert_path-IsCached}

-- The last pair of a list that has the key and passes the test.
latest : (Pair → Bool) → List Pair → Bytes → Option Pair
latest d [] key = none
latest d (p ∷ ps) key =
    or_in (latest d ps key) (if bin_eq p.key key then (if d p then some p else none) else none)

abbrev kept : (Pair → Bool) → Option Pair → Option Pair
kept d none = none
kept d (some p) = if d p then some p else none

-- The pair of the first trie that the second does not have under its key, or has with another
-- value.
unfoldable pub changed : Option Pair → Option Pair → Option Pair
changed none o = none
changed (some p) none = some p
changed (some p) (some q) = if bin_eq q.value p.value then none else some p

or_in_assoc : (a b c : Option Pair) → or_in (or_in a b) c ≡ or_in a (or_in b c)
or_in_assoc none b c = refl
or_in_assoc (some p) b c = refl

or_in-none : (o : Option Pair) → or_in o none ≡ o
or_in-none none = refl
or_in-none (some p) = refl

module _ (d : Pair → Bool) (key : Bytes) where
  latest-append :
      (xs ys : List Pair) → latest d (xs ++ ys) key ≡ or_in (latest d ys key) (latest d xs key)
  unfolding latest
  latest-append [] ys = sym (or_in-none (latest d ys key))
  latest-append (x ∷ xs) ys =
      rw (latest-append xs ys) (or_in_assoc (latest d ys key) (latest d xs key) _)

  latest-none : (xs : List Pair) → All (λ p. bin_eq p.key key ≡ false) xs → latest d xs key ≡ none
  unfolding latest
  latest-none [] a = refl
  latest-none (x ∷ xs) (e, a) = rw (latest-none xs a, e)

  latest-Sorted : (xs : List Pair) → Sorted xs → latest d xs key ≡ kept d (map_get xs key)
  unfolding latest map_get
  latest-Sorted [] s = refl
  latest-Sorted (x ∷ xs) (a, s) = elim (Bool-cases (bin_eq x.key key)) [
    | inl e ↦ rw (e, latest-none xs (others xs a (bin_eq_sound x.key key e)))
    | inr e ↦ rw e (or_in-none (latest d xs key) ∙ latest-Sorted xs s)
  ]
    where
      others :
          (ys : List Pair)
          → All (λ (r : Pair). bin_lt x.key r.key ≡ true) ys
          → x.key ≡ key
          → All (λ p. bin_eq p.key key ≡ false) ys
      others [] b at = tt
      others (y ∷ ys) (l, b) at = (
        elim (Bool-cases (bin_eq y.key key)) [
          | inl same ↦
              let less : bin_lt key y.key ≡ true = rw at at l in
              let back : bin_lt key key ≡ true = rw (bin_eq_sound y.key key same) at less in
              cc (bin_lt_irrefl key, back)
          | inr other ↦ other
        ],
        others ys b at,
      )

module _ (sha : Bytes → Bytes) where
  -- Pairs that went the other way have other keys.
  other_keys :
      (n : ℕ) (b : Bool) (key : Bytes) (xs : List Pair)
      → All (Hashed sha) xs
      → All (λ p. decide p n ≡ not b) xs
      → decide (make_pair sha key []) n ≡ b
      → All (λ p. bin_eq p.key key ≡ false) xs
  other_keys n b key [] h a d = tt
  other_keys n b key (x ∷ xs) (hx, h) (ax, a) d = (
    elim (Bool-cases (bin_eq x.key key)) [
      | inl e ↦
          let same : decide x n ≡ decide (make_pair sha key []) n =
            decide_congr sha x (make_pair sha key []) n hx refl (bin_eq_sound x.key key e) in
          absurd (differ b (sym ax ∙ same ∙ d))
      | inr e ↦ e
    ],
    other_keys n b key xs h a d,
  )
    where
      differ : (b : Bool) → not b ≡ b → ⊥
      differ b e = ground arith

  latest-each :
      (path : List Bool) (d : Pair → Bool) (key : Bytes) (t : Item)
      → IsValid sha path t
      → latest d (each t) key ≡ kept d (get_item t (make_pair sha key []))
  unfolding each get_item get_bucket
  latest-each path d key (leaf h b) v = latest-Sorted d key b v.1
  latest-each path d key (inner h l r) v =
      elim (Bool-cases (decide (make_pair sha key []) h.prefix.size)) [
        | inl c ↦
            let miss : latest d (each r) key ≡ none = latest-none d key (each r) (
              other_keys (length path) true key (each r)
                (All-map (Hashed sha) (each r) (λ p (s : Stored sha (true ∷ path) p). s.hashed) sr)
                (All-map (λ p. decide p (length path) ≡ false) (each r)
                  (λ p (s : Stored sha (true ∷ path) p). s.under.0) sr)
                (rw depth at c)) in
            rw (latest-append d key (each l) (each r), miss, c)
              (latest-each (false ∷ path) d key l v.1)
        | inr c ↦
            let miss : latest d (each l) key ≡ none = latest-none d key (each l) (
              other_keys (length path) false key (each l)
                (All-map (Hashed sha) (each l) (λ p (s : Stored sha (false ∷ path) p). s.hashed) sl)
                (All-map (λ p. decide p (length path) ≡ true) (each l)
                  (λ p (s : Stored sha (false ∷ path) p). s.under.0) sl)
                (rw depth at c)) in
            rw (latest-append d key (each l) (each r), miss, c, or_in-none (latest d (each r) key))
              (latest-each (true ∷ path) d key r v.2)
      ]
    where
      depth : h.prefix.size ≡ length path
      depth = ap (λ b. b.size) v.0 ∙ size-prefix_of path

      sr : All (Stored sha (true ∷ path)) (each r)
      sr = each-Stored sha (true ∷ path) r v.2

      sl : All (Stored sha (false ∷ path)) (each l)
      sl = each-Stored sha (false ∷ path) l v.1

  difference_from-latest :
      (fuel : ℕ) (other into into' : Item) (ps : List Pair) (key : Bytes)
      → IsTree sha into
      → All (Stored sha []) ps
      → difference_from sha fuel other into ps ≡ some into'
      → IsTree sha into'
        × (get_item into' (make_pair sha key [])
            ≡ or_in (latest (differs sha other) ps key) (get_item into (make_pair sha key [])))
  unfolding difference_from latest
  difference_from-latest fuel other into into' [] key w a run =
      subst
        (λ t.
          IsTree sha t × (get_item t (make_pair sha key []) ≡ get_item into (make_pair sha key [])))
        (eq_of_some run) (w, refl)
  difference_from-latest fuel other into into' (p ∷ ps) key w (s, a) run =
      elim (Bool-cases (differs sha other p)) [
        | inl d ↦
            let (mid, put, rest) = >>=-eq-some (insert_path fuel into p) _ (rw d at run) in
            let done : Writes sha [] into p mid =
              insert_path-Writes sha fuel [] into p mid w.valid s.hashed tt put in
            let tree : IsTree sha mid = record {
              valid = done.valid;
              cached = insert_path-IsCached sha fuel [] into p mid w.cached put;
            } in
            let (last, found) = difference_from-latest fuel other mid into' ps key tree a rest in
            (
              last,
              found
                  ∙ ap (or_in (latest (differs sha other) ps key))
                      (done.finds (make_pair sha key []) refl ∙ here d)
                  ∙ sym (or_in_assoc (latest (differs sha other) ps key) _ _),
            )
        | inr d ↦
            let (last, found) =
              difference_from-latest fuel other into into' ps key w a (rw d at run) in
            (last, found ∙ skip d)
      ]
    where
      here :
          differs sha other p ≡ true
          → (if bin_eq p.key key
              then (if is_null p.value then none else some p)
              else get_item into (make_pair sha key []))
            ≡ or_in
                (if bin_eq p.key key then (if differs sha other p then some p else none) else none)
                (get_item into (make_pair sha key []))
      here d = rw (d, s.live) (elim (Bool-cases (bin_eq p.key key)) [ inl e ↦ rw e | inr e ↦ rw e ])

      skip :
          differs sha other p ≡ false
          → or_in (latest (differs sha other) ps key) (get_item into (make_pair sha key []))
            ≡ or_in (latest (differs sha other) (p ∷ ps) key) (get_item into (make_pair sha key []))
      skip d = rw d (elim (Bool-cases (bin_eq p.key key)) [
        | inl e ↦ rw (e, or_in-none (latest (differs sha other) ps key))
        | inr e ↦ rw (e, or_in-none (latest (differs sha other) ps key))
      ])

  -- A lookup by a stored pair is the lookup of its key.
  get_item-Hashed :
      (t : Item) (p : Pair) (key : Bytes)
      → Hashed sha p
      → p.key ≡ key
      → get_item t p ≡ get_item t (make_pair sha key [])
  unfolding get_item get_bucket
  get_item-Hashed (leaf h b) p key hp e = ap (map_get b) e
  get_item-Hashed (inner h l r) p key hp e =
      let same : decide p h.prefix.size ≡ decide (make_pair sha key []) h.prefix.size =
        decide_congr sha p (make_pair sha key []) h.prefix.size hp refl e in
      rw same (elim (Bool-cases (decide (make_pair sha key []) h.prefix.size)) [
        | inl d ↦ rw d (get_item-Hashed l p key hp e)
        | inr d ↦ rw d (get_item-Hashed r p key hp e)
      ])

  map_get_sound :
      (P : Pair → Type 0) (xs : List Pair) (key : Bytes) (p : Pair)
      → All P xs
      → map_get xs key ≡ some p
      → P p × (p.key ≡ key)
  unfolding map_get
  map_get_sound P [] key p a e = cc
  map_get_sound P (x ∷ xs) key p (px, a) e = elim (Bool-cases (bin_eq x.key key)) [
    | inl c ↦
        subst (λ y. P y × (y.key ≡ key)) (eq_of_some (sym (if_true _ _ c) ∙ e))
          (px, bin_eq_sound x.key key c)
    | inr c ↦ map_get_sound P xs key p a (sym (if_false _ _ c) ∙ e)
  ]

  kept-changed :
      (other : Item) (key : Bytes) (o : Option Pair)
      → ((p : Pair) → o ≡ some p → Hashed sha p × (p.key ≡ key))
      → kept (differs sha other) o ≡ changed o (get_item other (make_pair sha key []))
  unfolding differs changed
  kept-changed other key none h = refl
  kept-changed other key (some p) h =
      let (hp, e) = h p refl in
      ap outcome (get_item-Hashed other p key hp e)
      ∙ by_lookup (get_item other (make_pair sha key []))
    where
      outcome : Option Pair → Option Pair
      outcome o =
          if elim o [ none ↦ true | some q ↦ not (bin_eq q.value p.value) ] then some p else none

      by_lookup : (o : Option Pair) → outcome o ≡ changed (some p) o
      by_lookup none = refl
      by_lookup (some q) = elim (Bool-cases (bin_eq q.value p.value)) [
        | inl e ↦ rw e
        | inr e ↦ rw e
      ]

  -- The difference of two well-formed tries, added to a third: under each key stands the pair of
  -- the first trie that the second lacks or has with another value, and what stood there elsewhere.
  pub difference-changed :
      (fuel : ℕ) (t other into into' : Item)
      → IsTree sha t
      → IsTree sha into
      → difference sha fuel t other into ≡ some into'
      → IsTree sha into'
        × ((key : Bytes)
            → get_item into' (make_pair sha key [])
              ≡ or_in
                  (changed
                    (get_item t (make_pair sha key []))
                    (get_item other (make_pair sha key [])))
                  (get_item into (make_pair sha key [])))
  unfolding difference
  difference-changed fuel t other into into' v w run =
      ((found []).0, λ key. (found key).1 ∙ named key)
    where
      found :
          (key : Bytes)
          → IsTree sha into'
            × (get_item into' (make_pair sha key [])
                ≡ or_in
                    (latest (differs sha other) (each t) key)
                    (get_item into (make_pair sha key [])))
      found key =
          difference_from-latest fuel other into into' (each t) key w (each-Stored sha [] t v.valid)
            run

      stored :
          (key : Bytes) (p : Pair)
          → get_item t (make_pair sha key []) ≡ some p
          → Hashed sha p × (p.key ≡ key)
      stored key p e =
          let (s, at) =
            map_get_sound (Stored sha []) (content t) key p (content-Stored sha [] t v.valid)
              (sym (get_item-content sha [] t (make_pair sha key []) v.valid refl) ∙ e) in
          (s.hashed, at)

      named :
          (key : Bytes)
          → or_in (latest (differs sha other) (each t) key) (get_item into (make_pair sha key []))
            ≡ or_in
                (changed
                  (get_item t (make_pair sha key []))
                  (get_item other (make_pair sha key [])))
                (get_item into (make_pair sha key []))
      named key =
          ap (λ o. or_in o (get_item into (make_pair sha key [])))
            (latest-each [] (differs sha other) key t v.valid
              ∙ kept-changed other key (get_item t (make_pair sha key [])) (stored key))
