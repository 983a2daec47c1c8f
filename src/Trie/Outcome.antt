-- ===== src/Trie/Outcome.antt =====
-- Writes to a trie end: `insert_path` returns a trie where the first 128 bits of the hashes of the keys differ.
use diode_server.Base.{
  ℕ, ◌<◌, ◌≡◌, Bool, true, false, some, List, [], ◌∷◌, ◌++◌, All, length, sym, ap, ◌∙◌, arith,
  Bool-cases, inl, inr,
}
use diode_server.Base.Bytes.{Bytes, bin_eq, bin_lt, bin_lt_irrefl}
use diode_server.Pairs.{Pair, Sorted, is_null, map_put, map_delete}
use diode_server.Pairs.Place.{place, map_put-place}
use diode_server.Pairs.Order.{All-place, place-Sorted}
use diode_server.Trie.{Item, leaf, inner, decide, insert_path, set_dirty, each}
use diode_server.Trie.Valid.{Under, Stored, IsValid, size-prefix_of, All-map}
use diode_server.Trie.Total.{SameBits, Apart, split_node_total}

-- The hashes of two pairs of the list begin with the same 128 bits only if they have one key.
abbrev pub NoCollision : List Pair → Type 0
NoCollision [] = Unit
NoCollision (q ∷ m) = All (λ (r : Pair). SameBits q r → q.key ≡ r.key) m × NoCollision m

pub Apart-of_Sorted : (m : List Pair) → Sorted m → NoCollision m → Apart m
Apart-of_Sorted [] s c = tt
Apart-of_Sorted (q ∷ m) (a, s) (f, c) = (differ m a f, Apart-of_Sorted m s c)
  where
    differ :
        (xs : List Pair)
        → All (λ (r : Pair). bin_lt q.key r.key ≡ true) xs
        → All (λ (r : Pair). SameBits q r → q.key ≡ r.key) xs
        → All (λ (r : Pair). ¬ SameBits q r) xs
    differ [] a f = tt
    differ (r ∷ xs) (l, a) (h, f) = (
      λ e. let less : bin_lt r.key r.key ≡ true = rw (h e) at l in cc (bin_lt_irrefl r.key, less),
      differ xs a f,
    )

NoCollision-place : (m : List Pair) (p : Pair) → NoCollision (p ∷ m) → NoCollision (place m p)
unfolding place decide
NoCollision-place [] p c = (tt, tt)
NoCollision-place (q ∷ m) p ((fq, f), (ne, c)) = elim (Bool-cases (bin_eq q.key p.key)) [
  | inl e ↦ rw e (ne, c)
  | inr e ↦ rw e (elim (Bool-cases (bin_lt p.key q.key)) [
    | inl l ↦ rw l ((fq, f), (ne, c))
    | inr l ↦ rw l (
      All-place (λ r. SameBits q r → q.key ≡ r.key) m p (λ r h _ _. h) ne
          (λ same. sym (fq (λ i h. sym (same i h)))),
      NoCollision-place m p (f, c),
    )
  ])
]

module _ (P : Pair → Type 0) where
  pub All-append_left : (xs ys : List Pair) → All P (xs ++ ys) → All P xs
  All-append_left [] ys a = tt
  All-append_left (x ∷ xs) ys (h, a) = (h, All-append_left xs ys a)

  pub All-append_right : (xs ys : List Pair) → All P (xs ++ ys) → All P ys
  All-append_right [] ys a = a
  All-append_right (x ∷ xs) ys (h, a) = All-append_right xs ys a

NoCollision-append_left : (xs ys : List Pair) → NoCollision (xs ++ ys) → NoCollision xs
NoCollision-append_left [] ys c = tt
NoCollision-append_left (x ∷ xs) ys (f, c) =
    (All-append_left (λ r. SameBits x r → x.key ≡ r.key) xs ys f, NoCollision-append_left xs ys c)

NoCollision-append_right : (xs ys : List Pair) → NoCollision (xs ++ ys) → NoCollision ys
NoCollision-append_right [] ys c = c
NoCollision-append_right (x ∷ xs) ys (f, c) = NoCollision-append_right xs ys c

-- Where a pair belongs does not depend on its value.
Under-value :
    (path : List Bool) (q : Pair) (v : Bytes) → Under path q → Under path (record q { value = v })
unfolding decide
Under-value [] q v u = tt
Under-value (b ∷ path) q v u = (u.0, Under-value path q v u.1)

module _ (sha : Bytes → Bytes) where
  -- With fuel for more than 128 bits a write returns a trie.
  pub insert_path_total :
      (fuel : ℕ) (path : List Bool) (t : Item) (p : Pair)
      → 128 < fuel
      → IsValid sha path t
      → Under path p
      → NoCollision (p ∷ each t)
      → (t' : Item) × (insert_path fuel t p ≡ some t')
  unfolding insert_path each
  insert_path_total fuel path (leaf h bucket) p enough (e, s, small, a) up c =
      elim (Bool-cases (is_null p.value)) [
        | inl gone ↦ (leaf (record h { dirty = true }) (map_delete bucket p.key), rw gone)
        | inr live ↦
            let (t, run) =
              split_node_total fuel path h (map_put bucket p) e (rw (map_put-place bucket p) unders)
                (rw (map_put-place bucket p) aparts) (omega arith) in
            (set_dirty true t, rw (live, run))
      ]
    where
      unders : All (Under path) (place bucket p)
      unders =
          All-place (Under path) bucket p (λ q uq _ _. Under-value path q p.value uq)
            (All-map (Under path) bucket (λ q (sq : Stored sha path q). sq.under) a) up

      aparts : Apart (place bucket p)
      aparts =
          Apart-of_Sorted (place bucket p) (place-Sorted bucket p s) (NoCollision-place bucket p c)
  insert_path_total fuel path (inner h l r) p enough v up (f, c) =
      elim (Bool-cases (decide p h.prefix.size)) [
        | inl at ↦
            let (l', run) =
              insert_path_total fuel (false ∷ path) l p enough v.1 (rw depth at at, up)
                (
                  All-append_left Same (each l) (each r) f,
                  NoCollision-append_left (each l) (each r) c,
                ) in
            (inner (record h { dirty = true }) l' r, rw (at, run))
        | inr at ↦
            let (r', run) =
              insert_path_total fuel (true ∷ path) r p enough v.2 (rw depth at at, up)
                (
                  All-append_right Same (each l) (each r) f,
                  NoCollision-append_right (each l) (each r) c,
                ) in
            (inner (record h { dirty = true }) l r', rw (at, run))
      ]
    where
      depth : h.prefix.size ≡ length path
      depth = ap (λ b. b.size) v.0 ∙ size-prefix_of path

      Same : Pair → Type 0
      Same q = SameBits p q → p.key ≡ q.key
