-- ===== src/Pairs/Gather.antt =====
-- Ascending buckets as finite maps: two with the same lookups are equal, and the fold of
-- `map_put` over an ascending bucket overrides what was there.
use diode_server.Base.{
  ◌≡◌, refl, true, false, Option, none, some, List, [], ◌∷◌, ◌++◌, All, Bool-cases, inl, inr, sym,
  ◌∙◌, eq_of_some,
}
use diode_server.Base.Bytes.{
  Bytes, bin_eq, bin_lt, bin_eq_sound, bin_eq_refl, bin_eq_symm, bin_lt_trans, bin_lt_total,
}
use diode_server.Pairs.{Pair, Sorted, Hashed, map_put, map_get}
use diode_server.Pairs.Place.{map_put-place}
use diode_server.Pairs.Order.{All-place, map_put-Sorted}
use diode_server.Pairs.Lookup.{map_get-none_of_lt, map_get-map_put}

-- The fold of `map_put` over a list of pairs.
unfoldable pub gather : List Pair → List Pair → List Pair
gather bucket [] = bucket
gather bucket (p ∷ ps) = gather (map_put bucket p) ps

map_get_head : (x : Pair) (xs : List Pair) → map_get (x ∷ xs) x.key ≡ some x
unfolding map_get
map_get_head x xs = rw (bin_eq_refl x.key)

-- A key below the head of an ascending bucket is not in it.
below_head :
    (a : Bytes) (y : Pair) (ys : List Pair)
    → Sorted (y ∷ ys)
    → bin_lt a y.key ≡ true
    → map_get (y ∷ ys) a ≡ none
below_head a y ys (b, s) l = map_get-none_of_lt (y ∷ ys) a (l, all_above ys b)
  where
    all_above :
        (m : List Pair)
        → All (λ (r : Pair). bin_lt y.key r.key ≡ true) m
        → All (λ (r : Pair). bin_lt a r.key ≡ true) m
    all_above [] h = tt
    all_above (q ∷ m) (h, t) = (bin_lt_trans a y.key q.key l h, all_above m t)

heads_eq :
    (x y : Pair) (xs ys : List Pair)
    → Sorted (x ∷ xs)
    → Sorted (y ∷ ys)
    → ((key : Bytes) → map_get (x ∷ xs) key ≡ map_get (y ∷ ys) key)
    → x ≡ y
heads_eq x y xs ys sx sy same = elim (Bool-cases (bin_eq y.key x.key)) [
  | inl e ↦
      let found : map_get (y ∷ ys) x.key ≡ some y = unfold map_get in rw e refl in
      eq_of_some (sym (map_get_head x xs) ∙ same x.key ∙ found)
  | inr e ↦ elim (Bool-cases (bin_lt x.key y.key)) [
    | inl l ↦ cc (map_get_head x xs, same x.key, below_head x.key y ys sy l)
    | inr l ↦
        let other : bin_lt y.key x.key ≡ true =
          bin_lt_total x.key y.key (bin_eq_symm x.key y.key ∙ e) l in
        cc (map_get_head y ys, same y.key, below_head y.key x xs sx other)
  ]
]

-- Ascending buckets with the same lookups are equal.
pub eq_of_lookups :
    (xs ys : List Pair)
    → Sorted xs
    → Sorted ys
    → ((key : Bytes) → map_get xs key ≡ map_get ys key)
    → xs ≡ ys
eq_of_lookups [] [] sx sy same = refl
eq_of_lookups [] (y ∷ ys) sx sy same =
    let miss : map_get [] y.key ≡ none = unfold map_get in refl in
    cc (miss, same y.key, map_get_head y ys)
eq_of_lookups (x ∷ xs) [] sx sy same =
    let miss : map_get [] x.key ≡ none = unfold map_get in refl in
    cc (miss, same x.key, map_get_head x xs)
eq_of_lookups (x ∷ xs) (y ∷ ys) sx sy same =
    let heads : x ≡ y = heads_eq x y xs ys sx sy same in
    let tails : xs ≡ ys = eq_of_lookups xs ys sx.1 sy.1 (tail_same heads) in λ i. heads i ∷ tails i
  where
    tail_same : x ≡ y → (key : Bytes) → map_get xs key ≡ map_get ys key
    tail_same e key = elim (Bool-cases (bin_eq x.key key)) [
      | inl c ↦
          let at : x.key ≡ key = bin_eq_sound x.key key c in
          let above : All (λ (r : Pair). bin_lt x.key r.key ≡ true) ys = rw (← e) at sy.0 in
          map_get-none_of_lt xs key (rw at at sx.0)
          ∙ sym (map_get-none_of_lt ys key (rw at at above))
      | inr c ↦
          let d : bin_eq y.key key ≡ false = rw e at c in
          let both : map_get (x ∷ xs) key ≡ map_get (y ∷ ys) key = same key in
          unfold map_get in sym (rw c refl) ∙ both ∙ rw d refl
    ]

-- A lookup in the second bucket, and in the first where that misses.
abbrev pub or_in : Option Pair → Option Pair → Option Pair
or_in none o = o
or_in (some p) o = some p

module _ (P : Pair → Type 0) where
  pub All-gather :
      (acc ps : List Pair)
      → ((q p : Pair) → P q → P p → q.key ≡ p.key → P (record q { value = p.value }))
      → All P acc
      → All P ps
      → All P (gather acc ps)
  unfolding gather
  All-gather acc [] re a b = a
  All-gather acc (p ∷ ps) re a (h, b) =
      All-gather (map_put acc p) ps re
        (rw (map_put-place acc p) (All-place P acc p (λ q hq hp e. re q p hq hp e) a h)) b

pub gather-Sorted : (acc ps : List Pair) → Sorted acc → Sorted (gather acc ps)
unfolding gather
gather-Sorted acc [] s = s
gather-Sorted acc (p ∷ ps) s = gather-Sorted (map_put acc p) ps (map_put-Sorted acc p s)

pub gather-append : (acc xs ys : List Pair) → gather acc (xs ++ ys) ≡ gather (gather acc xs) ys
unfolding gather
gather-append acc [] ys = refl
gather-append acc (x ∷ xs) ys = gather-append (map_put acc x) xs ys

module _ (sha : Bytes → Bytes) where
  pub Hashed-value :
      (q p : Pair)
      → Hashed sha q
      → Hashed sha p
      → q.key ≡ p.key
      → Hashed sha (record q { value = p.value })
  Hashed-value q p h _ _ = h

  pub map_get-gather :
      (acc xs : List Pair) (key : Bytes)
      → Sorted acc
      → Sorted xs
      → All (Hashed sha) acc
      → All (Hashed sha) xs
      → map_get (gather acc xs) key ≡ or_in (map_get xs key) (map_get acc key)
  unfolding gather
  map_get-gather acc [] key sa sx ha hx = unfold map_get in refl
  map_get-gather acc (x ∷ xs) key sa (above, sx) ha (h, hx) =
      map_get-gather (map_put acc x) xs key (map_put-Sorted acc x sa) sx
        (rw (map_put-place acc x)
          (All-place (Hashed sha) acc x (λ q hq hp e. Hashed-value q x hq hp e) ha h))
        hx
      ∙ step
    where
      step :
          or_in (map_get xs key) (map_get (map_put acc x) key)
          ≡ or_in (map_get (x ∷ xs) key) (map_get acc key)
      step = rw (map_get-map_put sha acc x key sa ha h) (elim (Bool-cases (bin_eq x.key key)) [
        | inl e ↦
            let at : x.key ≡ key = bin_eq_sound x.key key e in
            let miss : map_get xs key ≡ none = map_get-none_of_lt xs key (rw at at above) in
            rw (miss, e) (unfold map_get in rw e refl)
        | inr e ↦ rw e (unfold map_get in rw e refl)
      ])
