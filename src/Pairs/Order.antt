-- ===== src/Pairs/Order.antt =====
-- `map_put` and `map_delete` keep a bucket ascending, and the pairs in it what they were.
use diode_server.Base.{◌+◌, ◌≤◌, ◌≡◌, true, List, [], ◌∷◌, arith, length, All, Bool-cases, inl, inr}
use diode_server.Base.Bytes.{
  Bytes, bin_eq, bin_lt, bin_eq_sound, bin_eq_symm, bin_lt_trans, bin_lt_total,
}
use diode_server.Pairs.{Pair, Sorted, map_put, map_delete}
use diode_server.Pairs.Place.{place, remove, map_put-place, map_delete-remove}

module _ (P : Pair → Type 0) where
  pub All-place :
      (m : List Pair) (p : Pair)
      → ((q : Pair) → P q → P p → q.key ≡ p.key → P (record q { value = p.value }))
      → All P m
      → P p
      → All P (place m p)
  unfolding place
  All-place [] p re a h = (h, tt)
  All-place (q ∷ m) p re (b, a) h = elim (Bool-cases (bin_eq q.key p.key)) [
    | inl e ↦ rw e (re q b h (bin_eq_sound q.key p.key e), a)
    | inr e ↦ rw e (elim (Bool-cases (bin_lt p.key q.key)) [
      | inl l ↦ rw l (h, (b, a))
      | inr l ↦ rw l (b, All-place m p re a h)
    ])
  ]

  pub All-remove : (m : List Pair) (key : Bytes) → All P m → All P (remove m key)
  unfolding remove
  All-remove [] key a = tt
  All-remove (q ∷ m) key (b, a) = elim (Bool-cases (bin_eq q.key key)) [
    | inl e ↦ rw e a
    | inr e ↦ rw e (b, All-remove m key a)
  ]

All-above :
    (a b : Bytes) (m : List Pair)
    → bin_lt a b ≡ true
    → All (λ (r : Pair). bin_lt b r.key ≡ true) m
    → All (λ (r : Pair). bin_lt a r.key ≡ true) m
All-above a b [] h s = tt
All-above a b (q ∷ m) h (t, s) = (bin_lt_trans a b q.key h t, All-above a b m h s)

pub place-Sorted : (m : List Pair) (p : Pair) → Sorted m → Sorted (place m p)
unfolding place
place-Sorted [] p s = (tt, tt)
place-Sorted (q ∷ m) p (a, s) = elim (Bool-cases (bin_eq q.key p.key)) [
  | inl e ↦ rw e (a, s)
  | inr e ↦ rw e (elim (Bool-cases (bin_lt p.key q.key)) [
    | inl l ↦ rw l ((l, All-above p.key q.key m l a), (a, s))
    | inr l ↦ rw l (
      All-place (λ r. bin_lt q.key r.key ≡ true) m p (λ r h _ _. h) a
          (bin_lt_total p.key q.key (ground (arith, bin_eq_symm q.key p.key)) l),
      place-Sorted m p s,
    )
  ])
]

pub remove-Sorted : (m : List Pair) (key : Bytes) → Sorted m → Sorted (remove m key)
unfolding remove
remove-Sorted [] key s = tt
remove-Sorted (q ∷ m) key (a, s) = elim (Bool-cases (bin_eq q.key key)) [
  | inl e ↦ rw e s
  | inr e ↦ rw e (All-remove (λ r. bin_lt q.key r.key ≡ true) m key a, remove-Sorted m key s)
]

pub length-place-le : (m : List Pair) (p : Pair) → length (place m p) ≤ length m + 1
unfolding place
length-place-le [] p = omega arith
length-place-le (q ∷ m) p = ground (arith, length-place-le m p)

pub length-remove-le : (m : List Pair) (key : Bytes) → length (remove m key) ≤ length m
unfolding remove
length-remove-le [] key = omega arith
length-remove-le (q ∷ m) key = ground (arith, length-remove-le m key)

-- What `map_put` keeps: the order, and one slot at most is filled.
pub map_put-Sorted : (m : List Pair) (p : Pair) → Sorted m → Sorted (map_put m p)
map_put-Sorted m p s = rw (map_put-place m p) (place-Sorted m p s)

pub length-map_put-le : (m : List Pair) (p : Pair) → length (map_put m p) ≤ length m + 1
length-map_put-le m p = rw (map_put-place m p) (length-place-le m p)

pub map_delete-Sorted : (m : List Pair) (key : Bytes) → Sorted m → Sorted (map_delete m key)
map_delete-Sorted m key s = rw (map_delete-remove m key) (remove-Sorted m key s)

pub length-map_delete-le : (m : List Pair) (key : Bytes) → length (map_delete m key) ≤ length m
length-map_delete-le m key = rw (map_delete-remove m key) (length-remove-le m key)
