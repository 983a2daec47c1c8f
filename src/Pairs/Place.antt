-- ===== src/Pairs/Place.antt =====
-- The index loops of `map_put` and `map_delete` against recursions on the bucket.
use mathlib.Core.List.{append_assoc}
use diode_server.Base.{
  suc, ◌≡◌, refl, ap, List, [], ◌∷◌, ◌++◌, if◌then◌else◌, length, Bool-cases, inl, inr, ◌∙◌,
}
use diode_server.Base.Bytes.{Bytes, bin_eq, bin_lt}
use diode_server.Pairs.{
  Pair, insert, erase, set_value, push_back, delete_from, map_delete, put_from, map_put,
}

-- `p` at its place in an ascending bucket: in place of the pair with its key, or before the first
-- pair with a larger key.
unfoldable pub place : List Pair → Pair → List Pair
place [] p = p ∷ []
place (q ∷ m) p =
    if bin_eq q.key p.key
    then record q { value = p.value } ∷ m
    else if bin_lt p.key q.key
    then p ∷ q ∷ m
    else q ∷ place m p

-- The bucket without the first pair that has the key.
unfoldable pub remove : List Pair → Bytes → List Pair
remove [] key = []
remove (q ∷ m) key = if bin_eq q.key key then m else q ∷ remove m key

module _ (m : List Pair) where
  insert_at : (pre : List Pair) (p : Pair) → insert (pre ++ m) (length pre) p ≡ pre ++ p ∷ m
  unfolding insert
  insert_at [] p = elim m as (λ m. insert m 0 p ≡ p ∷ m) [ [] ↦ refl | q ∷ r ↦ refl ]
  insert_at (q ∷ pre) p = ap (◌∷◌ q) (insert_at pre p)

  set_value_at :
      (pre : List Pair) (q : Pair) (v : Bytes)
      → set_value (pre ++ q ∷ m) (length pre) v ≡ pre ++ record q { value = v } ∷ m
  unfolding set_value
  set_value_at [] q v = refl
  set_value_at (r ∷ pre) q v = ap (◌∷◌ r) (set_value_at pre q v)

  erase_at : (pre : List Pair) (q : Pair) → erase (pre ++ q ∷ m) (length pre) ≡ pre ++ m
  unfolding erase
  erase_at [] q = refl
  erase_at (r ∷ pre) q = ap (◌∷◌ r) (erase_at pre q)

length-snoc : (pre : List Pair) (q : Pair) → length (pre ++ q ∷ []) ≡ suc (length pre)
length-snoc [] q = refl
length-snoc (r ∷ pre) q = ap suc (length-snoc pre q)

module _ (p : Pair) where
  put_from-place :
      (rest pre : List Pair) → put_from (length pre) rest (pre ++ rest) p ≡ pre ++ place rest p
  unfolding put_from place push_back
  put_from-place [] pre = rw (append_assoc pre [] (p ∷ []))
  put_from-place (q ∷ rest) pre =
      let step : put_from (suc (length pre)) rest (pre ++ q ∷ rest) p ≡ pre ++ q ∷ place rest p =
        rw (← append_assoc pre (q ∷ []) rest, ← length-snoc pre q)
          (put_from-place rest (pre ++ q ∷ []) ∙ append_assoc pre (q ∷ []) (place rest p)) in
      elim (Bool-cases (bin_eq q.key p.key)) [
        | inl e ↦ rw e (set_value_at rest pre q p.value)
        | inr e ↦ rw e (elim (Bool-cases (bin_lt p.key q.key)) [
          | inl l ↦ rw l (insert_at (q ∷ rest) pre p)
          | inr l ↦ rw l step
        ])
      ]

delete_from-remove :
    (rest pre : List Pair) (key : Bytes)
    → delete_from (length pre) rest (pre ++ rest) key ≡ pre ++ remove rest key
unfolding delete_from remove
delete_from-remove [] pre key = refl
delete_from-remove (q ∷ rest) pre key =
    let step : delete_from (suc (length pre)) rest (pre ++ q ∷ rest) key
        ≡ pre ++ q ∷ remove rest key =
      rw (← append_assoc pre (q ∷ []) rest, ← length-snoc pre q)
        (delete_from-remove rest (pre ++ q ∷ []) key
          ∙ append_assoc pre (q ∷ []) (remove rest key)) in
    elim (Bool-cases (bin_eq q.key key)) [ inl e ↦ rw e (erase_at rest pre q) | inr e ↦ rw e step ]

pub map_put-place : (m : List Pair) (p : Pair) → map_put m p ≡ place m p
unfolding map_put
map_put-place m p = put_from-place p m []

pub map_delete-remove : (m : List Pair) (key : Bytes) → map_delete m key ≡ remove m key
unfolding map_delete
map_delete-remove m key = delete_from-remove m [] key
