-- ===== src/Pairs/Lookup.antt =====
-- Lookups after `map_put` and `map_delete`.
use diode_server.Base.{
  ◌≡◌, refl, true, false, none, some, List, [], ◌∷◌, if◌then◌else◌, arith, All, Bool-cases, inl,
  inr, sym, ◌∙◌,
}
use diode_server.Base.Bytes.{
  Bytes, bin_eq, bin_lt, bin_eq_sound, bin_eq_refl, bin_eq_symm, bin_lt_irrefl, bin_lt_trans,
}
use diode_server.Pairs.{Pair, Sorted, Hashed, map_put, map_delete, map_get}
use diode_server.Pairs.Place.{place, remove, map_put-place, map_delete-remove}

pub map_get-none_of_lt :
    (m : List Pair) (key : Bytes)
    → All (λ (r : Pair). bin_lt key r.key ≡ true) m
    → map_get m key ≡ none
unfolding map_get
map_get-none_of_lt [] key a = refl
map_get-none_of_lt (q ∷ m) key (l, a) = elim (Bool-cases (bin_eq q.key key)) [
  | inl e ↦
      let same : q.key ≡ key = bin_eq_sound q.key key e in
      let less : bin_lt key key ≡ true = rw same at l in cc (bin_lt_irrefl key, less)
  | inr e ↦ rw e (map_get-none_of_lt m key a)
]

map_get-none_of_above :
    (a b : Bytes) (m : List Pair)
    → bin_lt a b ≡ true
    → All (λ (r : Pair). bin_lt b r.key ≡ true) m
    → map_get m a ≡ none
unfolding map_get
map_get-none_of_above a b [] h s = refl
map_get-none_of_above a b (q ∷ m) h (t, s) = elim (Bool-cases (bin_eq q.key a)) [
  | inl e ↦
      let same : q.key ≡ a = bin_eq_sound q.key a e in
      let back : bin_lt b a ≡ true = rw same at t in cc (bin_lt_irrefl a, bin_lt_trans a b a h back)
  | inr e ↦ rw e (map_get-none_of_above a b m h s)
]

-- Two pairs with the same key and value, whose hashes are those of their keys.
pub replaced :
    (q p : Pair) → q.key ≡ p.key → q.key_hash ≡ p.key_hash → record q { value = p.value } ≡ p
replaced q p e h = λ i. record { key = e i; value = p.value; key_hash = h i }

module _ (sha : Bytes → Bytes) where
  map_get-place :
      (m : List Pair) (p : Pair) (key : Bytes)
      → Sorted m
      → All (Hashed sha) m
      → Hashed sha p
      → map_get (place m p) key ≡ (if bin_eq p.key key then some p else map_get m key)
  unfolding map_get place
  map_get-place [] p key s a h = refl
  map_get-place (q ∷ m) p key (b, s) (g, a) h = elim (Bool-cases (bin_eq q.key p.key)) [
    | inl e ↦
        let same : q.key ≡ p.key = bin_eq_sound q.key p.key e in
        let hashes : q.key_hash ≡ p.key_hash = g ∙ ap_sha same ∙ sym h in
        rw (e, replaced q p same hashes) (rw same (ground arith))
    | inr e ↦ rw e (elim (Bool-cases (bin_lt p.key q.key)) [
      | inl l ↦ rw l refl
      | inr l ↦
          rw (l, map_get-place m p key s a h)
            (elim (Bool-cases (bin_eq q.key key)) [
              | inl c ↦ rw c (elim (Bool-cases (bin_eq p.key key)) [
                | inl d ↦
                    absurd
                      (clash q.key p.key e (bin_eq_sound q.key key c) (bin_eq_sound p.key key d))
                | inr d ↦ rw d refl
              ])
              | inr c ↦ rw c refl
            ])
    ])
  ]
    where
      ap_sha : {x y : Bytes} → x ≡ y → sha x ≡ sha y
      ap_sha e = λ i. sha (e i)

      clash : (x y : Bytes) → bin_eq x y ≡ false → x ≡ key → y ≡ key → ⊥
      clash x y ne p q =
          let same : bin_eq y y ≡ false = rw (p ∙ sym q) at ne in cc (bin_eq_refl y, same)

  -- A lookup after `map_put` finds the new pair under its key, and the old pairs under all others.
  pub map_get-map_put :
      (m : List Pair) (p : Pair) (key : Bytes)
      → Sorted m
      → All (Hashed sha) m
      → Hashed sha p
      → map_get (map_put m p) key ≡ (if bin_eq p.key key then some p else map_get m key)
  map_get-map_put m p key s a h = rw (map_put-place m p) (map_get-place m p key s a h)

map_get-remove :
    (m : List Pair) (old key : Bytes)
    → Sorted m
    → map_get (remove m old) key ≡ (if bin_eq old key then none else map_get m key)
unfolding map_get remove
map_get-remove [] old key s = ground arith
map_get-remove (q ∷ m) old key (b, s) = elim (Bool-cases (bin_eq q.key old)) [
  | inl e ↦
      let same : q.key ≡ old = bin_eq_sound q.key old e in
      rw (e, same)
        (elim (Bool-cases (bin_eq old key)) [
          | inl c ↦
              let at : q.key ≡ key = same ∙ bin_eq_sound old key c in
              rw c (map_get-none_of_lt m key (rw at at b))
          | inr c ↦ rw c refl
        ])
  | inr e ↦
      rw (e, map_get-remove m old key s)
        (elim (Bool-cases (bin_eq q.key key)) [
          | inl c ↦
              let same : q.key ≡ key = bin_eq_sound q.key key c in
              let other : bin_eq key old ≡ false = rw same at e in
              rw (c, bin_eq_symm old key, other) refl
          | inr c ↦ rw c refl
        ])
]

-- A lookup after `map_delete` misses under the deleted key, and finds the rest as before.
pub map_get-map_delete :
    (m : List Pair) (old key : Bytes)
    → Sorted m
    → map_get (map_delete m old) key ≡ (if bin_eq old key then none else map_get m key)
map_get-map_delete m old key s = rw (map_delete-remove m old) (map_get-remove m old key s)
