-- ===== src/Map/Entries.antt =====
-- What the entries of the EVM host's `Map` (evm/host.hpp) have in common, and how many they are.
use diode_server.Base.{
  ℕ, zero, suc, ◌+◌, ◌*◌, ◌/◌, ◌%◌, ◌≤◌, ◌≡◌, sym, ◌∙◌, subst, Bool, true, false, Option, none,
  some, List, [], ◌∷◌, ◌++◌, if◌then◌else◌, ltb, >>=-eq-some, eq_of_some, length, get_or, set,
  replicate, All, length-append, length-set, arith, Bool-cases, inl, inr, if_true, if_false, not,
  ◌==◌, ◌&&◌,
}
use diode_server.Map.{
  Map, size, capacity, entry, probe, settle, find, set_each, resize, assign, get, map_set,
}

All-set {ℓ κ} :
    {A : Type ℓ} (P : A → Type κ) (xs : List A) (i : ℕ) (v : A)
    → All P xs
    → P v
    → All P (set xs i v)
All-set P [] i v a p = a
All-set P (x ∷ xs) zero v (h, t) p = (p, t)
All-set P (x ∷ xs) (suc i) v (h, t) p = (h, All-set P xs i v t p)

All-last {ℓ κ} :
    {A : Type ℓ} (P : A → Type κ) (xs : List A) (v : A) → All P xs → P v → All P (xs ++ v ∷ [])
All-last P [] v a p = (p, tt)
All-last P (x ∷ xs) v (h, t) p = (h, All-last P xs v t p)

All-entry {ℓ κ} :
    {K : Type ℓ} {V : Type ℓ} (P : K × V → Type κ) (xs : List (K × V)) (i : ℕ) (e : K × V)
    → All P xs
    → entry xs i ≡ some e
    → P e
All-entry P [] i e a run = cc
All-entry P (x ∷ xs) zero e (h, t) run = subst P (eq_of_some run) h
All-entry P (x ∷ xs) (suc i) e (h, t) run = All-entry P xs i e t run

module _ {K V : Type 0} (IsKey : K → Type 0) (IsValue : V → Type 0) where
  -- At most `n` entries, all of them good.
  pub record Holds (n : ℕ) (m : Map K V) : Type 0 where
    pub entries : All (λ e. IsKey e.0 × IsValue e.1) m.list
    pub few : size m ≤ n

  -- A call of `set` or `get` adds one entry at most.
  abbrev Puts : (Map K V → K → V → Option (Map K V)) → Type 0
  Puts put =
      (n : ℕ) (m m' : Map K V) (key : K) (value : V)
      → IsKey key
      → IsValue value
      → put m key value ≡ some m'
      → Holds n m
      → Holds (n + 1) m'

  abbrev Looks : (Map K V → K → Bool → Option (Map K V × Option ℕ)) → Type 0
  Looks look =
      (n : ℕ) (m : Map K V) (key : K) (ensure : Bool) (r : Map K V × Option ℕ)
      → IsKey key
      → look m key ensure ≡ some r
      → Holds n m
      → Holds (n + 1) r.0

  set_each-Holds :
      (put : Map K V → K → V → Option (Map K V)) (n : ℕ) (es : List (K × V)) (m m' : Map K V)
      → Puts put
      → All (λ e. IsKey e.0 × IsValue e.1) es
      → set_each put es m ≡ some m'
      → Holds n m
      → Holds (n + length es) m'
  unfolding set_each
  set_each-Holds put n [] m m' puts a run h =
      let few = h.few in
      subst (Holds (n + 0)) (eq_of_some run)
        (record { entries = h.entries; few = omega (arith, few) })
  set_each-Holds put n ((key, value) ∷ es) m m' puts (p, a) run h =
      let (m₁, first, rest) = >>=-eq-some (put m key value) (set_each put es) run in
      let held =
        set_each-Holds put (n + 1) es m₁ m' puts a rest (puts n m m₁ key value p.0 p.1 first h) in
      let few = held.few in record { entries = held.entries; few = omega (arith, few) }

  resize-Holds :
      (put : Map K V → K → V → Option (Map K V)) (n target : ℕ) (m m' : Map K V)
      → Puts put
      → resize put m target ≡ some m'
      → Holds n m
      → Holds n m'
  unfolding resize
  resize-Holds put n target m m' puts run h = elim (Bool-cases (ltb (capacity m) (target * 6))) [
    | inl e ↦
        let fresh : Map K V = record { indexes = replicate (target * 6) 0; list = [] } in
        let held =
          set_each-Holds put 0 m.list fresh m' puts h.entries (sym (if_true _ _ e) ∙ run)
            (record { entries = tt; few = omega arith }) in
        let few = held.few in
        let upper = h.few in record { entries = held.entries; few = omega (arith, few, upper) }
    | inr e ↦ subst (Holds n) (eq_of_some (sym (if_false _ _ e) ∙ run)) h
  ]

  assign-Holds :
      (look : Map K V → K → Bool → Option (Map K V × Option ℕ)) → Looks look → Puts (assign look)
  unfolding assign
  assign-Holds look looks n m m' key value k v run h =
      let (r, found, more) = >>=-eq-some (look m key true) _ run in
      let (i, at, rest) = >>=-eq-some r.1 _ more in
      let (e, read, done) = >>=-eq-some (entry r.0.list i) _ rest in
      let held = looks n m key true r k found h in
      let few = held.few in
      subst (Holds (n + 1)) (eq_of_some done) (record {
        entries =
            All-set (λ e. IsKey e.0 × IsValue e.1) r.0.list i (e.0, value) held.entries
              ((All-entry (λ e. IsKey e.0 × IsValue e.1) r.0.list i e held.entries read).0, v);
        few = omega (arith, length-set r.0.list i (e.0, value), few);
      })

module _ {K V : Type 0} (IsKey : K → Type 0) (IsValue : V → Type 0) (hasher : K → ℕ)
    (same : K → K → Bool) (zero_value : V) (good_zero : IsValue zero_value) where
  settle-Holds :
      (n : ℕ) (m : Map K V) (key : K) (ensure : Bool) (index : ℕ)
      → IsKey key
      → Holds IsKey IsValue n m
      → Holds IsKey IsValue (n + 1) (settle hasher same zero_value m key ensure index).0
  unfolding settle
  settle-Holds n m key ensure index k h = elim (Bool-cases (ltb 0 (get_or m.indexes index 0))) [
    | inl e ↦
        let few = h.few in
        subst (λ (r : Map K V × Option ℕ). Holds IsKey IsValue (n + 1) r.0) (sym (if_true _ _ e))
          (record { entries = h.entries; few = omega (arith, few) })
    | inr e ↦
        subst (λ (r : Map K V × Option ℕ). Holds IsKey IsValue (n + 1) r.0) (sym (if_false _ _ e))
          (added ensure)
  ]
    where
      added :
          (ensure : Bool)
          → Holds IsKey IsValue
              (n + 1)
              (if◌then◌else◌ {A = Map K V × Option ℕ} ensure
                (
                  record {
                    indexes = set m.indexes index (size m + 1);
                    list = m.list ++ (key, zero_value) ∷ [];
                  },
                  some (size m),
                )
                (m, none)).0
      added true =
          let few = h.few in
          record {
            entries =
                All-last (λ e. IsKey e.0 × IsValue e.1) m.list (key, zero_value) h.entries
                  (k, good_zero);
            few = omega (arith, length-append m.list ((key, zero_value) ∷ []), few);
          }
      added false = let few = h.few in record { entries = h.entries; few = omega (arith, few) }

  find-Holds : (fuel : ℕ) → Looks IsKey IsValue (find hasher same zero_value fuel)
  unfolding find
  find-Holds fuel n m key ensure r k run h = elim (Bool-cases (size m == 0 && not ensure)) [
    | inl e ↦
        let few = h.few in
        subst (λ (r : Map K V × Option ℕ). Holds IsKey IsValue (n + 1) r.0)
          (eq_of_some (sym (if_true _ _ e) ∙ run))
          (record { entries = h.entries; few = omega (arith, few) })
    | inr e ↦
        let (index, stop, done) =
          >>=-eq-some (probe hasher same zero_value fuel m key (hasher key % capacity m)) _
            (sym (if_false _ _ e) ∙ run) in
        subst (λ (r : Map K V × Option ℕ). Holds IsKey IsValue (n + 1) r.0) (eq_of_some done)
          (settle-Holds n m key ensure index k h)
  ]

  get-Looks : (fuel : ℕ) → Looks IsKey IsValue (get hasher same zero_value fuel)
  unfolding get
  get-Looks zero n m key ensure r k run h = cc
  get-Looks (suc fuel) n m key ensure r k run h =
      let (m', room, found) =
        >>=-eq-some
          (if ltb (capacity m / 4) (size m + 1)
            then resize (assign (get hasher same zero_value fuel)) m (size m + 100)
            else some m)
          (λ m'. find hasher same zero_value fuel m' key ensure) run in
      let held : Holds IsKey IsValue n m' = elim (Bool-cases (ltb (capacity m / 4) (size m + 1))) [
        | inl e ↦
            resize-Holds IsKey IsValue (assign (get hasher same zero_value fuel)) n (size m + 100) m
              m' (assign-Holds IsKey IsValue (get hasher same zero_value fuel) (get-Looks fuel))
              (sym (
                  if_true (resize (assign (get hasher same zero_value fuel)) m (size m + 100))
                    (some m) e)
                ∙ room)
              h
        | inr e ↦
            subst (Holds IsKey IsValue n)
              (eq_of_some (
                sym (
                  if_false (resize (assign (get hasher same zero_value fuel)) m (size m + 100))
                    (some m) e)
                ∙ room))
              h
      ] in
      find-Holds fuel n m' key ensure r k found held

  -- `set` adds one entry at most.
  pub map_set-Holds : (fuel : ℕ) → Puts IsKey IsValue (map_set hasher same zero_value fuel)
  unfolding map_set
  map_set-Holds fuel = assign-Holds IsKey IsValue (get hasher same zero_value fuel) (get-Looks fuel)
