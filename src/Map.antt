-- ===== src/Map.antt =====
-- The open-addressing `Map` of the EVM host (evm/host.hpp). `none` is a probe or a nested call that
-- runs out of fuel, or a read past the end. The hash function and the comparison of keys are those of
-- the key's type.
pub mod Entries
pub mod Probe
pub mod Tests
use diode_server.Base.{
  ℕ, zero, suc, ◌+◌, ◌-◌, ◌*◌, ◌/◌, ◌%◌, Bool, true, false, ◌&&◌, not, Option, none, some, List, [],
  ◌∷◌, ◌++◌, ltb, ◌==◌, if◌then◌else◌, ◌>>=◌, length, get_or, set, replicate,
}

-- `Map`: a slot of `indexes` holds 0, or a position of `list` plus 1.
pub record Map {ℓ κ} (K : Type ℓ) (V : Type κ) : Type (ℓ ⊔ κ) where
  pub indexes : List ℕ
  pub list : List (K × V)

module _ {ℓ κ} {K : Type ℓ} {V : Type κ} where
  -- A new `Map`, and one that `clear` emptied
  abbrev pub empty : Map K V
  empty = record { indexes = []; list = [] }

  -- `Map::capacity`
  abbrev pub capacity : Map K V → ℕ
  capacity m = length m.indexes

  -- `Map::size`
  abbrev pub size : Map K V → ℕ
  size m = length m.list

  -- `list[i]`
  abbrev pub entry : List (K × V) → ℕ → Option (K × V)
  entry [] i = none
  entry (e ∷ es) zero = some e
  entry (e ∷ es) (suc i) = entry es i

  -- `at(n)`
  unfoldable pub at : Map K V → ℕ → Option (K × V)
  at m n = entry m.list (get_or m.indexes n 0 - 1)

  -- `instance.set(data.key, data.value)` for each `data`
  unfoldable pub set_each :
      (Map K V → K → V → Option (Map K V)) → List (K × V) → Map K V → Option (Map K V)
  set_each put [] m = some m
  set_each put ((key, value) ∷ es) m = do m' ← put m key value; set_each put es m'

  -- `Map::resize`, with `set` for the new instance
  unfoldable pub resize : (Map K V → K → V → Option (Map K V)) → Map K V → ℕ → Option (Map K V)
  unfolding set_each
  resize put m target_size =
      if ltb (capacity m) (target_size * 6)
      then set_each put m.list (record { indexes = replicate (target_size * 6) 0; list = [] })
      else some m

  -- `ensure(key) = value`, with `get`
  unfoldable pub assign :
      (Map K V → K → Bool → Option (Map K V × Option ℕ)) → Map K V → K → V → Option (Map K V)
  assign look m key value = do
    (m', position) ← look m key true
    i ← position
    e ← entry m'.list i
    some (record m' { list = set m'.list i (e.0, value) })

module _ {ℓ κ} {K : Type ℓ} {V : Type κ} (hasher : K → ℕ) (same : K → K → Bool)
    (zero_value : V) where
  -- The loop of `Map::get`: the first slot on the way of the key that is free or holds the key
  unfoldable pub probe : ℕ → Map K V → K → ℕ → Option ℕ
  unfolding at
  probe zero m key index = none
  probe (suc fuel) m key index =
      let next = probe fuel m key ((index + 1051) % capacity m) in
      if ltb 0 (get_or m.indexes index 0)
      then elim (at m index) [ none ↦ none | some e ↦ if same e.0 key then some index else next ]
      else some index

  -- What `Map::get` does at the slot that the loop finds.
  unfoldable pub settle : Map K V → K → Bool → ℕ → Map K V × Option ℕ
  settle m key ensure index =
      if ltb 0 (get_or m.indexes index 0)
      then (m, some (get_or m.indexes index 0 - 1))
      else if ensure
      then (
        record {
          indexes = set m.indexes index (size m + 1);
          list = m.list ++ (key, zero_value) ∷ [];
        },
        some (size m),
      )
      else (m, none)

  -- `Map::get` with room: the position of the value in `list`, or the null pointer
  unfoldable pub find : ℕ → Map K V → K → Bool → Option (Map K V × Option ℕ)
  unfolding probe settle
  find fuel m key ensure =
      if size m == 0 && not ensure
      then some (m, none)
      else do index ← probe fuel m key (hasher key % capacity m); some (settle m key ensure index)

  -- `Map::get`, with fuel for the nested calls and for the rounds of the probe
  unfoldable pub get : ℕ → Map K V → K → Bool → Option (Map K V × Option ℕ)
  unfolding find resize assign
  get zero m key ensure = none
  get (suc fuel) m key ensure =
      let resized = resize (assign (get fuel)) m (size m + 100) in
      do m' ← if ltb (capacity m / 4) (size m + 1) then resized else some m; find fuel m' key ensure

  -- `Map::set`
  unfoldable pub map_set : ℕ → Map K V → K → V → Option (Map K V)
  unfolding get
  map_set fuel m key value = assign (get fuel) m key value

  -- `Map::get` and what its pointer reads
  unfoldable pub read : ℕ → Map K V → K → Option (Map K V × Option V)
  unfolding get
  read fuel m key = do
    (m', position) ← get fuel m key false
    some (m', position >>= λ i. entry m'.list i >>= λ e. some e.1)
