-- ===== src/Map/Probe.antt =====
-- The way that the EVM host's `Map` takes through its slots (evm/host.hpp).
use diode_server.Base.{
  ℕ, zero, suc, ◌+◌, ◌-◌, ◌*◌, ◌%◌, ◌≤◌, ◌<◌, ◌≡◌, refl, ◌∙◌, Bool, true, false, ◌&&◌, not, none,
  some, ltb, ◌==◌, get_or, arith, Bool-cases, inl, inr, if_false,
}
use diode_server.Map.{Map, size, capacity, at, probe, find}
use native.Mathlib.Nat.{mod-eq_of_lt, mod-eq-sub-mod, mod-lt}

-- The slots that a step of 1051 leads to, where 1051 divides the capacity, leave one remainder.
step-mod :
    (k i : ℕ)
    → i < k * 1051
    → (((i + 1051) % (k * 1051)) < k * 1051) × ((i + 1051) % (k * 1051) % 1051 ≡ i % 1051)
step-mod k i h = elim (Bool-cases (ltb (i + 1051) (k * 1051))) [
  | inl e ↦ let small : i + 1051 < k * 1051 = ground arith in rw (mod-eq_of_lt small) (omega arith)
  | inr e ↦
      let large : k * 1051 ≤ i + 1051 = ground arith in
      let rest : i + 1051 - k * 1051 < k * 1051 = omega arith in
      rw (mod-eq-sub-mod large, mod-eq_of_lt rest) (omega arith)
]

module _ {ℓ κ} {K : Type ℓ} {V : Type κ} (hasher : K → ℕ) (same : K → K → Bool)
    (zero_value : V) where
  -- The slot holds an entry of another key.
  pub record Taken (m : Map K V) (key : K) (i : ℕ) : Type (ℓ ⊔ κ) where
    pub index : ltb 0 (get_or m.indexes i 0) ≡ true
    pub other : K × V
    pub here : at m i ≡ some other
    pub differs : same other.0 key ≡ false

  -- Every slot whose number has the remainder `r` modulo 1051 holds another key.
  abbrev pub ClassTaken : Map K V → K → ℕ → Type (ℓ ⊔ κ)
  ClassTaken m key r = (i : ℕ) → i < capacity m → i % 1051 ≡ r → Taken m key i

  probe_hangs :
      (fuel k : ℕ) (m : Map K V) (key : K) (i r : ℕ)
      → capacity m ≡ k * 1051
      → ClassTaken m key r
      → i < capacity m
      → i % 1051 ≡ r
      → probe hasher same zero_value fuel m key i ≡ none
  unfolding probe
  probe_hangs zero k m key i r size full h e = refl
  probe_hangs (suc fuel) k m key i r size full h e =
      let t = full i h e in
      let (inside, class) = step-mod k i (omega arith) in
      let next : (i + 1051) % capacity m < capacity m = rw size inside in
      let stays : (i + 1051) % capacity m % 1051 ≡ r = rw size (class ∙ e) in
      rw (t.index, t.here, t.differs)
        (probe_hangs fuel k m key ((i + 1051) % capacity m) r size full next stays)

  -- In a `Map` with entries whose capacity is a multiple of 1051 and not 0, the loop of `get` for a key
  -- that is not there ends with no fuel, if all slots of the remainder of its hash modulo 1051 hold
  -- other keys: the step of 1051 never leaves them, however many other slots are free.
  pub find_hangs :
      (fuel k : ℕ) (m : Map K V) (key : K) (ensure : Bool)
      → capacity m ≡ k * 1051
      → 0 < k
      → 0 < size m
      → ClassTaken m key (hasher key % capacity m % 1051)
      → find hasher same zero_value fuel m key ensure ≡ none
  unfolding find
  find_hangs fuel k m key ensure c pos some_entry full =
      let used : (size m == 0) ≡ false = ground arith in
      let inside : hasher key % capacity m < capacity m = mod-lt (hasher key) (omega arith) in
      if_false {b = size m == 0 && not ensure} (some (m, none)) _ (rw used)
      ∙ rw (
          probe_hangs fuel k m key (hasher key % capacity m) (hasher key % capacity m % 1051) c full
            inside refl)
