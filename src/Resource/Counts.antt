-- ===== src/Resource/Counts.antt =====
-- What the counters of the heap of c_src/nif.cpp count: `has_clone` the resources on a state but one,
-- and the statistic the states that are not freed.
use diode_server.Base.{
  ℕ, suc, ◌+◌, ◌<◌, ◌≡◌, refl, ap, subst, ◌∙◌, Bool, false, Option, none, some, List, [], ◌∷◌, ◌==◌,
  ==→eq, get_or, set, length, arith, Bool-cases, inl, inr,
}
use diode_server.Base.Cells.{
  get_or-set, get_or-set_ne, some-length, one_if, count, count-set, count_none, is_some,
}
use diode_server.Resource.{SharedState, Merkletree, Heap, at}

-- Whether a resource is on the state `s`
abbrev pub uses : ℕ → Option Merkletree → Bool
uses s none = false
uses s (some r) = r.shared_state == s

-- The resources that a state has according to `has_clone`
abbrev pub owners : Option SharedState → ℕ
owners none = 0
owners (some state) = suc state.has_clone

-- Every state has one resource more than `has_clone`, a freed one has none, and the statistic is the
-- number of the states that are there.
pub record Counted (h : Heap) : Type 0 where
  pub owned : (s : ℕ) → count (uses s) h.merkletrees ≡ owners (at h.states s)
  pub shared : h.shared_states ≡ count is_some h.states

pub uses-set :
    (ms : List (Option Merkletree)) (mt : ℕ) (r : Merkletree) (v : Option Merkletree) (s : ℕ)
    → at ms mt ≡ some r
    → count (uses s) (set ms mt v) + one_if (r.shared_state == s)
      ≡ count (uses s) ms + one_if (uses s v)
uses-set ms mt r v s e =
    subst
      (λ o.
        count (uses s) (set ms mt v) + one_if (uses s o) ≡ count (uses s) ms + one_if (uses s v))
      e (count-set (uses s) ms mt v none (some-length ms mt e))

pub live-set {ℓ} :
    {A : Type ℓ} (xs : List (Option A)) (i : ℕ) (a : A) (v : Option A)
    → get_or xs i none ≡ some a
    → count is_some (set xs i v) + 1 ≡ count is_some xs + one_if (is_some v)
live-set xs i a v e =
    subst
      (λ o. count is_some (set xs i v) + one_if (is_some o) ≡ count is_some xs + one_if (is_some v))
      e (count-set is_some xs i v none (some-length xs i e))

-- The positions behind the end
pub at_end {ℓ} : {A : Type ℓ} (xs : List (Option A)) → get_or xs (length xs) none ≡ none
at_end [] = refl
at_end (x ∷ xs) = at_end xs

-- The counts of the states behind a change of one of them and of the resources
pub owned-set :
    (states : List (Option SharedState)) (ms ms' : List (Option Merkletree)) (i : ℕ)
    (v : Option SharedState)
    → i < length states
    → ((s : ℕ) → count (uses s) ms ≡ owners (at states s))
    → ((s : ℕ) → (i == s) ≡ false → count (uses s) ms' ≡ count (uses s) ms)
    → count (uses i) ms' ≡ owners v
    → (s : ℕ) → count (uses s) ms' ≡ owners (at (set states i v) s)
owned-set states ms ms' i v bound owned others here s = elim (Bool-cases (i == s)) [
  | inl e ↦
      let same : i ≡ s = ==→eq i s e in
      rw (get_or-set states i s v none bound, e)
        (subst (λ x. count (uses x) ms' ≡ owners v) same here)
  | inr e ↦ rw (get_or-set_ne states i s v none e) (others s e ∙ owned s)
]

-- A resource is on a state that is there.
pub Counted-state :
    (h : Heap) (mt : ℕ) (r : Merkletree)
    → Counted h
    → at h.merkletrees mt ≡ some r
    → (state : SharedState) × (at h.states r.shared_state ≡ some state)
Counted-state h mt r c e = go (at h.states r.shared_state) refl
  where
    go :
        (o : Option SharedState)
        → at h.states r.shared_state ≡ o
        → (state : SharedState) × (at h.states r.shared_state ≡ some state)
    go (some state) g = (state, g)
    go none g =
        let zero_uses : count (uses r.shared_state) h.merkletrees ≡ 0 =
          c.owned r.shared_state ∙ ap owners g in
        let unused =
          count_none (uses r.shared_state) h.merkletrees mt none (some-length h.merkletrees mt e)
            zero_uses in
        let used : (r.shared_state == r.shared_state) ≡ false =
          subst (λ o. uses r.shared_state o ≡ false) e unused in
        absurd (ground (arith, used))
