-- ===== src/Resource/Steps.antt =====
-- The changes that the functions on resources of c_src/nif.cpp make to the heap, and what they do to
-- its counters.
use diode_server.Base.{
  ℕ, suc, ◌+◌, ◌-◌, ◌<◌, ◌≡◌, refl, ap, sym, subst, ◌∙◌, false, Option, none, some, List, [], ◌∷◌,
  ◌++◌, ◌==◌, ==→eq, ==_refl, set, length, length-set, arith, Bool-cases, inl, inr,
}
use diode_server.Base.Cells.{some-length, get_or-append, one_if, count, count-append, is_some}
use diode_server.Trie.{Item, empty}
use diode_server.Resource.{SharedState, Merkletree, Heap, at}
use diode_server.Resource.Counts.{uses, owners, Counted, uses-set, live-set, at_end, owned-set}

-- A new resource on the state `s`
abbrev pub on_state : ℕ → Option Merkletree
on_state s = some (record { shared_state = s; references = 1 })

-- A heap behind one change: a new resource on a new state, another count of references, another
-- tree, a new resource on a state that is there, the end of a resource with its state or without,
-- and a resource that moves to a copy of its state.
pub data Change (h : Heap) : Heap → Type 0 where
  created : Change h (record {
    states = h.states ++ some (record { tree = empty; has_clone = 0 }) ∷ [];
    merkletrees = h.merkletrees ++ on_state (length h.states) ∷ [];
    shared_states = h.shared_states + 1;
  })
  adjusted :
      (mt n : ℕ) (r : Merkletree)
      → at h.merkletrees mt ≡ some r
      → Change h
          (record h { merkletrees = set h.merkletrees mt (some (record r { references = n })) })
  planted :
      (s : ℕ) (state : SharedState) (t : Item)
      → at h.states s ≡ some state
      → Change h (record h { states = set h.states s (some (record state { tree = t })) })
  cloned :
      (s : ℕ) (state : SharedState)
      → at h.states s ≡ some state
      → Change h (record h {
        states = set h.states s (some (record state { has_clone = state.has_clone + 1 }));
        merkletrees = h.merkletrees ++ on_state s ∷ [];
      })
  ended :
      (mt : ℕ) (r : Merkletree) (state : SharedState)
      → at h.merkletrees mt ≡ some r
      → at h.states r.shared_state ≡ some state
      → state.has_clone ≡ 0
      → Change h (record {
        states = set h.states r.shared_state none;
        merkletrees = set h.merkletrees mt none;
        shared_states = h.shared_states - 1;
      })
  left :
      (mt : ℕ) (r : Merkletree) (state : SharedState)
      → at h.merkletrees mt ≡ some r
      → at h.states r.shared_state ≡ some state
      → (state.has_clone == 0) ≡ false
      → Change h (record h {
        states =
            set h.states r.shared_state (some (record state { has_clone = state.has_clone - 1 }));
        merkletrees = set h.merkletrees mt none;
      })
  detached :
      (mt : ℕ) (r : Merkletree) (state : SharedState)
      → at h.merkletrees mt ≡ some r
      → at h.states r.shared_state ≡ some state
      → (state.has_clone == 0) ≡ false
      → Change h (record h {
        states =
            set h.states r.shared_state (some (record state { has_clone = state.has_clone - 1 }))
            ++ some (record { tree = state.tree; has_clone = 0 }) ∷ [];
        merkletrees = set h.merkletrees mt (some (record r { shared_state = length h.states }));
        shared_states = h.shared_states + 1;
      })

-- The state that a change leaves alone has as many resources as before.
uses-set_ne :
    (ms : List (Option Merkletree)) (mt : ℕ) (r : Merkletree) (v : Option Merkletree) (s : ℕ)
    → at ms mt ≡ some r
    → (r.shared_state == s) ≡ false
    → uses s v ≡ false
    → count (uses s) (set ms mt v) ≡ count (uses s) ms
uses-set_ne ms mt r v s e ne nv =
    let moved = uses-set ms mt r v s e in
    let was = ap one_if ne in let is = ap one_if nv in omega (arith, moved, was, is)

-- The state of a resource that goes has one less.
pub uses-set_here :
    (ms : List (Option Merkletree)) (mt : ℕ) (r : Merkletree) (v : Option Merkletree)
    → at ms mt ≡ some r
    → uses r.shared_state v ≡ false
    → count (uses r.shared_state) (set ms mt v) + 1 ≡ count (uses r.shared_state) ms
uses-set_here ms mt r v e nv =
    let moved = uses-set ms mt r v r.shared_state e in
    let was = ap one_if (==_refl r.shared_state) in
    let is = ap one_if nv in omega (arith, moved, was, is)

pub owned_at :
    (h : Heap) (s : ℕ) (state : SharedState)
    → Counted h
    → at h.states s ≡ some state
    → count (uses s) h.merkletrees ≡ suc state.has_clone
owned_at h s state c e = c.owned s ∙ ap owners e

-- A state that is added has the resource that is added or moved.
owned-append :
    (states : List (Option SharedState)) (ms ms' : List (Option Merkletree)) (n : ℕ)
    (v : Option SharedState)
    → length states ≡ n
    → ((s : ℕ) → count (uses s) ms ≡ owners (at states s))
    → ((s : ℕ) → (n == s) ≡ false → count (uses s) ms' ≡ count (uses s) ms)
    → count (uses n) ms' ≡ count (uses n) ms + owners v
    → (s : ℕ) → count (uses s) ms' ≡ owners (at (states ++ v ∷ []) s)
owned-append states ms ms' n v len owned others here s = elim (Bool-cases (n == s)) [
  | inl e ↦
      let same : n ≡ s = ==→eq n s e in
      let none_yet : count (uses n) ms ≡ 0 =
        owned n ∙ ap owners (ap (at states) (sym len) ∙ at_end states) in
      let now : count (uses n) ms' ≡ owners v = omega (arith, here, none_yet) in
      rw (get_or-append states s v none, len, e)
        (subst (λ x. count (uses x) ms' ≡ owners v) same now)
  | inr e ↦ rw (get_or-append states s v none, len, e) (others s e ∙ owned s)
]

-- A shared state that loses a resource.
left-owned :
    (h : Heap) (mt : ℕ) (r : Merkletree) (state : SharedState)
    → Counted h
    → at h.merkletrees mt ≡ some r
    → at h.states r.shared_state ≡ some state
    → (state.has_clone == 0) ≡ false
    → (s : ℕ)
    → count (uses s) (set h.merkletrees mt none)
      ≡ owners (
          at
            (set h.states r.shared_state (some (record state { has_clone = state.has_clone - 1 })))
            s)
left-owned h mt r state c e g z =
    owned-set h.states h.merkletrees _ r.shared_state _ (some-length h.states r.shared_state g)
      c.owned (λ s ne. uses-set_ne h.merkletrees mt r none s e ne refl)
      (let some_left : 0 < state.has_clone = ground arith in
        omega (
          arith,
          uses-set_here h.merkletrees mt r none e refl,
          owned_at h r.shared_state state c g,
          some_left,
        ))

-- Every change keeps the counters right.
pub Change-Counted : {h h' : Heap} → Change h h' → Counted h → Counted h'
Change-Counted {h} created c = record {
  owned =
      owned-append h.states h.merkletrees _ (length h.states) _ refl c.owned
        (λ s e.
          let none_new = ap one_if e in
          omega (arith, count-append (uses s) h.merkletrees (on_state (length h.states)), none_new))
        (let one_new = ap one_if (==_refl (length h.states)) in
          omega (
            arith,
            count-append (uses (length h.states)) h.merkletrees (on_state (length h.states)),
            one_new,
          ));
  shared = omega (arith, c.shared, count-append is_some h.states (some _));
}
Change-Counted {h} (adjusted mt n r e) c = record {
  owned = λ s.
      let moved = uses-set h.merkletrees mt r (some (record r { references = n })) s e in
      omega (arith, moved, c.owned s);
  shared = c.shared;
}
Change-Counted {h} (planted s state t e) c = record {
  owned =
      owned-set h.states h.merkletrees h.merkletrees s _ (some-length h.states s e) c.owned
        (λ i ne. refl) (owned_at h s state c e);
  shared = omega (arith, c.shared, live-set h.states s state (some (record state { tree = t })) e);
}
Change-Counted {h} (cloned s state e) c = record {
  owned =
      owned-set h.states h.merkletrees _ s _ (some-length h.states s e) c.owned
        (λ i ne.
          let none_new = ap one_if ne in
          omega (arith, count-append (uses i) h.merkletrees (on_state s), none_new))
        (let one_new = ap one_if (==_refl s) in
          omega (
            arith,
            count-append (uses s) h.merkletrees (on_state s),
            one_new,
            owned_at h s state c e,
          ));
  shared = omega (
    arith,
    c.shared,
    live-set h.states s state (some (record state { has_clone = state.has_clone + 1 })) e,
  );
}
Change-Counted {h} (ended mt r state e g z) c = record {
  owned =
      owned-set h.states h.merkletrees _ r.shared_state none (some-length h.states r.shared_state g)
        c.owned (λ s ne. uses-set_ne h.merkletrees mt r none s e ne refl)
        (omega (
          arith,
          uses-set_here h.merkletrees mt r none e refl,
          owned_at h r.shared_state state c g,
          z,
        ));
  shared = omega (arith, c.shared, live-set h.states r.shared_state state none g);
}
Change-Counted {h} (left mt r state e g z) c = record {
  owned = left-owned h mt r state c e g z;
  shared = omega (
    arith,
    c.shared,
    live-set h.states r.shared_state state (some (record state { has_clone = state.has_clone - 1 }))
        g,
  );
}
Change-Counted {h} (detached mt r state e g z) c = record {
  owned =
      let gone = set h.merkletrees mt none in
      let behind = some (record r { shared_state = length h.states }) in
      let moved : (s : ℕ)
          → count (uses s) (set h.merkletrees mt behind)
            ≡ count (uses s) gone + one_if (length h.states == s) =
        λ s.
          omega
            (arith, uses-set h.merkletrees mt r behind s e, uses-set h.merkletrees mt r none s e) in
      owned-append _ gone (set h.merkletrees mt behind) (length h.states)
        (some (record { tree = state.tree; has_clone = 0 })) (length-set h.states r.shared_state _)
        (left-owned h mt r state c e g z)
        (λ s ne. let away = ap one_if ne in omega (arith, moved s, away))
        (let here = ap one_if (==_refl (length h.states)) in
          omega (arith, moved (length h.states), here));
  shared = omega (
    arith,
    c.shared,
    count-append is_some
        (set h.states r.shared_state (some (record state { has_clone = state.has_clone - 1 })))
        (some (record { tree = state.tree; has_clone = 0 })),
    live-set h.states r.shared_state state (some (record state { has_clone = state.has_clone - 1 }))
        g,
  );
}
