-- ===== src/Pool/Release.antt =====
-- Giving references up (`ItemPool::decr_ref` in c_src/item_pool.cpp): the slots stay accounted for,
-- and with fuel for the nodes that are in use the call returns.
use diode_server.Base.{
  ℕ, zero, suc, ◌+◌, ◌-◌, ◌≤◌, ◌<◌, ◌≡◌, refl, ap, sym, subst, ◌∙◌, Bool, false, Option, none, some,
  List, [], ◌∷◌, ◌==◌, ltb, ==→eq, ==_refl, if◌then◌else◌, get_or, set, length, length-set, arith,
  Bool-cases, inl, inr, if_true, if_false,
}
use diode_server.Pool.{Node, Pool, node_at, count_at, release, decr_ref}
use diode_server.Base.Cells.{one_if}
use diode_server.Pool.Edges.{edges, also}
use diode_server.Base.Cells.{get_or-set, get_or-set_ne}
use diode_server.Pool.Counts.{
  Counted, holding, lower, clear_slot, occurs, Kept, Kept-trans, count-lower, lower-Counted, alive,
  release-Counted, decr_ref-Gives,
}

abbrev pub full : Option Node → ℕ
full none = 0
full (some n) = 1

-- Each slot but the first is in the free list once or holds a node, never both, and what is counted
-- is a node.
pub record Sound (p : Pool) : Type 0 where
  pub first : 0 < length p.nodes
  pub sizes : length p.refcnt ≡ length p.nodes
  pub slots :
      (x : ℕ)
      → occurs x p.free_list + full (node_at p x)
        ≡ one_if (if ltb 0 x then ltb x (length p.nodes) else false)
  pub filled : (x : ℕ) → 0 < x → 0 < count_at p x → full (node_at p x) ≡ 1

lower-Sound : (p : Pool) (id : ℕ) → 0 < count_at p id → Sound p → Sound (lower p id)
lower-Sound p id positive s = record {
  first = s.first;
  sizes = length-set p.refcnt id (count_at p id - 1) ∙ s.sizes;
  slots = s.slots;
  filled = λ x h c. s.filled x h (omega (arith, count-lower p id positive x));
}

pub node_in : (xs : List (Option Node)) (i : ℕ) → full (get_or xs i none) ≡ 1 → i < length xs
node_in [] i h = absurd (omega arith)
node_in (x ∷ xs) zero h = omega arith
node_in (x ∷ xs) (suc i) h = omega (arith, node_in xs i h)

clear_slot-Sound :
    (p : Pool) (id : ℕ)
    → full (node_at p id) ≡ 1
    → count_at p id ≡ 0
    → Sound p
    → Sound (clear_slot p id)
clear_slot-Sound p id here free s = record {
  first = subst (λ n. 0 < n) (sym (length-set p.nodes id none)) s.first;
  sizes = s.sizes ∙ sym (length-set p.nodes id none);
  slots = λ x. elim (Bool-cases (id == x)) [
    | inl e ↦
        let at : id ≡ x = ==→eq id x e in
        let read = get_or-set p.nodes id x none none (node_in p.nodes id here) in
        let emptied : full (get_or (set p.nodes id none) x none) ≡ 0 = rw (read, e) in
        let was : full (node_at p x) ≡ 1 = subst (λ y. full (node_at p y) ≡ 1) at here in
        let added : occurs x (id ∷ p.free_list) ≡ 1 + occurs x p.free_list = rw e in
        rw (length-set p.nodes id none) (omega (arith, emptied, was, added, s.slots x))
    | inr e ↦
        let read = get_or-set_ne p.nodes id x none none e in
        let same : occurs x (id ∷ p.free_list) ≡ occurs x p.free_list = rw e (omega arith) in
        rw (length-set p.nodes id none, read) (omega (arith, same, s.slots x))
  ];
  filled = λ x h c. elim (Bool-cases (id == x)) [
    | inl e ↦ absurd (omega (arith, c, ap (count_at p) (==→eq id x e)))
    | inr e ↦ rw (get_or-set_ne p.nodes id x none none e) (s.filled x h c)
  ];
}

-- The number of ids that are counted.
unfoldable pub positives : List ℕ → ℕ
positives [] = 0
positives (n ∷ ns) = (if ltb 0 n then 1 else 0) + positives ns

positives-lower-le : (ns : List ℕ) (i : ℕ) → positives (set ns i (get_or ns i 0 - 1)) ≤ positives ns
unfolding positives
positives-lower-le [] i = omega arith
positives-lower-le (n ∷ ns) zero = ground arith
positives-lower-le (n ∷ ns) (suc i) = ground (arith, positives-lower-le ns i)

positives-lower-lt :
    (ns : List ℕ) (i : ℕ)
    → get_or ns i 0 ≡ 1
    → suc (positives (set ns i (get_or ns i 0 - 1))) ≡ positives ns
unfolding positives
positives-lower-lt [] i h = absurd (omega arith)
positives-lower-lt (n ∷ ns) zero h = rw h (omega arith)
positives-lower-lt (n ∷ ns) (suc i) h = omega (arith, positives-lower-lt ns i h)

-- The call returns, the slots stay accounted for, and no more nodes are in use.
pub record Ends (decr : Pool → ℕ → Option Pool) (p : Pool) (id : ℕ) : Type 0 where
  pub end : Pool
  pub returns : decr p id ≡ some end
  pub sound : Sound end
  pub fewer : positives end.refcnt ≤ positives p.refcnt

release-Ends :
    (fuel : ℕ) (p : Pool) (id : ℕ) (gone : ℕ → Bool) (held : ℕ → ℕ) (node : Option Node)
    → ((a : Pool) (i : ℕ) (g : ℕ → Bool) (h : ℕ → ℕ)
        → Counted g (holding i h) a
        → Sound a
        → positives a.refcnt < fuel
        → Ends (decr_ref fuel) a i)
    → Counted gone (holding id held) p
    → Sound p
    → positives p.refcnt < suc fuel
    → 0 < id
    → count_at p id ≡ 1
    → node_at p id ≡ node
    → (q : Pool) × (release (decr_ref fuel) id node (lower p id) ≡ some q)
      × Sound q
      × (positives q.refcnt ≤ positives p.refcnt)
unfolding release
release-Ends fuel p id gone held none again c s enough pos one here =
    let some_node = s.filled id pos (omega (arith, one)) in
    absurd (omega (arith, some_node, ap full here))
release-Ends fuel p id gone held (some n) again c s enough pos one here =
    let positive : 0 < count_at p id = omega (arith, one) in
    let lowered = lower-Counted p id positive c in
    let live = alive gone (holding id held) p id c positive in
    let self : one_if (id == id) ≡ 1 = rw (==_refl id) in
    let last : count_at (lower p id) id ≡ 0 =
      omega (arith, count-lower p id positive id, one, self) in
    let start = release-Counted gone held (lower p id) id n lowered live last here in
    let less = positives-lower-lt p.refcnt id one in
    let l =
      again (lower p id) n.left_id (also gone id) (holding n.right_id held) start
        (lower-Sound p id positive s) (omega (arith, less)) in
    let left =
      decr_ref-Gives fuel (lower p id) l.end n.left_id l.returns (also gone id)
        (holding n.right_id held) start in
    let l_fewer = l.fewer in
    let r =
      again l.end n.right_id (also gone id) held left.0 l.sound (omega (arith, less, l_fewer)) in
    let right = decr_ref-Gives fuel l.end r.end n.right_id r.returns (also gone id) held left.0 in
    let kept = Kept-trans (lower p id) l.end r.end left.1 right.1 id last in
    let r_fewer = r.fewer in
    (
      clear_slot r.end id,
      rw (l.returns, r.returns),
      clear_slot-Sound r.end id (ap full (kept.1 ∙ here)) kept.0 r.sound,
      omega (arith, less, l_fewer, r_fewer),
    )

decr_ref-Ends :
    (fuel : ℕ) (p : Pool) (id : ℕ) (gone : ℕ → Bool) (held : ℕ → ℕ)
    → Counted gone (holding id held) p
    → Sound p
    → positives p.refcnt < fuel
    → Ends (decr_ref fuel) p id
unfolding decr_ref
decr_ref-Ends zero p id gone held c s enough = absurd (omega arith)
decr_ref-Ends (suc fuel) p id gone held c s enough = elim (Bool-cases (id == 0)) [
  | inl null ↦ record { end = p; returns = if_true _ _ null; sound = s; fewer = omega arith }
  | inr some_id ↦
      let pos : 0 < id = ground arith in
      let self : one_if (id == id) ≡ 1 = rw (==_refl id) in
      let positive : 0 < count_at p id = omega (arith, c.balance id pos, self) in
      let counted : (count_at p id == 0) ≡ false = ground arith in
      elim (Bool-cases (ltb 0 (count_at p id - 1))) [
        | inl shared ↦ record {
          end = lower p id;
          returns = if_false _ _ some_id ∙ if_false _ _ counted ∙ if_true _ _ shared;
          sound = lower-Sound p id positive s;
          fewer = positives-lower-le p.refcnt id;
        }
        | inr last ↦
            let (q, run, sound, fewer) =
              release-Ends fuel p id gone held (node_at p id) (decr_ref-Ends fuel) c s enough pos
                (ground arith) refl in
            record {
              end = q;
              returns = if_false _ _ some_id ∙ if_false _ _ counted ∙ if_false _ _ last ∙ run;
              sound = sound;
              fewer = fewer;
            }
      ]
]

-- Every id but 0 is counted as often as nodes and outside references refer to it.
abbrev pub Balanced : (ℕ → ℕ) → Pool → Type 0
Balanced held p = (id : ℕ) → 0 < id → count_at p id ≡ edges (λ x. false) 0 p.nodes id + held id

all-Counted : (held : ℕ → ℕ) (p : Pool) → Balanced held p → Counted (λ x. false) held p
all-Counted held p b = record { balance = b; dead = λ x h. cc }

-- To give up a reference that is held outside, in a sound pool whose counts are right, with fuel for
-- more calls than there are ids with a count, returns a sound pool whose counts are right for the
-- references that are left; a node without a count keeps its slot.
pub decr_ref-Balanced :
    (fuel : ℕ) (p : Pool) (id : ℕ) (held : ℕ → ℕ)
    → Sound p
    → Balanced (holding id held) p
    → positives p.refcnt < fuel
    → (q : Pool) × (decr_ref fuel p id ≡ some q) × Sound q × Balanced held q × Kept p q
decr_ref-Balanced fuel p id held s b enough =
    let c = all-Counted (holding id held) p b in
    let ends = decr_ref-Ends fuel p id (λ x. false) held c s enough in
    let gives = decr_ref-Gives fuel p ends.end id ends.returns (λ x. false) held c in
    (ends.end, ends.returns, ends.sound, gives.0.balance, gives.1)
