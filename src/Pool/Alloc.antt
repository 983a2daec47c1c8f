-- ===== src/Pool/Alloc.antt =====
-- New nodes (`ItemPool::alloc_leaf`, `create_root` and `incr_ref` in c_src/item_pool.cpp).
use diode_server.Base.{
  ℕ, zero, suc, ◌+◌, ◌%◌, ◌^◌, ◌≤◌, ◌<◌, ◌≡◌, refl, sym, subst, ◌∙◌, false, Option, none, some,
  List, [], ◌∷◌, ◌++◌, ◌==◌, ltb, leb, ==→eq, ==_refl, if◌then◌else◌, get_or, set, length,
  length-set, length-append, arith, Bool-cases, inl, inr, if_false,
}
use diode_server.Pool.{Node, Pool, new_leaf, node_at, count_at, ensure_slot, alloc_leaf}
use diode_server.Base.Cells.{one_if}
use diode_server.Pool.Edges.{out, edges, edges-set-some, edges-append-none}
use diode_server.Base.Cells.{get_or-set, get_or-set_ne}
use diode_server.Pool.Counts.{occurs}
use diode_server.Pool.Release.{full, Sound}

get_or-append {ℓ} :
    {A : Type ℓ} (xs : List A) (i : ℕ) (d : A) → get_or (xs ++ d ∷ []) i d ≡ get_or xs i d
get_or-append [] zero d = refl
get_or-append [] (suc i) d = refl
get_or-append (x ∷ xs) zero d = refl
get_or-append (x ∷ xs) (suc i) d = get_or-append xs i d

get_or_past {ℓ} : {A : Type ℓ} (xs : List A) (i : ℕ) (d : A) → length xs ≤ i → get_or xs i d ≡ d
get_or_past [] i d h = refl
get_or_past (x ∷ xs) zero d h = absurd (omega arith)
get_or_past (x ∷ xs) (suc i) d h = get_or_past xs i d (omega arith)

-- A slot that is made ready for a node.
record Taken (p q : Pool) (id : ℕ) : Type 0 where
  pub pos : 0 < id
  pub room : id < length q.nodes
  pub sizes : length q.refcnt ≡ length q.nodes
  pub same_node : (x : ℕ) → node_at q x ≡ node_at p x
  pub same_count : (x : ℕ) → count_at q x ≡ count_at p x
  pub empty : node_at p id ≡ none
  pub uncounted : count_at p id ≡ 0
  pub same_edges : (x : ℕ) → edges (λ y. false) 0 q.nodes x ≡ edges (λ y. false) 0 p.nodes x
  pub slots :
      (x : ℕ)
      → occurs x q.free_list + full (node_at q x) + one_if (id == x)
        ≡ one_if (if ltb 0 x then ltb x (length q.nodes) else false)

empty_node : (n : Option Node) → full n ≡ 0 → n ≡ none
empty_node none h = refl
empty_node (some n) h = absurd (omega arith)

uncounted_slot :
    (p : Pool) (id : ℕ) → Sound p → 0 < id → full (node_at p id) ≡ 0 → count_at p id ≡ 0
uncounted_slot p id s pos h = elim (Bool-cases (ltb 0 (count_at p id))) [
  | inl e ↦ absurd (omega (arith, s.filled id pos (ground arith), h))
  | inr e ↦ ground arith
]

-- The end of the free list.
reused-Taken :
    (nodes : List (Option Node)) (refcnt : List ℕ) (id : ℕ) (rest : List ℕ)
    → Sound (record { nodes = nodes; refcnt = refcnt; free_list = id ∷ rest })
    → (ensure_slot (record { nodes = nodes; refcnt = refcnt; free_list = rest }) id
        ≡ record { nodes = nodes; refcnt = refcnt; free_list = rest })
      × Taken
          (record { nodes = nodes; refcnt = refcnt; free_list = id ∷ rest })
          (record { nodes = nodes; refcnt = refcnt; free_list = rest })
          id
unfolding ensure_slot
reused-Taken nodes refcnt id rest s =
    let self : one_if (id == id) ≡ 1 = rw (==_refl id) in
    let at = s.slots id in
    let pos : 0 < id = ground arith in
    let room : id < length nodes = ground arith in
    let clear : full (get_or nodes id none) ≡ 0 = ground arith in
    let inside : leb (length nodes) id ≡ false = ground arith in
    (
      if_false _ _ inside,
      record {
        pos = pos;
        room = room;
        sizes = s.sizes;
        same_node = λ x. refl;
        same_count = λ x. refl;
        empty = empty_node (get_or nodes id none) clear;
        uncounted =
            uncounted_slot (record { nodes = nodes; refcnt = refcnt; free_list = id ∷ rest }) id s
              pos clear;
        same_edges = λ x. refl;
        slots = λ x. omega (arith, s.slots x);
      },
    )

-- A slot behind the last.
grown-Taken :
    (nodes : List (Option Node)) (refcnt : List ℕ)
    → Sound (record { nodes = nodes; refcnt = refcnt; free_list = [] })
    → Taken
        (record { nodes = nodes; refcnt = refcnt; free_list = [] })
        (record { nodes = nodes ++ none ∷ []; refcnt = refcnt ++ 0 ∷ []; free_list = [] })
        (length nodes)
grown-Taken nodes refcnt s =
    let longer = length-append nodes (none ∷ []) in
    let longer_counts = length-append refcnt (0 ∷ []) in
    let first = s.first in
    let sizes = s.sizes in
    record {
      pos = first;
      room = omega (arith, longer);
      sizes = omega (arith, longer, longer_counts, sizes);
      same_node = λ x. get_or-append nodes x none;
      same_count = λ x. get_or-append refcnt x 0;
      empty = get_or_past nodes (length nodes) none (omega arith);
      uncounted = get_or_past refcnt (length nodes) 0 (omega (arith, sizes));
      same_edges = λ x. edges-append-none (λ y. false) x 0 nodes;
      slots = λ x. let at = s.slots x in rw (longer, get_or-append nodes x none) (ground arith);
    }

-- A new node in a slot that was empty and without a count.
pub record Allocated (p q : Pool) (id : ℕ) (n : Node) : Type 0 where
  pub sound : Sound q
  pub pos : 0 < id
  pub was : node_at p id ≡ none
  pub here : node_at q id ≡ some n
  pub uncounted : count_at q id ≡ 0
  pub others : (x : ℕ) → (id == x) ≡ false → node_at q x ≡ node_at p x
  pub same_count : (x : ℕ) → count_at q x ≡ count_at p x
  pub more_edges :
      (x : ℕ) → edges (λ y. false) 0 q.nodes x ≡ edges (λ y. false) 0 p.nodes x + out (some n) x

abbrev fill : Pool → ℕ → Node → Pool
fill q id n = record q { nodes = set q.nodes id (some n); refcnt = set q.refcnt id 0 }

fill-Allocated :
    (p q : Pool) (id : ℕ) (n : Node) → Sound p → Taken p q id → Allocated p (fill q id n) id n
fill-Allocated p q id n s t =
    let room = t.room in
    let sizes = t.sizes in
    let same_length = length-set q.nodes id (some n) in
    let counts_in : id < length q.refcnt = omega (arith, room, sizes) in
    let count : (x : ℕ) → count_at (fill q id n) x ≡ count_at p x = λ x.
      elim (Bool-cases (id == x)) [
        | inl e ↦
            let none_here = subst (λ y. count_at p y ≡ 0) (==→eq id x e) t.uncounted in
            rw (get_or-set q.refcnt id x 0 0 counts_in, e, none_here)
        | inr e ↦ get_or-set_ne q.refcnt id x 0 0 e ∙ t.same_count x
      ] in
    let here : node_at (fill q id n) id ≡ some n =
      rw (get_or-set q.nodes id id (some n) none room, ==_refl id) in
    record {
      sound = record {
        first = omega (arith, room, same_length);
        sizes = length-set q.refcnt id 0 ∙ sizes ∙ sym same_length;
        slots = λ x.
            let at = t.slots x in
            let was : full (node_at q id) ≡ 0 = rw (t.same_node id, t.empty) in
            rw same_length (elim (Bool-cases (id == x)) [
              | inl e ↦
                  let filled : full (node_at (fill q id n) x) ≡ 1 =
                    rw (get_or-set q.nodes id x (some n) none room, e) in
                  let before : full (node_at q x) ≡ 0 =
                    subst (λ y. full (node_at q y) ≡ 0) (==→eq id x e) was in
                  let one : one_if (id == x) ≡ 1 = rw e in omega (arith, filled, before, at, one)
              | inr e ↦
                  let zero_here : one_if (id == x) ≡ 0 = rw e in
                  rw (get_or-set_ne q.nodes id x (some n) none e) (omega (arith, zero_here, at))
            ]);
        filled = λ x h c. elim (Bool-cases (id == x)) [
          | inl e ↦ rw (get_or-set q.nodes id x (some n) none room, e)
          | inr e ↦
              let kept = s.filled x h (omega (arith, count x)) in
              rw (get_or-set_ne q.nodes id x (some n) none e, t.same_node x) kept
        ];
      };
      pos = t.pos;
      was = t.empty;
      here = here;
      uncounted = count id ∙ t.uncounted;
      others = λ x e. get_or-set_ne q.nodes id x (some n) none e ∙ t.same_node x;
      same_count = count;
      more_edges = λ x.
          let set_edges = edges-set-some (λ y. false) x 0 id q.nodes n room refl in
          let nothing : out (get_or q.nodes id none) x ≡ 0 =
            rw (t.same_node id, t.empty) (unfold out in refl) in
          omega (arith, set_edges, nothing, t.same_edges x);
    }

-- `alloc_leaf` puts a leaf with no references into a free slot, or a new one behind the last.
pub alloc_leaf-Allocated :
    (p : Pool)
    → Sound p
    → length p.nodes < 2 ^ 32
    → Allocated p (alloc_leaf p).0 (alloc_leaf p).1 new_leaf
unfolding alloc_leaf
alloc_leaf-Allocated p s small = at_free p.nodes p.refcnt p.free_list s small
  where
    at_free :
        (nodes : List (Option Node)) (refcnt : List ℕ) (free : List ℕ)
        → Sound (record { nodes = nodes; refcnt = refcnt; free_list = free })
        → length nodes < 2 ^ 32
        → Allocated
            (record { nodes = nodes; refcnt = refcnt; free_list = free })
            (alloc_leaf (record { nodes = nodes; refcnt = refcnt; free_list = free })).0
            (alloc_leaf (record { nodes = nodes; refcnt = refcnt; free_list = free })).1
            new_leaf
    at_free nodes refcnt [] s small =
        let wrap : length nodes % 2 ^ 32 ≡ length nodes = omega arith in
        rw wrap (
          fill-Allocated (record { nodes = nodes; refcnt = refcnt; free_list = [] })
            (record { nodes = nodes ++ none ∷ []; refcnt = refcnt ++ 0 ∷ []; free_list = [] })
            (length nodes) new_leaf s (grown-Taken nodes refcnt s))
    at_free nodes refcnt (id ∷ rest) s small =
        let (same, taken) = reused-Taken nodes refcnt id rest s in
        rw same (
          fill-Allocated (record { nodes = nodes; refcnt = refcnt; free_list = id ∷ rest })
            (record { nodes = nodes; refcnt = refcnt; free_list = rest }) id new_leaf s taken)
