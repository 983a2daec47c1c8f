-- ===== src/Pool/Fork.antt =====
-- Copies on write (`ItemPool::incr_ref`, `create_root` and `clone_for_fork` in c_src/item_pool.cpp,
-- `Tree::fork_for_write` in c_src/merkletree.cpp).
use diode_server.Base.{
  ℕ, ◌+◌, ◌%◌, ◌^◌, ◌≤◌, ◌<◌, ◌≡◌, refl, ap, sym, subst, ◌∙◌, Bool, true, false, Option, none, some,
  List, ◌==◌, ltb, leb, ==→eq, ==_refl, ◌>>=◌, get_or, set, length, length-set, arith, Bool-cases,
  inl, inr, if_true, if_false, leb→le,
}
use diode_server.Pool.{
  Node, Pool, new_leaf, node_at, count_at, alloc_leaf, incr_ref, create_root, is_unique, copied,
  link_children, clone_for_fork, fork_for_write,
}
use diode_server.Base.Cells.{one_if}
use diode_server.Pool.Edges.{out, edges, edges-also, edges-set-some}
use diode_server.Base.Cells.{get_or-set, get_or-set_ne}
use diode_server.Pool.Counts.{holding}
use diode_server.Pool.Release.{full, node_in, Sound, Balanced}
use diode_server.Pool.Alloc.{Allocated, alloc_leaf-Allocated}

-- One reference more is counted, and nothing else changes.
pub record Raised (p q : Pool) (id : ℕ) : Type 0 where
  pub sound : Sound q
  pub nodes : q.nodes ≡ p.nodes
  pub counts : (x : ℕ) → 0 < x → count_at q x ≡ count_at p x + one_if (id == x)

counted_slot : (p : Pool) (id : ℕ) → Sound p → full (node_at p id) ≡ 1 → id < length p.refcnt
counted_slot p id s h = let sizes = s.sizes in omega (arith, node_in p.nodes id h, sizes)

-- A reference to no node, or to a node, is counted.
pub incr_ref-Raised :
    (p : Pool) (id : ℕ)
    → Sound p
    → (0 < id → full (node_at p id) ≡ 1)
    → (0 < id → count_at p id + 1 < 2 ^ 32)
    → (q : Pool) × (incr_ref p id ≡ some q) × Raised p q id
unfolding incr_ref
incr_ref-Raised p id s present small = elim (Bool-cases (id == 0)) [
  | inl null ↦ (
    p,
    if_true _ _ null,
    record {
      sound = s;
      nodes = refl;
      counts = λ x h. let other : (id == x) ≡ false = ground arith in rw other (omega arith);
    },
  )
  | inr some_id ↦
      let pos : 0 < id = ground arith in
      let here = present pos in
      let bound = small pos in
      let room = counted_slot p id s here in
      let inside : ltb id (length p.refcnt) ≡ true = ground arith in
      let wrap : (count_at p id + 1) % 2 ^ 32 ≡ count_at p id + 1 = omega arith in
      let count : (x : ℕ)
          → get_or (set p.refcnt id ((count_at p id + 1) % 2 ^ 32)) x 0
            ≡ count_at p x + one_if (id == x) =
        λ x. elim (Bool-cases (id == x)) [
          | inl e ↦
              rw (get_or-set p.refcnt id x ((count_at p id + 1) % 2 ^ 32) 0 room, e, wrap)
                (ap (λ y. count_at p y + 1) (==→eq id x e))
          | inr e ↦
              rw (get_or-set_ne p.refcnt id x ((count_at p id + 1) % 2 ^ 32) 0 e, e) (omega arith)
        ] in
      (
        record p { refcnt = set p.refcnt id ((count_at p id + 1) % 2 ^ 32) },
        if_false _ _ some_id ∙ if_true _ _ inside,
        record {
          sound = record {
            first = s.first;
            sizes = length-set p.refcnt id ((count_at p id + 1) % 2 ^ 32) ∙ s.sizes;
            slots = s.slots;
            filled = λ x h c. elim (Bool-cases (id == x)) [
              | inl e ↦ subst (λ y. full (node_at p y) ≡ 1) (==→eq id x e) here
              | inr e ↦
                  let same : one_if (id == x) ≡ 0 = rw e in
                  s.filled x h (omega (arith, count x, same))
            ];
          };
          nodes = refl;
          counts = λ x h. count x;
        },
      )
]

out-le-edges :
    (nodes : List (Option Node)) (j x : ℕ)
    → out (get_or nodes j none) x ≤ edges (λ y. false) 0 nodes x
out-le-edges nodes j x = omega (arith, edges-also (λ y. false) x 0 j j nodes (omega arith) refl)

one_if-le : (c : Bool) → one_if c ≤ 1
one_if-le true = omega arith
one_if-le false = omega arith

out-new_leaf : (x : ℕ) → 0 < x → out (some new_leaf) x ≡ 0
unfolding out
out-new_leaf x h = let other : (0 == x) ≡ false = ground arith in rw other

-- `create_root`: in a sound pool with room, whose counts are right, a new root is a leaf with no pairs
-- in a slot that was empty; it is held once by the caller, and the other nodes stay as they are.
pub create_root-Balanced :
    (p : Pool) (held : ℕ → ℕ)
    → Sound p
    → Balanced held p
    → length p.nodes < 2 ^ 32
    → (q : Pool) × (id : ℕ) × (create_root p ≡ some (q, id))
      × Sound q
      × Balanced (holding id held) q
      × (node_at p id ≡ none)
      × (node_at q id ≡ some new_leaf)
      × ((x : ℕ) → (id == x) ≡ false → node_at q x ≡ node_at p x)
unfolding create_root
create_root-Balanced p held s b small =
    let a = alloc_leaf-Allocated p s small in
    let empty = a.uncounted in
    let (q, run, r) =
      incr_ref-Raised (alloc_leaf p).0 (alloc_leaf p).1 a.sound (λ h. ap full a.here)
        (λ h. omega (arith, empty)) in
    (
      q,
      (alloc_leaf p).1,
      rw run,
      r.sound,
      (λ x h.
          rw r.nodes
            (omega (arith, r.counts x h, a.same_count x, b x h, a.more_edges x, out-new_leaf x h))),
      a.was,
      ap (λ nodes. get_or nodes (alloc_leaf p).1 none) r.nodes ∙ a.here,
      λ x e. ap (λ nodes. get_or nodes x none) r.nodes ∙ a.others x e,
    )

-- The new node is filled in.
refill-Allocated :
    (p q : Pool) (id : ℕ) (n m : Node)
    → Allocated p q id n
    → Allocated p (record q { nodes = set q.nodes id (some m) }) id m
refill-Allocated p q id n m a =
    let old = a.sound in
    let sizes = old.sizes in
    let room : id < length q.nodes = omega (arith, counted_slot q id old (ap full a.here), sizes) in
    let same_length = length-set q.nodes id (some m) in
    let full_still : (x : ℕ) → full (get_or (set q.nodes id (some m)) x none) ≡ full (node_at q x) =
      λ x. elim (Bool-cases (id == x)) [
        | inl e ↦
            let before : full (node_at q x) ≡ 1 =
              subst (λ y. full (node_at q y) ≡ 1) (==→eq id x e) (ap full a.here) in
            rw (get_or-set q.nodes id x (some m) none room, e, before)
        | inr e ↦ rw (get_or-set_ne q.nodes id x (some m) none e)
      ] in
    record {
      sound = record {
        first = subst (λ k. 0 < k) (sym same_length) old.first;
        sizes = sizes ∙ sym same_length;
        slots = λ x. rw (same_length, full_still x) (old.slots x);
        filled = λ x h c. full_still x ∙ old.filled x h c;
      };
      pos = a.pos;
      was = a.was;
      here = rw (get_or-set q.nodes id id (some m) none room, ==_refl id);
      uncounted = a.uncounted;
      others = λ x e. get_or-set_ne q.nodes id x (some m) none e ∙ a.others x e;
      same_count = a.same_count;
      more_edges = λ x.
          let set_edges = edges-set-some (λ y. false) x 0 id q.nodes m room refl in
          let replaced : out (node_at q id) x ≡ out (some n) x = rw a.here in
          omega (arith, set_edges, replaced, a.more_edges x);
    }

-- A copy of a node: nothing refers to it, its children are counted once more, and the other nodes
-- stay as they are.
pub record Cloned (p q : Pool) (held : ℕ → ℕ) (nid : ℕ) (src : Node) : Type 0 where
  pub sound : Sound q
  pub balanced : Balanced held q
  pub here : node_at q nid ≡ some (copied src)
  pub unused : count_at q nid ≡ 0
  pub others : (x : ℕ) → (nid == x) ≡ false → node_at q x ≡ node_at p x
  pub was : node_at p nid ≡ none

-- The children of a node that is in the pool are counted once more.
record Linked (p q : Pool) (src : Node) : Type 0 where
  pub sound : Sound q
  pub nodes : q.nodes ≡ p.nodes
  pub counts : (x : ℕ) → 0 < x → count_at q x ≡ count_at p x + out (some src) x

module _ (p : Pool) (src : Node) (s : Sound p)
    (present : (x : ℕ) → 0 < x → 0 < out (some src) x → full (node_at p x) ≡ 1)
    (bound : (x : ℕ) → count_at p x + 2 < 2 ^ 32) where
  outs : (x : ℕ) → out (some src) x ≡ one_if (src.left_id == x) + one_if (src.right_id == x)
  unfolding out
  outs x = refl

  link_children-Linked :
      (nid : ℕ) → (q : Pool) × (link_children p nid src ≡ some (q, nid)) × Linked p q src
  unfolding link_children
  link_children-Linked nid =
      let left : one_if (src.left_id == src.left_id) ≡ 1 = rw (==_refl src.left_id) in
      let right : one_if (src.right_id == src.right_id) ≡ 1 = rw (==_refl src.right_id) in
      let (q₁, run₁, r₁) =
        incr_ref-Raised p src.left_id s
          (λ h. present src.left_id h (omega (arith, outs src.left_id, left)))
          (λ h. omega (arith, bound src.left_id)) in
      let upper = one_if-le (src.left_id == src.right_id) in
      let (q₂, run₂, r₂) =
        incr_ref-Raised q₁ src.right_id r₁.sound
          (λ h.
            subst (λ ns. full (get_or ns src.right_id none) ≡ 1) (sym r₁.nodes)
              (present src.right_id h (omega (arith, outs src.right_id, right))))
          (λ h. omega (arith, bound src.right_id, r₁.counts src.right_id h, upper)) in
      (
        q₂,
        rw (run₁, run₂),
        record {
          sound = r₂.sound;
          nodes = r₂.nodes ∙ r₁.nodes;
          counts = λ x h. omega (arith, r₂.counts x h, r₁.counts x h, outs x);
        },
      )

out-copied : (n : Node) (x : ℕ) → out (some (copied n)) x ≡ out (some n) x
unfolding out
out-copied n x = refl

clone_for_fork-Cloned :
    (p : Pool) (held : ℕ → ℕ) (id : ℕ) (src : Node)
    → Sound p
    → Balanced held p
    → ((x : ℕ) → count_at p x + 2 < 2 ^ 32)
    → length p.nodes < 2 ^ 32
    → node_at p id ≡ some src
    → (q : Pool) × (nid : ℕ) × (clone_for_fork p id ≡ some (q, nid)) × Cloned p q held nid src
unfolding clone_for_fork
clone_for_fork-Cloned p held id src s b bound small here =
    let nid = (alloc_leaf p).1 in
    let linked : Pool = record (alloc_leaf p).0 {
      nodes = set (alloc_leaf p).0.nodes nid (some (copied src));
    } in
    let a =
      refill-Allocated p (alloc_leaf p).0 nid new_leaf (copied src)
        (alloc_leaf-Allocated p s small) in
    let source : (x : ℕ) → out (some src) x ≤ edges (λ y. false) 0 p.nodes x =
      λ x. subst (λ n. out n x ≤ edges (λ y. false) 0 p.nodes x) here (out-le-edges p.nodes id x) in
    let (q, run, l) =
      link_children-Linked linked src a.sound
        (λ x h o. a.sound.filled x h (omega (arith, b x h, source x, a.same_count x)))
        (λ x. omega (arith, bound x, a.same_count x)) nid in
    let empty = a.uncounted in
    let pos = a.pos in
    (
      q,
      nid,
      ap
            (λ n. n >>= λ m.
              link_children
                (record (alloc_leaf p).0 {
                  nodes = set (alloc_leaf p).0.nodes nid (some (copied m));
                })
                nid m)
            here
          ∙ run,
      record {
        sound = l.sound;
        balanced = λ x h.
            rw l.nodes (
              omega (arith, l.counts x h, b x h, a.same_count x, a.more_edges x, out-copied src x));
        here = ap (λ ns. get_or ns nid none) l.nodes ∙ a.here;
        unused = omega (arith, l.counts nid pos, empty, a.same_count nid, b nid pos, source nid);
        others = λ x e. ap (λ ns. get_or ns x none) l.nodes ∙ a.others x e;
        was = a.was;
      },
    )

-- A node that may be written through `nid` with no effect on what the other references see.
pub record Forked (p q : Pool) (held : ℕ → ℕ) (nid : ℕ) (src : Node) : Type 0 where
  pub sound : Sound q
  pub balanced : Balanced held q
  pub same_content : (m : Node) × (node_at q nid ≡ some m) × (copied m ≡ copied src)
  pub alone : count_at q nid ≤ 1
  pub others : (x : ℕ) (n : Node) → node_at p x ≡ some n → node_at q x ≡ some n

-- `fork_for_write` of a node of a sound pool whose counts are right, with room for two more counts and
-- one more slot, returns a node of the same content with one reference at most; the pool stays sound,
-- its counts stay right, and every node that was in it is still there unchanged.
pub fork_for_write-Forked :
    (p : Pool) (held : ℕ → ℕ) (id : ℕ) (src : Node)
    → Sound p
    → Balanced held p
    → ((x : ℕ) → count_at p x + 2 < 2 ^ 32)
    → length p.nodes < 2 ^ 32
    → 0 < id
    → node_at p id ≡ some src
    → (q : Pool) × (nid : ℕ) × (fork_for_write p id ≡ some (q, nid)) × Forked p q held nid src
unfolding fork_for_write is_unique
fork_for_write-Forked p held id src s b bound small pos here =
    let some_id : (id == 0) ≡ false = ground arith in
    let room = counted_slot p id s (ap full here) in
    let inside : ltb id (length p.refcnt) ≡ true = ground arith in
    elim (Bool-cases (leb (count_at p id) 1)) [
      | inl e ↦ (
        p,
        id,
        rw (some_id, inside, e),
        record {
          sound = s;
          balanced = b;
          same_content = (src, here, refl);
          alone = leb→le (count_at p id) 1 e;
          others = λ x n h. h;
        },
      )
      | inr e ↦
          let (q, nid, run, c) = clone_for_fork-Cloned p held id src s b bound small here in
          let empty = c.unused in
          (
            q,
            nid,
            rw (some_id, inside, e) run,
            record {
              sound = c.sound;
              balanced = c.balanced;
              same_content = (copied src, c.here, refl);
              alone = omega (arith, empty);
              others = λ x n h. elim (Bool-cases (nid == x)) [
                | inl at ↦
                    let gone = sym (subst (λ y. node_at p y ≡ none) (==→eq nid x at) c.was) ∙ h in
                    cc
                | inr other ↦ c.others x other ∙ h
              ];
            },
          )
    ]
