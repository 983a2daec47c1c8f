-- ===== src/Pool/Edges.antt =====
-- The edges between the nodes of a pool. `gone` marks nodes that are being released, whose edges no
-- longer count.
use diode_server.Base.{
  ℕ, zero, suc, ◌+◌, ◌<◌, ◌≡◌, refl, Bool, true, false, Option, none, some, List, [], ◌∷◌, ◌++◌,
  ◌==◌, if◌then◌else◌, get_or, set, length, arith,
}
use diode_server.Base.Cells.{one_if}
use diode_server.Pool.{Node}

-- The edges from a slot to `x`.
unfoldable pub out : Option Node → ℕ → ℕ
out none x = 0
out (some n) x = one_if (n.left_id == x) + one_if (n.right_id == x)

-- The edges to `x` from the slots at `i` and on.
unfoldable pub edges : (ℕ → Bool) → ℕ → List (Option Node) → ℕ → ℕ
unfolding out
edges gone i [] x = 0
edges gone i (n ∷ nodes) x = (if gone i then 0 else out n x) + edges gone (suc i) nodes x

abbrev pub also : (ℕ → Bool) → ℕ → ℕ → Bool
also gone id i = if i == id then true else gone i

if_same : (b : Bool) (n : ℕ) → (if b then 0 else 0) + n ≡ 0 + n
if_same true n = refl
if_same false n = refl

module _ (gone : ℕ → Bool) (x : ℕ) where
  -- Slots below `i` do not matter.
  edges-also_below :
      (i k : ℕ) (nodes : List (Option Node))
      → k < i
      → edges (also gone k) i nodes x ≡ edges gone i nodes x
  unfolding edges
  edges-also_below i k [] h = refl
  edges-also_below i k (n ∷ nodes) h =
      let ne : (i == k) ≡ false = ground arith in
      rw (ne, edges-also_below (suc i) k nodes (omega arith))

  -- To mark a slot takes its edges away.
  pub edges-also :
      (i j k : ℕ) (nodes : List (Option Node))
      → k ≡ i + j
      → gone k ≡ false
      → edges (also gone k) i nodes x + out (get_or nodes j none) x ≡ edges gone i nodes x
  unfolding edges
  edges-also i j k [] e h = unfold out in refl
  edges-also i zero k (n ∷ nodes) e h =
      let self : (i == k) ≡ true = ground arith in
      let at : k ≡ i = omega arith in
      let live : gone i ≡ false = rw at at h in
      rw (self, live, edges-also_below (suc i) k nodes (omega arith)) (omega arith)
  edges-also i (suc j) k (n ∷ nodes) e h =
      let ne : (i == k) ≡ false = ground arith in
      let rest = edges-also (suc i) j k nodes (omega arith) h in rw ne (omega (arith, rest))

  -- An emptied slot has no edges, marked or not.
  pub edges-set-none :
      (i j k : ℕ) (nodes : List (Option Node))
      → k ≡ i + j
      → edges gone i (set nodes j none) x ≡ edges (also gone k) i nodes x
  unfolding edges
  edges-set-none i j k [] e = refl
  edges-set-none i zero k (n ∷ nodes) e =
      let self : (i == k) ≡ true = ground arith in
      rw (self, edges-also_below (suc i) k nodes (omega arith))
        (unfold out in if_same (gone i) (edges gone (suc i) nodes x))
  edges-set-none i (suc j) k (n ∷ nodes) e =
      let ne : (i == k) ≡ false = ground arith in
      rw (ne, edges-set-none (suc i) j k nodes (omega arith))

  -- A filled slot adds the edges of its node.
  pub edges-set-some :
      (i j : ℕ) (nodes : List (Option Node)) (n : Node)
      → j < length nodes
      → gone (i + j) ≡ false
      → edges gone i (set nodes j (some n)) x + out (get_or nodes j none) x
        ≡ edges gone i nodes x + out (some n) x
  unfolding edges
  edges-set-some i j [] n h g = absurd (omega arith)
  edges-set-some i zero (m ∷ nodes) n h g =
      let at : i + 0 ≡ i = omega arith in
      let live : gone i ≡ false = rw at at g in rw live (omega arith)
  edges-set-some i (suc j) (m ∷ nodes) n h g =
      let at : i + suc j ≡ suc i + j = omega arith in
      let rest = edges-set-some (suc i) j nodes n (omega arith) (rw at at g) in omega (arith, rest)

  -- An empty slot at the end changes nothing.
  pub edges-append-none :
      (i : ℕ) (nodes : List (Option Node))
      → edges gone i (nodes ++ none ∷ []) x ≡ edges gone i nodes x
  unfolding edges
  edges-append-none i [] = unfold out in ground arith
  edges-append-none i (n ∷ nodes) = rw (edges-append-none (suc i) nodes)
