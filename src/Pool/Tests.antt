-- ===== src/Pool/Tests.antt =====
-- The theorems on the pool at a pool with one root.
use diode_server.Base.{
  ℕ, zero, suc, ◌+◌, ◌^◌, ◌<◌, ◌≡◌, refl, some, none, [], ◌∷◌, arith, ◌==◌, false, ltb, length,
  if◌then◌else◌,
}
use diode_server.Pool.{
  Pool, new_leaf, make, node_at, count_at, ensure_slot, take_slot, alloc_leaf, incr_ref, decr_ref,
  release, create_root, is_unique, link_children, clone_for_fork, fork_for_write,
}
use diode_server.Base.Cells.{one_if}
use diode_server.Pool.Edges.{out, edges}
use diode_server.Pool.Counts.{holding, occurs, Kept}
use diode_server.Pool.Release.{full, Sound, Balanced, positives, decr_ref-Balanced}
use diode_server.Pool.Fork.{create_root-Balanced, Forked, fork_for_write-Forked}

program : Unit {0}
unfolding ensure_slot take_slot alloc_leaf incr_ref release decr_ref create_root is_unique
    link_children clone_for_fork fork_for_write out edges positives
program = tt

make-Sound : Sound make
make-Sound = record { first = omega arith; sizes = refl; slots = slots; filled = filled }
  where
    slots :
        (x : ℕ)
        → occurs x make.free_list + full (node_at make x)
          ≡ one_if (if ltb 0 x then ltb x (length make.nodes) else false)
    slots zero = refl
    slots (suc x) = ground arith

    filled : (x : ℕ) → 0 < x → 0 < count_at make x → full (node_at make x) ≡ 1
    filled zero h c = absurd (omega arith)
    filled (suc x) h c = absurd (omega arith)

make-Balanced : Balanced (λ x. 0) make
unfolding program
make-Balanced zero h = absurd (omega arith)
make-Balanced (suc x) h = ground arith

abbrev rooted : Pool
rooted = record { nodes = none ∷ some new_leaf ∷ []; refcnt = 0 ∷ 1 ∷ []; free_list = [] }

root_run : create_root make ≡ some (rooted, 1)
unfolding program
root_run = refl

create_root-Balanced_example :
    (q : Pool) × (id : ℕ) × (create_root make ≡ some (q, id))
    × Sound q
    × Balanced (holding id (λ x. 0)) q
    × (node_at make id ≡ none)
    × (node_at q id ≡ some new_leaf)
    × ((x : ℕ) → (id == x) ≡ false → node_at q x ≡ node_at make x)
create_root-Balanced_example =
    create_root-Balanced make (λ x. 0) make-Sound make-Balanced (omega arith)

-- A root that two hold.
abbrev shared : Pool
shared = record rooted { refcnt = 0 ∷ 2 ∷ [] }

shared-Sound : Sound shared
shared-Sound = record { first = omega arith; sizes = refl; slots = slots; filled = filled }
  where
    slots :
        (x : ℕ)
        → occurs x shared.free_list + full (node_at shared x)
          ≡ one_if (if ltb 0 x then ltb x (length shared.nodes) else false)
    slots zero = refl
    slots (suc zero) = refl
    slots (suc (suc x)) = ground arith

    filled : (x : ℕ) → 0 < x → 0 < count_at shared x → full (node_at shared x) ≡ 1
    filled zero h c = absurd (omega arith)
    filled (suc zero) h c = refl
    filled (suc (suc x)) h c = absurd (omega arith)

abbrev twice : ℕ → ℕ
twice = holding 1 (holding 1 (λ x. 0))

shared-Balanced : Balanced twice shared
unfolding program
shared-Balanced zero h = absurd (omega arith)
shared-Balanced (suc zero) h = refl
shared-Balanced (suc (suc x)) h = ground arith

decr_ref-Balanced_example :
    (q : Pool) × (decr_ref 2 shared 1 ≡ some q)
    × Sound q
    × Balanced (holding 1 (λ x. 0)) q
    × Kept shared q
unfolding positives
decr_ref-Balanced_example =
    decr_ref-Balanced 2 shared 1 (holding 1 (λ x. 0)) shared-Sound shared-Balanced few
  where
    few : positives shared.refcnt < 2
    few = omega arith

shared_counts : (x : ℕ) → count_at shared x + 2 < 2 ^ 32
shared_counts zero = omega arith
shared_counts (suc zero) = omega arith
shared_counts (suc (suc x)) = omega arith

fork_for_write-Forked_example :
    (q : Pool) × (nid : ℕ) × (fork_for_write shared 1 ≡ some (q, nid))
    × Forked shared q twice nid new_leaf
fork_for_write-Forked_example =
    fork_for_write-Forked shared twice 1 new_leaf shared-Sound shared-Balanced shared_counts
      (omega arith) (omega arith) refl

-- The last reference frees the slot, and the next root takes it again.
freed_run :
    decr_ref 2 rooted 1
    ≡ some (record { nodes = none ∷ none ∷ []; refcnt = 0 ∷ 0 ∷ []; free_list = 1 ∷ [] })
unfolding program
freed_run = refl

reuse_run :
    create_root (record { nodes = none ∷ none ∷ []; refcnt = 0 ∷ 0 ∷ []; free_list = 1 ∷ [] })
    ≡ some (rooted, 1)
unfolding program
reuse_run = refl

-- A shared root is copied, one that is held once is not.
shared_run :
    fork_for_write shared 1
    ≡ some (
      record {
        nodes = none ∷ some new_leaf ∷ some new_leaf ∷ [];
        refcnt = 0 ∷ 2 ∷ 0 ∷ [];
        free_list = [];
      },
      2,
    )
unfolding program
shared_run = refl

unique_run : fork_for_write rooted 1 ≡ some (rooted, 1)
unfolding program
unique_run = refl
