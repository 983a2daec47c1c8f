-- ===== src/Pool/Counts.antt =====
-- The reference counts of the pool (c_src/item_pool.cpp): every count is the number of edges to the
-- node from the nodes of the pool and of the references that are held outside.
use diode_server.Base.{
  ℕ, zero, suc, ◌+◌, ◌-◌, ◌<◌, ◌≡◌, refl, ap, sym, subst, ◌∙◌, Bool, true, false, Option, none,
  some, List, [], ◌∷◌, ◌==◌, ltb, ==→eq, ==_refl, >>=-eq-some, get_or, set, length, arith,
  Bool-cases, inl, inr, eq_of_some, if_true, if_false,
}
use diode_server.Base.Cells.{get_or-set, get_or-set_ne}
use diode_server.Pool.{Node, Pool, node_at, count_at, release, decr_ref}
use diode_server.Base.Cells.{one_if}
use diode_server.Pool.Edges.{out, edges, also, edges-also, edges-set-none}

-- A call whose count falls to 0 marks the node as gone until its slot is emptied.
-- Each id but 0 has the count of the edges to it, those of the nodes in `gone` left out, and of the
-- references `held` outside; nothing refers to a node that is gone.
pub record Counted (gone : ℕ → Bool) (held : ℕ → ℕ) (p : Pool) : Type 0 where
  pub balance : (id : ℕ) → 0 < id → count_at p id ≡ edges gone 0 p.nodes id + held id
  pub dead : (id : ℕ) → gone id ≡ true → count_at p id ≡ 0

-- One reference more.
abbrev pub holding : ℕ → (ℕ → ℕ) → ℕ → ℕ
holding id held x = one_if (id == x) + held x

pub counted_length : (xs : List ℕ) (i : ℕ) → 0 < get_or xs i 0 → i < length xs
counted_length [] i h = absurd (omega arith)
counted_length (x ∷ xs) zero h = omega arith
counted_length (x ∷ xs) (suc i) h = omega (arith, counted_length xs i h)

-- How often `x` stands in a list.
abbrev pub occurs : ℕ → List ℕ → ℕ
occurs x [] = 0
occurs x (id ∷ ids) = one_if (id == x) + occurs x ids

-- A slot whose count is 0 is left alone.
abbrev pub Kept : Pool → Pool → Type 0
Kept p q =
    (id : ℕ)
    → count_at p id ≡ 0
    → (count_at q id ≡ 0)
      × (node_at q id ≡ node_at p id)
      × (occurs id q.free_list ≡ occurs id p.free_list)

abbrev pub lower : Pool → ℕ → Pool
lower p id = record p { refcnt = set p.refcnt id (count_at p id - 1) }

abbrev pub clear_slot : Pool → ℕ → Pool
clear_slot p id = record p { nodes = set p.nodes id none; free_list = id ∷ p.free_list }

module _ (p : Pool) (id : ℕ) (positive : 0 < count_at p id) where
  pub count-lower : (x : ℕ) → count_at (lower p id) x + one_if (id == x) ≡ count_at p x
  count-lower x = elim (Bool-cases (id == x)) [
    | inl e ↦
        let same : id ≡ x = ==→eq id x e in
        let read =
          get_or-set p.refcnt id x (count_at p id - 1) 0 (counted_length p.refcnt id positive) in
        rw (read, e, ← same) (omega arith)
    | inr e ↦ rw (get_or-set_ne p.refcnt id x (count_at p id - 1) 0 e, e) (omega arith)
  ]

  pub lower-Kept : Kept p (lower p id)
  lower-Kept x z = (omega (arith, count-lower x), refl, refl)

  -- A reference that is given up.
  pub lower-Counted :
      {gone : ℕ → Bool} {held : ℕ → ℕ}
      → Counted gone (holding id held) p
      → Counted gone held (lower p id)
  lower-Counted c = record {
    balance = λ x h. omega (arith, count-lower x, c.balance x h);
    dead = λ x g. omega (arith, count-lower x, c.dead x g);
  }

pub Kept-trans : (p q r : Pool) → Kept p q → Kept q r → Kept p r
Kept-trans p q r a b x z =
    let first = a x z in
    let second = b x first.0 in (second.0, second.1 ∙ first.1, second.2 ∙ first.2)

pub holding_null :
    (gone : ℕ → Bool) (held : ℕ → ℕ) (p : Pool)
    → Counted gone (holding 0 held) p
    → Counted gone held p
holding_null gone held p c = record {
  balance = λ x h.
      let other : one_if (0 == x) ≡ 0 = let ne : (0 == x) ≡ false = ground arith in rw ne in
      omega (arith, other, c.balance x h);
  dead = c.dead;
}

pub alive :
    (gone : ℕ → Bool) (held : ℕ → ℕ) (p : Pool) (id : ℕ)
    → Counted gone held p
    → 0 < count_at p id
    → gone id ≡ false
alive gone held p id c h = elim (Bool-cases (gone id)) [
  | inl e ↦ absurd (omega (arith, c.dead id e))
  | inr e ↦ e
]

-- The last reference to a node is given up: the node is gone, and its own references are held by the
-- call until it gives them up.
pub release-Counted :
    (gone : ℕ → Bool) (held : ℕ → ℕ) (p : Pool) (id : ℕ) (n : Node)
    → Counted gone held p
    → gone id ≡ false
    → count_at p id ≡ 0
    → node_at p id ≡ some n
    → Counted (also gone id) (holding n.left_id (holding n.right_id held)) p
release-Counted gone held p id n c live zero_count here = record {
  balance = λ x h.
      let taken = edges-also gone x 0 id id p.nodes (omega arith) live in
      let leaves : out (node_at p id) x ≡ one_if (n.left_id == x) + one_if (n.right_id == x) =
        rw here (unfold out in refl) in
      omega (arith, taken, leaves, c.balance x h);
  dead = λ x g. elim (Bool-cases (x == id)) [
    | inl e ↦ rw (==→eq x id e) zero_count
    | inr e ↦ c.dead x (sym (if_false true (gone x) e) ∙ g)
  ];
}

-- The emptied slot is no longer marked.
pub clear_slot-Counted :
    (gone : ℕ → Bool) (held : ℕ → ℕ) (p : Pool) (id : ℕ)
    → Counted (also gone id) held p
    → gone id ≡ false
    → Counted gone held (clear_slot p id)
clear_slot-Counted gone held p id c live = record {
  balance =
      λ x h. omega (arith, edges-set-none gone x 0 id id p.nodes (omega arith), c.balance x h);
  dead = λ x g. elim (Bool-cases (x == id)) [
    | inl e ↦ c.dead x (if_true true (gone x) e)
    | inr e ↦ c.dead x (if_false true (gone x) e ∙ g)
  ];
}

pub clear_slot-Kept :
    (p q : Pool) (id : ℕ) → 0 < count_at p id → Kept (lower p id) q → Kept p (clear_slot q id)
clear_slot-Kept p q id positive k x z =
    let other : (id == x) ≡ false = elim (Bool-cases (id == x)) [
      | inl e ↦ let same : id ≡ x = ==→eq id x e in absurd (omega (arith, ap (count_at p) same))
      | inr e ↦ e
    ] in
    let kept = k x ((lower-Kept p id positive x z).0) in
    let still : occurs x (id ∷ q.free_list) ≡ occurs x q.free_list = rw other (omega arith) in
    (kept.0, get_or-set_ne q.nodes id x none none other ∙ kept.1, still ∙ kept.2)

-- What `decr_ref` promises: the reference that it gives up is the one that is no longer counted.
abbrev pub Gives : Pool → Pool → ℕ → Type 0
Gives p q id =
    (gone : ℕ → Bool) (held : ℕ → ℕ)
    → Counted gone (holding id held) p
    → Counted gone held q × Kept p q

pub release-Gives :
    (decr : Pool → ℕ → Option Pool) (p q : Pool) (id : ℕ) (node : Option Node)
    → ((a b : Pool) (i : ℕ) → decr a i ≡ some b → Gives a b i)
    → count_at p id ≡ 1
    → node_at p id ≡ node
    → release decr id node (lower p id) ≡ some q
    → Gives p q id
unfolding release
release-Gives decr p q id none gives one here run gone held c = cc
release-Gives decr p q id (some n) gives one here run gone held c =
    let positive : 0 < count_at p id = omega (arith, one) in
    let lowered = lower-Counted p id positive c in
    let live = alive gone (holding id held) p id c positive in
    let self : one_if (id == id) ≡ 1 = rw (==_refl id) in
    let last : count_at (lower p id) id ≡ 0 =
      omega (arith, count-lower p id positive id, one, self) in
    let start = release-Counted gone held (lower p id) id n lowered live last here in
    let (p₁, run₁, more) = >>=-eq-some (decr (lower p id) n.left_id) _ run in
    let (p₂, run₂, done) = >>=-eq-some (decr p₁ n.right_id) _ more in
    let left =
      gives (lower p id) p₁ n.left_id run₁ (also gone id) (holding n.right_id held) start in
    let right = gives p₁ p₂ n.right_id run₂ (also gone id) held left.0 in
    subst (λ r. Counted gone held r × Kept p r) (eq_of_some done)
      (
        clear_slot-Counted gone held p₂ id right.0 live,
        clear_slot-Kept p p₂ id positive (Kept-trans (lower p id) p₁ p₂ left.1 right.1),
      )

pub decr_ref-Gives : (fuel : ℕ) (p q : Pool) (id : ℕ) → decr_ref fuel p id ≡ some q → Gives p q id
unfolding decr_ref
decr_ref-Gives zero p q id run gone held c = cc
decr_ref-Gives (suc fuel) p q id run gone held c = elim (Bool-cases (id == 0)) [
  | inl null ↦
      let same : p ≡ q = eq_of_some (sym (if_true _ _ null) ∙ run) in
      let at : id ≡ 0 = ==→eq id 0 null in
      subst (λ r. Counted gone held r × Kept p r) same
        (
          holding_null gone held p (subst (λ i. Counted gone (holding i held) p) at c),
          λ x z. (z, refl, refl),
        )
  | inr some_id ↦
      let run₁ = sym (if_false _ _ some_id) ∙ run in
      elim (Bool-cases (count_at p id == 0)) [
        | inl zero_count ↦ let stop = sym (if_true _ _ zero_count) ∙ run₁ in cc
        | inr counted ↦
            let run₂ = sym (if_false _ _ counted) ∙ run₁ in
            let positive : 0 < count_at p id = ground arith in
            elim (Bool-cases (ltb 0 (count_at p id - 1))) [
              | inl shared ↦
                  subst (λ r. Counted gone held r × Kept p r)
                    (eq_of_some (sym (if_true _ _ shared) ∙ run₂))
                    (lower-Counted p id positive c, lower-Kept p id positive)
              | inr last ↦
                  release-Gives (decr_ref fuel) p q id (node_at p id) (decr_ref-Gives fuel)
                    (ground arith) refl (sym (if_false _ _ last) ∙ run₂) gone held c
            ]
      ]
]
