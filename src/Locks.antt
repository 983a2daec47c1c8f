-- ===== src/Locks.antt =====
-- The locks on two objects at once of c_src/nif.cpp (`SharedStateLock` and `DualAccountMapLock`),
-- taken in the order of the addresses, by any number of threads. An address is a number.
pub mod Progress
mod Tests
use diode_server.Base.{
  ℕ, zero, suc, ◌+◌, ◌*◌, ◌-◌, ◌≤◌, ◌<◌, ◌≡◌, refl, ap, sym, subst, ◌∙◌, Bool, true, false, ◌||◌,
  Option, none, some, List, [], ◌∷◌, ◌==◌, ==→eq, ltb, ltb→lt, if◌then◌else◌, length, set, All,
  Bool-cases, inl, inr, ◌⊎◌, arith,
}

-- The mutexes that the constructor locks, in its order
unfoldable pub lock_order : ℕ → ℕ → List ℕ
lock_order s1 s2 = if s1 == s2 then s1 ∷ [] else if ltb s1 s2 then s1 ∷ s2 ∷ [] else s2 ∷ s1 ∷ []

-- A thread with the locks that it holds and those that it still waits for
pub record Thread : Type 0 where
  pub held : List ℕ
  pub wanted : List ℕ

-- A thread before the constructor, and behind the destructor
unfoldable pub begin : ℕ → ℕ → Thread
unfolding lock_order
begin s1 s2 = record { held = []; wanted = lock_order s1 s2 }

-- Threads that are about to lock pairs of objects, and a bound on their addresses
unfoldable pub begin_all : List (ℕ × ℕ) → List Thread
unfolding begin
begin_all [] = []
begin_all (pair ∷ pairs) = begin pair.0 pair.1 ∷ begin_all pairs

abbrev pub idle : Thread
idle = record { held = []; wanted = [] }

abbrev pub member : ℕ → List ℕ → Bool
member l [] = false
member l (x ∷ xs) = x == l || member l xs

-- Whether a thread holds a lock
unfoldable pub taken : ℕ → List Thread → Bool
taken l [] = false
taken l (t ∷ ts) = member l t.held || taken l ts

abbrev pub nth : List Thread → ℕ → Option Thread
nth [] i = none
nth (t ∷ ts) zero = some t
nth (t ∷ ts) (suc i) = nth ts i

-- A thread takes the next lock that it waits for, if none holds it, or unlocks what it holds when it
-- has all.
pub data Step (ts : List Thread) : List Thread → Type 0 where
  locked :
      (i l : ℕ) (held rest : List ℕ)
      → nth ts i ≡ some (record { held = held; wanted = l ∷ rest })
      → taken l ts ≡ false
      → Step ts (set ts i (record { held = l ∷ held; wanted = rest }))
  unlocked :
      (i l : ℕ) (held : List ℕ)
      → nth ts i ≡ some (record { held = l ∷ held; wanted = [] })
      → Step ts (set ts i idle)

pub data Run : List Thread → List Thread → Type 0 where
  here : {ts : List Thread} → Run ts ts
  next : {ts us vs : List Thread} → Step ts us → Run us vs → Run ts vs

-- Locks in ascending order
abbrev Ascending : List ℕ → Type 0
Ascending [] = Unit
Ascending (x ∷ xs) = All (λ y. x < y) xs × Ascending xs

abbrev pub Ordered : Thread → Type 0
Ordered t = All (λ h. All (λ w. h < w) t.wanted) t.held × Ascending t.wanted

pub begin-Ordered : (s1 s2 : ℕ) → Ordered (begin s1 s2)
unfolding begin lock_order
begin-Ordered s1 s2 = elim (Bool-cases (s1 == s2)) [
  | inl e ↦ rw e (tt, (tt, tt))
  | inr e ↦ elim (Bool-cases (ltb s1 s2)) [
    | inl f ↦ rw (e, f) (tt, ((ltb→lt s1 s2 f, tt), (tt, tt)))
    | inr f ↦ let other : s2 < s1 = ground arith in rw (e, f) (tt, ((other, tt), (tt, tt)))
  ]
]

pub All-set :
    (P : Thread → Type 0) (ts : List Thread) (i : ℕ) (t : Thread)
    → All P ts
    → P t
    → All P (set ts i t)
All-set P [] i t a p = tt
All-set P (u ∷ us) zero t a p = (p, a.1)
All-set P (u ∷ us) (suc i) t a p = (a.0, All-set P us i t a.1 p)

pub All-nth :
    (P : Thread → Type 0) (ts : List Thread) (i : ℕ) (t : Thread)
    → All P ts
    → nth ts i ≡ some t
    → P t
All-nth P [] i t a e = cc
All-nth P (u ∷ us) zero t a e = subst P (ap (λ o. elim o [ none ↦ u | some x ↦ x ]) e) a.0
All-nth P (u ∷ us) (suc i) t a e = All-nth P us i t a.1 e

drop_first :
    (l : ℕ) (rest held : List ℕ)
    → All (λ h. All (λ w. h < w) (l ∷ rest)) held
    → All (λ h. All (λ w. h < w) rest) held
drop_first l rest [] a = tt
drop_first l rest (h ∷ hs) a = (a.0.1, drop_first l rest hs a.1)

pub Step-Ordered : {ts us : List Thread} → Step ts us → All Ordered ts → All Ordered us
Step-Ordered {ts} (locked i l held rest e f) a =
    let o = All-nth Ordered ts i (record { held = held; wanted = l ∷ rest }) a e in
    All-set Ordered ts i (record { held = l ∷ held; wanted = rest }) a
      ((o.1.0, drop_first l rest held o.0), o.1.1)
Step-Ordered {ts} (unlocked i l held e) a = All-set Ordered ts i idle a (tt, tt)

-- The thread that holds a lock
pub taken-nth :
    (l : ℕ) (ts : List Thread)
    → taken l ts ≡ true
    → (i : ℕ) × (t : Thread) × (nth ts i ≡ some t) × (member l t.held ≡ true)
unfolding taken
taken-nth l [] h = cc
taken-nth l (t ∷ ts) h = elim (Bool-cases (member l t.held)) [
  | inl m ↦ (0, t, refl, m)
  | inr m ↦ let (i, u, e, k) = taken-nth l ts (sym (rw m refl) ∙ h) in (suc i, u, e, k)
]

-- What a thread waits for is above what it holds.
pub member_lt :
    (l w : ℕ) (rest held : List ℕ)
    → All (λ h. All (λ x. h < x) (w ∷ rest)) held
    → member l held ≡ true
    → l < w
member_lt l w rest [] a m = cc
member_lt l w rest (h ∷ hs) a m = elim (Bool-cases (h == l)) [
  | inl e ↦ let same : h ≡ l = ==→eq h l e in subst (λ x. x < w) same a.0.0
  | inr e ↦ member_lt l w rest hs a.1 (sym (rw e refl) ∙ m)
]
