-- ===== src/Locks/Progress.antt =====
-- Threads that lock two objects of c_src/nif.cpp at once do not block one another for ever.
use diode_server.Base.{
  ℕ, zero, suc, ◌+◌, ◌*◌, ◌≤◌, ◌<◌, ◌≡◌, refl, ap, true, none, some, List, [], ◌∷◌, ◌==◌, ltb,
  if◌then◌else◌, length, set, All, Bool-cases, inl, inr, ◌⊎◌, arith,
}
use diode_server.Locks.{
  lock_order, Thread, begin, begin_all, idle, member, taken, nth, Step, locked, unlocked, Run, here,
  next, Ordered, begin-Ordered, All-set, All-nth, Step-Ordered, taken-nth, member_lt,
}

-- What is left to do: every lock is taken and given back.
unfoldable pub work : Thread → ℕ
work t = 2 * length t.wanted + (if length t.held == 0 then 0 else 1)

unfoldable pub work_left : List Thread → ℕ
work_left [] = 0
work_left (t ∷ ts) = work t + work_left ts

work_left-set :
    (ts : List Thread) (i : ℕ) (t u : Thread)
    → nth ts i ≡ some t
    → work u < work t
    → work_left (set ts i u) < work_left ts
unfolding work_left
work_left-set [] i t u e h = cc
work_left-set (x ∷ ts) zero t u e h =
    let same : x ≡ t = ap (λ o. elim o [ none ↦ x | some y ↦ y ]) e in
    let at_x = ap work same in omega (arith, h, at_x)
work_left-set (x ∷ ts) (suc i) t u e h = omega (arith, work_left-set ts i t u e h)

pub Step-work_left : {ts us : List Thread} → Step ts us → work_left us < work_left ts
unfolding work
Step-work_left {ts} (locked i l held rest e f) =
    work_left-set ts i (record { held = held; wanted = l ∷ rest })
      (record { held = l ∷ held; wanted = rest }) e (ground arith)
Step-work_left {ts} (unlocked i l held e) =
    work_left-set ts i (record { held = l ∷ held; wanted = [] }) idle e (ground arith)

-- All that a thread waits for is below `top`.
abbrev Below : ℕ → Thread → Type 0
Below top t = All (λ w. w < top) t.wanted

Step-Below : {ts us : List Thread} (top : ℕ) → Step ts us → All (Below top) ts → All (Below top) us
Step-Below {ts} top (locked i l held rest e f) a =
    All-set (Below top) ts i (record { held = l ∷ held; wanted = rest }) a
      (All-nth (Below top) ts i (record { held = held; wanted = l ∷ rest }) a e).1
Step-Below {ts} top (unlocked i l held e) a = All-set (Below top) ts i idle a tt

-- What a step from `ts` is found for, if some thread waits for a lock that is high enough
abbrev Chased : ℕ → ℕ → List Thread → Type 0
Chased fuel top ts =
    (i l : ℕ) (held rest : List ℕ)
    → nth ts i ≡ some (record { held = held; wanted = l ∷ rest })
    → top ≤ l + fuel
    → (us : List Thread) × Step ts us

-- The thread that holds a lock has all that it waits for, or waits for a higher lock.
holder :
    (fuel top l : ℕ) (ts : List Thread)
    → All Ordered ts
    → top ≤ l + suc fuel
    → Chased fuel top ts
    → (j : ℕ) (hs ws : List ℕ) → nth ts j ≡ some (record { held = hs; wanted = ws })
    → member l hs ≡ true
    → (us : List Thread) × Step ts us
holder fuel top l ts o h again j [] ws f m = cc
holder fuel top l ts o h again j (x ∷ hs) [] f m = (_, unlocked j x hs f)
holder fuel top l ts o h again j (x ∷ hs) (w ∷ ws) f m =
    let mine = All-nth Ordered ts j (record { held = x ∷ hs; wanted = w ∷ ws }) o f in
    let above : l < w = member_lt l w ws (x ∷ hs) mine.0 m in
    again j w (x ∷ hs) ws f (omega (arith, h, above))

-- Whoever waits for a lock, some thread can go on: it, or the end of a chain of threads that hold
-- what the one before waits for, as they wait for ever higher locks.
chase : (fuel top : ℕ) (ts : List Thread) → All Ordered ts → All (Below top) ts → Chased fuel top ts
chase zero top ts o b i l held rest e h =
    let low = (All-nth (Below top) ts i (record { held = held; wanted = l ∷ rest }) b e).0 in
    absurd (omega (arith, h, low))
chase (suc fuel) top ts o b i l held rest e h = elim (Bool-cases (taken l ts)) [
  | inr free ↦ (_, locked i l held rest e free)
  | inl busy ↦
      let (j, t, f, m) = taken-nth l ts busy in
      holder fuel top l ts o h (chase fuel top ts o b) j t.held t.wanted f m
]

-- A thread that waits for a lock, one that has all that it wanted, or none
data Busy (ts : List Thread) : Type 0 where
  all_idle : All (λ t. t ≡ idle) ts → Busy ts
  waiting :
      (i l : ℕ) (held rest : List ℕ)
      → nth ts i ≡ some (record { held = held; wanted = l ∷ rest })
      → Busy ts
  holding :
      (i l : ℕ) (held : List ℕ)
      → nth ts i ≡ some (record { held = l ∷ held; wanted = [] })
      → Busy ts

busy_thread : (ts : List Thread) → Busy ts
busy_thread [] = all_idle tt
busy_thread (t ∷ ts) = own t.held t.wanted refl (busy_thread ts)
  where
    own : (hs ws : List ℕ) → t ≡ record { held = hs; wanted = ws } → Busy ts → Busy (t ∷ ts)
    own hs (w ∷ ws) e r = waiting 0 w hs ws (ap some e)
    own (h ∷ hs) [] e r = holding 0 h hs (ap some e)
    own [] [] e (all_idle a) = all_idle (e, a)
    own [] [] e (waiting i l held rest f) = waiting (suc i) l held rest f
    own [] [] e (holding i l held f) = holding (suc i) l held f

-- Some thread can go on, unless all are idle.
progress :
    (top : ℕ) (ts : List Thread)
    → All Ordered ts
    → All (Below top) ts
    → All (λ t. t ≡ idle) ts ⊎ ((us : List Thread) × Step ts us)
progress top ts o b = elim (busy_thread ts) [
  | all_idle a ↦ inl a
  | waiting i l held rest e ↦ inr (chase top top ts o b i l held rest e (omega arith))
  | holding i l held e ↦ inr (_, unlocked i l held e)
]

finish_from :
    (fuel top : ℕ) (ts : List Thread)
    → work_left ts ≤ fuel
    → All Ordered ts
    → All (Below top) ts
    → (us : List Thread) × Run ts us × All (λ t. t ≡ idle) us
finish_from zero top ts h o b = elim (progress top ts o b) [
  | inl a ↦ (ts, here, a)
  | inr (us, st) ↦ absurd (omega (arith, h, Step-work_left st))
]
finish_from (suc fuel) top ts h o b = elim (progress top ts o b) [
  | inl a ↦ (ts, here, a)
  | inr (us, st) ↦
      let less = Step-work_left st in
      let (vs, run, a) =
        finish_from fuel top us (omega (arith, h, less)) (Step-Ordered st o)
          (Step-Below top st b) in
      (vs, next st run, a)
]

top_of : List (ℕ × ℕ) → ℕ
top_of [] = 0
top_of (pair ∷ pairs) = suc (pair.0 + pair.1) + top_of pairs

begin-Below : (s1 s2 top : ℕ) → s1 < top → s2 < top → Below top (begin s1 s2)
unfolding begin lock_order
begin-Below s1 s2 top a b = elim (Bool-cases (s1 == s2)) [
  | inl e ↦ rw e (a, tt)
  | inr e ↦ elim (Bool-cases (ltb s1 s2)) [
    | inl f ↦ rw (e, f) (a, (b, tt))
    | inr f ↦ rw (e, f) (b, (a, tt))
  ]
]

begin_all-Below :
    (pairs : List (ℕ × ℕ)) (top : ℕ) → top_of pairs ≤ top → All (Below top) (begin_all pairs)
unfolding begin_all top_of
begin_all-Below [] top h = tt
begin_all-Below (pair ∷ pairs) top h = (
  begin-Below pair.0 pair.1 top (omega (arith, h)) (omega (arith, h)),
  begin_all-Below pairs top (omega (arith, h)),
)

begin_all-Ordered : (pairs : List (ℕ × ℕ)) → All Ordered (begin_all pairs)
unfolding begin_all
begin_all-Ordered [] = tt
begin_all-Ordered (pair ∷ pairs) = (begin-Ordered pair.0 pair.1, begin_all-Ordered pairs)

Run-Kept :
    {ts us : List Thread} (top : ℕ)
    → Run ts us
    → All Ordered ts
    → All (Below top) ts
    → All Ordered us × All (Below top) us
Run-Kept top here o b = (o, b)
Run-Kept top (next st run) o b = Run-Kept top run (Step-Ordered st o) (Step-Below top st b)

-- However far threads that lock pairs of objects have got, in whatever order, they can go on until
-- each has held its locks and given them back: there is no deadlock.
pub Run-finish :
    (pairs : List (ℕ × ℕ)) (ts : List Thread)
    → Run (begin_all pairs) ts
    → (us : List Thread) × Run ts us × All (λ t. t ≡ idle) us
Run-finish pairs ts run =
    let top = top_of pairs in
    let (o, b) =
      Run-Kept top run (begin_all-Ordered pairs) (begin_all-Below pairs top (omega arith)) in
    finish_from (work_left ts) top ts (omega arith) o b
