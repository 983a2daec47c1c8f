-- ===== src/Map/Tests.antt =====
-- The `Map` at concrete entries.
use diode_server.Base.{
  ℕ, ◌%◌, ◌<◌, ◌≡◌, refl, sym, subst, Option, Bool, true, none, some, [], ◌∷◌, ◌==◌, ◌>>=◌,
  replicate, arith,
}
use diode_server.Map.{
  Map, empty, at, probe, settle, find, set_each, resize, assign, get, map_set, read,
}
use diode_server.Map.Probe.{Taken, ClassTaken, find_hangs}

-- The key is its own hash.
abbrev hash : ℕ → ℕ
hash key = key

abbrev same : ℕ → ℕ → Bool
same a b = a == b

-- A table of 1051 slots, of which one is taken.
abbrev crowded : Map ℕ ℕ
crowded = record { indexes = 1 ∷ replicate 1050 0; list = (0, 7) ∷ [] }

only_first : (i : ℕ) → i < 1051 → i % 1051 ≡ 0 → i ≡ 0
only_first i h e = omega arith

first-Taken : Taken hash same 0 crowded 1051 0
unfolding at
first-Taken = record { index = refl; other = (0, 7); here = refl; differs = refl }

crowded-ClassTaken : ClassTaken hash same 0 crowded 1051 0
crowded-ClassTaken i h e =
    subst (Taken hash same 0 crowded 1051) (sym (only_first i h e)) first-Taken

find_hangs_example : find hash same 0 5000 crowded 1051 true ≡ none
find_hangs_example =
    find_hangs hash same 0 5000 1 crowded 1051 true refl (omega arith) (omega arith)
      crowded-ClassTaken

program : Unit {0}
unfolding at probe settle find set_each resize assign get map_set read
program = tt

-- Two writes to a new table, of which the second finds its slot taken, and a read.
abbrev two_writes : ℕ → Option ℕ
two_writes key = do
  m₁ ← map_set hash same 0 5 empty 3 8
  m₂ ← map_set hash same 0 5 m₁ 603 9
  r ← read hash same 0 5 m₂ key
  r.1

second_run : two_writes 603 ≡ some 9
unfolding program
second_run = refl

first_run : two_writes 3 ≡ some 8
unfolding program
first_run = refl

missing_run : two_writes 4 ≡ none
unfolding program
missing_run = refl
