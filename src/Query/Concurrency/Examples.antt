-- ===== src/Query/Concurrency/Examples.antt =====
-- Three futures with at most two pending, and the theorems there.
use graphloom.Base.{
  ℕ, ◌≡◌, ◌<◌, ◌≤◌, ◌⊎◌, refl, List, [], ◌∷◌, some, Result, ok, err, length, max, arith,
}
use graphloom.Base.Sorting.{sort_by, insert_by}
use graphloom.Query.Concurrency.{Window, choose, poll, start, run, ordered, try_buffered_ordered}
use graphloom.Query.Concurrency.Outcome.{
  IsOutcome, try_buffered_ordered-IsOutcome, Reachable, started, polled, Reachable-bounded,
}

program : Unit {0}
unfolding choose poll start run ordered try_buffered_ordered sort_by insert_by
program = tt

abbrev futures : List (Result ℕ ℕ)
futures = ok 10 ∷ ok 11 ∷ ok 12 ∷ []

-- The second future ends first, then the third, then the first.
abbrev schedule : List ℕ
schedule = 1 ∷ 1 ∷ 0 ∷ 0 ∷ []

values_ordered : try_buffered_ordered schedule futures 2 ≡ some (ok (10 ∷ 11 ∷ 12 ∷ []))
unfolding program
values_ordered = refl

error_first :
    try_buffered_ordered {E = ℕ} {T = ℕ} schedule (ok 10 ∷ err 7 ∷ ok 12 ∷ []) 2 ≡ some (err 7)
unfolding program
error_first = refl

try_buffered_ordered-IsOutcome_example :
    (r : Result ℕ (List ℕ)) × (try_buffered_ordered schedule futures 2 ≡ some r)
    × IsOutcome futures r
try_buffered_ordered-IsOutcome_example =
    try_buffered_ordered-IsOutcome futures 2 schedule (omega arith)

abbrev second : Window ℕ ℕ
second = record { futures = []; pending = (0, ok 10) ∷ (2, ok 12) ∷ []; completed = (1, 11) ∷ [] }

second-Reachable : Reachable futures 2 second
unfolding program
second-Reachable = polled started 1 second refl

Reachable-bounded_example :
    (length second.pending ≤ max 2 1) × ((second.futures ≡ []) ⊎ (0 < length second.pending))
Reachable-bounded_example = Reachable-bounded futures 2 second second-Reachable
