-- ===== src/Query/Concurrency.antt =====
-- query/concurrency.rs: try_buffered_ordered, which runs futures with a bound on how many are pending.
-- A future stands here as the result it ends with. Which of the pending futures ends next is not the
-- code's choice: `FuturesUnordered::next` gives the one at a position that the schedule says.
pub mod Indexed
pub mod Accounted
pub mod Outcome
mod Examples
use Prim.Native.Nat.{Ordering, compare}
use graphloom.Base.{
  ℕ, zero, suc, Bool, Option, none, some, List, [], ◌∷◌, ◌++◌, map, Result, ok, err, take, drop,
  max,
}
use graphloom.Base.Sorting.{sort_by}
use graphloom.Query.Drift.{enumerate}

-- The order of `sort_unstable_by_key(|(index, _)| *index)`. No two indexes are the same, so that it is
-- one with the stable sort.
abbrev pub index_cmp : {V : Type 0} → ℕ × V → ℕ × V → Ordering
index_cmp a b = compare a.0 b.0

-- The element at position `c`, or the last one, and the others.
unfoldable pub choose : {A : Type 0} → ℕ → A → List A → A × List A
choose zero x xs = (x, xs)
choose (suc c) x [] = (x, [])
choose (suc c) x (y ∷ ys) = let (chosen, rest) = choose c y ys in (chosen, x ∷ rest)

-- The variables of the loop: the futures not yet started, those that are pending, and the values.
pub record Window (E T : Type 0) : Type 0 where
  pub futures : List (ℕ × Result E T)
  pub pending : List (ℕ × Result E T)
  pub completed : List (ℕ × T)

-- What one round of the loop comes to.
pub data Progress (E T : Type 0) : Type 0 where
  running : Window E T → Progress E T
  returned : Result E (List T) → Progress E T

unfoldable pub ordered : {T : Type 0} → List (ℕ × T) → List T
ordered completed = map (λ e. e.1) (sort_by index_cmp completed)

module _ {E T : Type 0} where
  -- One round, with the future that ends next at position `c` of the pending ones.
  abbrev pub finish : Window E T → ℕ × Result E T → List (ℕ × Result E T) → Progress E T
  finish w (index, err e) rest = returned (err e)
  finish w (index, ok value) rest = running (record {
    futures = drop 1 w.futures;
    pending = rest ++ take 1 w.futures;
    completed = w.completed ++ (index, value) ∷ [];
  })

  unfoldable pub poll : ℕ → Window E T → Progress E T
  poll c w = elim w.pending [
    | [] ↦ returned (ok (ordered w.completed))
    | p ∷ ps ↦ finish w (choose c p ps).0 (choose c p ps).1
  ]

  -- The window before the loop.
  unfoldable pub start : List (Result E T) → (concurrency : ℕ) → Window E T
  start futures concurrency = record {
    futures = drop (max concurrency 1) (enumerate 0 futures);
    pending = take (max concurrency 1) (enumerate 0 futures);
    completed = [];
  }

  -- The loop under a schedule: none where the schedule ends before it returns.
  unfoldable pub run : List ℕ → Window E T → Option (Result E (List T))
  run [] w = none
  run (c ∷ cs) w = elim (poll c w) [ returned r ↦ some r | running next ↦ run cs next ]

  unfoldable pub try_buffered_ordered :
      List ℕ → List (Result E T) → (concurrency : ℕ) → Option (Result E (List T))
  try_buffered_ordered schedule futures concurrency = run schedule (start futures concurrency)
