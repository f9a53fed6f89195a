-- ===== src/Query/Concurrency/Outcome.antt =====
-- What try_buffered_ordered of query/concurrency.rs returns, whatever order the futures end in.
use graphloom.Base.{
  ℕ, zero, suc, ◌+◌, ◌<◌, ◌≤◌, ◌≡◌, refl, ap, sym, ◌∙◌, subst, some, List, [], ◌∷◌, ◌++◌, map,
  Result, ok, err, nat_eq, arith, length, max, length-append, length-take, length-drop, get_elem?,
  inl, inr, ◌⊎◌, append-nil,
}
use graphloom.Base.Sorting.{sort_by, insert_by, sort_by-IsSorted}
use graphloom.Query.Drift.{enumerate}
use graphloom.Query.Concurrency.{
  index_cmp, choose, Window, Progress, running, returned, ordered, finish, poll, start, run,
  try_buffered_ordered,
}
use graphloom.Query.Concurrency.Indexed.{
  at, at-append, at-sort_by, at-enumerate_le, sorted-enumerate, index_cmp-IsOrder,
}
use graphloom.Query.Concurrency.Accounted.{
  tagged, IsAccounted, length-enumerate, start-IsAccounted, chosen_same, List-cases, poll_some,
  poll_none, poll-IsAccounted,
}

module _ {E T : Type 0} where
  -- What a round returns is what all the futures have, or the error of one of them.
  abbrev pub IsOutcome : List (Result E T) → Result E (List T) → Type 0
  IsOutcome futures (ok values) = map ok values ≡ futures
  IsOutcome futures (err e) = (i : ℕ) × (get_elem? futures i ≡ some (err e))

  tagged-insert_by :
      (x : ℕ × T) (xs : List (ℕ × T))
      → insert_by (index_cmp {V = Result E T}) (x.0, ok x.1) (tagged {E = E} xs)
        ≡ tagged {E = E} (insert_by index_cmp x xs)
  unfolding insert_by
  tagged-insert_by x [] = refl
  tagged-insert_by x (y ∷ ys) = ground (arith, tagged-insert_by x ys)

  tagged-sort_by :
      (xs : List (ℕ × T))
      → sort_by index_cmp (tagged {E = E} xs) ≡ tagged {E = E} (sort_by index_cmp xs)
  unfolding sort_by
  tagged-sort_by [] = refl
  tagged-sort_by (x ∷ xs) =
      ap (insert_by index_cmp (x.0, ok x.1)) (tagged-sort_by xs)
      ∙ tagged-insert_by x (sort_by index_cmp xs)

  values-tagged :
      (xs : List (ℕ × T))
      → map {B = Result E T} (λ v. ok v) (map (λ e. e.1) xs) ≡ map (λ e. e.1) (tagged {E = E} xs)
  values-tagged [] = refl
  values-tagged (x ∷ xs) = ap (λ l. ok x.1 ∷ l) (values-tagged xs)

  values-enumerate : (n : ℕ) (xs : List (Result E T)) → map (λ e. e.1) (enumerate n xs) ≡ xs
  values-enumerate n [] = refl
  values-enumerate n (x ∷ xs) = ap (λ l. x ∷ l) (values-enumerate (suc n) xs)

  futures_empty :
      (futures : List (Result E T)) (concurrency : ℕ) (w : Window E T)
      → IsAccounted futures concurrency w
      → w.pending ≡ []
      → w.futures ≡ []
  futures_empty futures concurrency w h e = elim h.fed [
    | inl none_left ↦ none_left
    | inr some_left ↦ absurd (omega (arith, ap length e))
  ]

  ordered-accounted :
      (futures : List (Result E T)) (concurrency : ℕ) (w : Window E T)
      → IsAccounted futures concurrency w
      → w.pending ≡ []
      → map (λ v. ok v) (ordered w.completed) ≡ futures
  unfolding ordered
  ordered-accounted futures concurrency w h e =
      let none_left = futures_empty futures concurrency w h e in
      let same : (i : ℕ) → at i (tagged {E = E} w.completed) ≡ at i (enumerate 0 futures) = λ i.
        ap (at i) (
          sym (append-nil (tagged {E = E} w.completed))
          ∙ ap (λ l. tagged {E = E} w.completed ++ (l ++ [])) (sym e)
          ∙ ap (λ l. tagged {E = E} w.completed ++ (w.pending ++ l)) (sym none_left))
        ∙ h.accounted i in
      values-tagged (sort_by index_cmp w.completed)
      ∙ ap (map (λ e. e.1)) (
          sym (tagged-sort_by w.completed)
          ∙ sorted-enumerate 0 (sort_by index_cmp (tagged {E = E} w.completed)) futures
              (sort_by-IsSorted index_cmp index_cmp-IsOrder (tagged {E = E} w.completed))
              (λ i. at-sort_by i (tagged {E = E} w.completed) ∙ same i))
      ∙ values-enumerate 0 futures

  get_elem?-at :
      (n i : ℕ) (xs : List (Result E T)) (v : Result E T) (rest : List (Result E T))
      → at (n + i) (enumerate n xs) ≡ v ∷ rest
      → get_elem? xs i ≡ some v
  get_elem?-at n i [] v rest h = ground arith
  get_elem?-at n zero (x ∷ xs) v rest h = ground arith
  get_elem?-at n (suc i) (x ∷ xs) v rest h = get_elem?-at (suc n) i xs v rest (
      ap (λ j. at j (enumerate (suc n) xs)) {x = suc n + i} {y = n + suc i} (omega arith)
      ∙ ground arith)

  only_one :
      (a b c : List (Result E T)) (v : Result E T)
      → length (a ++ ((v ∷ b) ++ c)) ≤ 1
      → a ++ ((v ∷ b) ++ c) ≡ v ∷ []
  only_one [] [] [] v h = refl
  only_one [] [] (x ∷ c) v h = absurd (omega arith)
  only_one [] (x ∷ b) c v h = absurd (omega arith)
  only_one (x ∷ a) b c v h = absurd (omega (arith, length-append a ((v ∷ b) ++ c)))

  finish-failed :
      (futures : List (Result E T)) (concurrency : ℕ) (w : Window E T) (chosen : ℕ × Result E T)
      (rest : List (ℕ × Result E T)) (r : Result E (List T))
      → IsAccounted futures concurrency w
      → ((i : ℕ) → at i (chosen ∷ rest) ≡ at i w.pending)
      → finish w chosen rest ≡ returned r
      → IsOutcome futures r
  finish-failed futures concurrency w (index, ok value) rest r h same step = cc
  finish-failed futures concurrency w (index, err e) rest r h same step =
      let here : at index ((index, err e) ∷ rest) ≡ err e ∷ at index rest = ground arith in
      let whole : at index (enumerate 0 futures)
          ≡ at index (tagged {E = E} w.completed)
            ++ ((err e ∷ at index rest) ++ at index w.futures) =
        sym (h.accounted index)
        ∙ at-append index (tagged {E = E} w.completed) (w.pending ++ w.futures)
        ∙ ap (λ l. at index (tagged {E = E} w.completed) ++ l)
            (at-append index w.pending w.futures
              ∙ ap (λ l. l ++ at index w.futures) (sym (same index) ∙ here)) in
      let small = at-enumerate_le index 0 futures in
      let single =
        only_one (at index (tagged {E = E} w.completed)) (at index rest) (at index w.futures)
          (err e) (subst (λ l. length l ≤ 1) whole small) in
      let found = get_elem?-at 0 index futures (err e) [] (
        ap (λ j. at j (enumerate 0 futures)) {x = 0 + index} {y = index} (omega arith)
        ∙ whole
        ∙ single) in
      subst (IsOutcome futures) {x = err e} {y = r} (cc) (index, found)

  poll-IsOutcome :
      (futures : List (Result E T)) (concurrency c : ℕ) (w : Window E T) (r : Result E (List T))
      → IsAccounted futures concurrency w
      → poll c w ≡ returned r
      → IsOutcome futures r
  poll-IsOutcome futures concurrency c w r h step = elim (List-cases w.pending) [
    | inl e ↦
        subst (IsOutcome futures) {x = ok (ordered w.completed)} {y = r}
          (let stop = poll_none c w e in cc) (ordered-accounted futures concurrency w h e)
    | inr (p, ps, e) ↦
        finish-failed futures concurrency w (choose c p ps).0 (choose c p ps).1 r h
          (λ i. chosen_same futures concurrency c i w p ps h e) (sym (poll_some c w p ps e) ∙ step)
  ]

  Progress-cases :
      (p : Progress E T)
      → ((r : Result E (List T)) × (p ≡ returned r)) ⊎ ((w : Window E T) × (p ≡ running w))
  Progress-cases (returned r) = inl (r, refl)
  Progress-cases (running w) = inr (w, refl)

  run-IsOutcome :
      (futures : List (Result E T)) (concurrency : ℕ) (schedule : List ℕ) (w : Window E T)
      → IsAccounted futures concurrency w
      → length w.pending + length w.futures < length schedule
      → (r : Result E (List T)) × (run schedule w ≡ some r) × IsOutcome futures r
  unfolding run
  run-IsOutcome futures concurrency [] w h l = absurd (omega arith)
  run-IsOutcome futures concurrency (c ∷ cs) w h l = elim (Progress-cases (poll c w)) [
    | inl (r, e) ↦ (r, rw (e, run) refl, poll-IsOutcome futures concurrency c w r h e)
    | inr (next, e) ↦
        (let (kept, less) = poll-IsAccounted futures concurrency c w next h e in
          let (r, done, outcome) = run-IsOutcome futures concurrency cs next kept (omega arith) in
          (r, rw (e, run) done, outcome))
  ]

  -- For any futures and any bound, in whatever order the pending futures end: once as many rounds are
  -- made as there are futures, and one more, try_buffered_ordered has returned; and what it returned
  -- is either the values of all the futures, in the order of the futures, or the error of one of them.
  pub try_buffered_ordered-IsOutcome :
      (futures : List (Result E T)) (concurrency : ℕ) (schedule : List ℕ)
      → length futures < length schedule
      → (r : Result E (List T)) × (try_buffered_ordered schedule futures concurrency ≡ some r)
        × IsOutcome futures r
  unfolding try_buffered_ordered start
  try_buffered_ordered-IsOutcome futures concurrency schedule l =
      run-IsOutcome futures concurrency schedule (start futures concurrency)
        (start-IsAccounted futures concurrency)
        (omega (
          arith,
          length-take (max concurrency 1) (enumerate 0 futures),
          length-drop (max concurrency 1) (enumerate 0 futures),
          length-enumerate 0 futures,
        ))

  -- The windows that the loop comes to, in whatever order the futures end.
  pub data Reachable (futures : List (Result E T)) (concurrency : ℕ) : Window E T → Type 0 where
    started : Reachable futures concurrency (start futures concurrency)
    polled :
        {w : Window E T}
        → Reachable futures concurrency w
        → (c : ℕ) (next : Window E T) → poll c w ≡ running next
        → Reachable futures concurrency next

  Reachable-IsAccounted :
      (futures : List (Result E T)) (concurrency : ℕ) (w : Window E T)
      → Reachable futures concurrency w
      → IsAccounted futures concurrency w
  Reachable-IsAccounted futures concurrency _ started = start-IsAccounted futures concurrency
  Reachable-IsAccounted futures concurrency _ (polled {w} before c next step) =
      (poll-IsAccounted futures concurrency c w next
        (Reachable-IsAccounted futures concurrency w before) step).0

  -- At no time are more futures pending than the bound, or than one where the bound is 0; and while
  -- there are futures that have not started, at least one is pending.
  pub Reachable-bounded :
      (futures : List (Result E T)) (concurrency : ℕ) (w : Window E T)
      → Reachable futures concurrency w
      → (length w.pending ≤ max concurrency 1) × ((w.futures ≡ []) ⊎ (0 < length w.pending))
  Reachable-bounded futures concurrency w r =
      let h = Reachable-IsAccounted futures concurrency w r in (h.bounded, h.fed)
