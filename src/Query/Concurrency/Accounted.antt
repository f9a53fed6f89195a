-- ===== src/Query/Concurrency/Accounted.antt =====
-- What every round of the loop of try_buffered_ordered in query/concurrency.rs keeps: no future is lost or
-- doubled.
use graphloom.Base.{
  ℕ, zero, suc, ◌+◌, ◌<◌, ◌≤◌, ◌≡◌, refl, ap, sym, ◌∙◌, subst, List, [], ◌∷◌, ◌++◌, map, Result, ok,
  err, nat_eq, arith, length, take, drop, max, length-append, length-take, length-drop,
  take-append-drop, inl, inr, ◌⊎◌, append_assoc,
}
use graphloom.Query.Drift.{enumerate}
use graphloom.Query.Concurrency.{choose, Window, running, returned, ordered, finish, poll, start}
use graphloom.Query.Concurrency.Indexed.{at, at-append, at-choose, at-enumerate_le}

module _ {E T : Type 0} where
  abbrev pub tagged : List (ℕ × T) → List (ℕ × Result E T)
  tagged completed = map (λ e. (e.0, ok e.1)) completed

  -- All the futures that a window knows of, with the values of those that have ended.
  abbrev pub all_of : Window E T → List (ℕ × Result E T)
  all_of w = tagged w.completed ++ (w.pending ++ w.futures)

  pub record IsAccounted (futures : List (Result E T)) (concurrency : ℕ) (w : Window E T)
      : Type 0 where
    pub accounted : (i : ℕ) → at i (all_of w) ≡ at i (enumerate 0 futures)
    pub bounded : length w.pending ≤ max concurrency 1
    pub fed : (w.futures ≡ []) ⊎ (0 < length w.pending)

  pub length-enumerate : (n : ℕ) (xs : List (Result E T)) → length (enumerate n xs) ≡ length xs
  length-enumerate n [] = refl
  length-enumerate n (x ∷ xs) = omega (arith, length-enumerate (suc n) xs)

  length-choose :
      (c : ℕ) (x : ℕ × Result E T) (xs : List (ℕ × Result E T))
      → length (choose c x xs).1 ≡ length xs
  unfolding choose
  length-choose zero x xs = refl
  length-choose (suc c) x [] = refl
  length-choose (suc c) x (y ∷ ys) = omega (arith, length-choose c y ys)

  drop-take_fed :
      (n : ℕ) (xs : List (ℕ × Result E T)) → (drop (suc n) xs ≡ []) ⊎ (0 < length (take (suc n) xs))
  drop-take_fed n [] = inl refl
  drop-take_fed n (x ∷ xs) = inr (omega arith)

  positive_fed :
      (n : ℕ) (xs : List (ℕ × Result E T)) → 0 < n → (drop n xs ≡ []) ⊎ (0 < length (take n xs))
  positive_fed zero xs h = absurd (omega arith)
  positive_fed (suc n) xs h = drop-take_fed n xs

  pub start-IsAccounted :
      (futures : List (Result E T)) (concurrency : ℕ)
      → IsAccounted futures concurrency (start futures concurrency)
  unfolding start
  start-IsAccounted futures concurrency = record {
    accounted = λ i. ap (at i) (take-append-drop (max concurrency 1) (enumerate 0 futures));
    bounded = omega (arith, length-take (max concurrency 1) (enumerate 0 futures));
    fed = positive_fed (max concurrency 1) (enumerate 0 futures) (omega arith);
  }

  -- One element moved from the pending ones to the completed ones, and one from the futures taken up.
  tagged-finish :
      (completed : List (ℕ × T)) (index : ℕ) (value : T) (rest futures : List (ℕ × Result E T))
      → tagged (completed ++ (index, value) ∷ []) ++ ((rest ++ take 1 futures) ++ drop 1 futures)
        ≡ tagged completed ++ (((index, ok value) ∷ rest) ++ futures)
  tagged-finish [] index value rest futures =
      ap (λ l. (index, ok value) ∷ l)
        (append_assoc rest (take 1 futures) (drop 1 futures)
          ∙ ap (λ l. rest ++ l) (take-append-drop 1 futures))
  tagged-finish (x ∷ completed) index value rest futures =
      ap (λ l. (x.0, ok x.1) ∷ l) (tagged-finish completed index value rest futures)

  fed_after :
      (rest futures : List (ℕ × Result E T))
      → (drop 1 futures ≡ []) ⊎ (0 < length (rest ++ take 1 futures))
  fed_after rest [] = inl refl
  fed_after rest (x ∷ xs) = inr (omega (arith, length-append rest (x ∷ [])))

  finish-IsAccounted :
      (futures : List (Result E T)) (concurrency : ℕ) (w next : Window E T)
      (chosen : ℕ × Result E T) (rest : List (ℕ × Result E T))
      → IsAccounted futures concurrency w
      → ((i : ℕ) → at i (chosen ∷ rest) ≡ at i w.pending)
      → suc (length rest) ≡ length w.pending
      → finish w chosen rest ≡ running next
      → IsAccounted futures concurrency next
        × (length next.pending + length next.futures < length w.pending + length w.futures)
  finish-IsAccounted futures concurrency w next (index, err e) rest h same l step = cc
  finish-IsAccounted futures concurrency w next (index, ok value) rest h same l step =
      subst
        (λ n.
          IsAccounted futures concurrency n
          × (length n.pending + length n.futures < length w.pending + length w.futures))
        {x = after} {y = next} (cc)
        (
          record {
            accounted = λ i.
                ap (at i) (tagged-finish w.completed index value rest w.futures)
                ∙ at-append i (tagged w.completed) (((index, ok value) ∷ rest) ++ w.futures)
                ∙ ap (λ l. at i (tagged w.completed) ++ l)
                    (at-append i ((index, ok value) ∷ rest) w.futures
                      ∙ ap (λ l. l ++ at i w.futures) (same i)
                      ∙ sym (at-append i w.pending w.futures))
                ∙ sym (at-append i (tagged w.completed) (w.pending ++ w.futures))
                ∙ h.accounted i;
            bounded =
                (let b = h.bounded in
                  omega (arith, length-append rest (take 1 w.futures), length-take 1 w.futures));
            fed = fed_after rest w.futures;
          },
          omega (
            arith,
            length-append rest (take 1 w.futures),
            length-take 1 w.futures,
            length-drop 1 w.futures,
          ),
        )
    where
      after : Window E T
      after = record {
        futures = drop 1 w.futures;
        pending = rest ++ take 1 w.futures;
        completed = w.completed ++ (index, value) ∷ [];
      }

  -- What is pending is small enough to be told apart by index.
  pending_small :
      (futures : List (Result E T)) (concurrency : ℕ) (w : Window E T) (i : ℕ)
      → IsAccounted futures concurrency w
      → length (at i w.pending) ≤ 1
  pending_small futures concurrency w i h =
      let whole = at-enumerate_le i 0 futures in
      let split =
        ap length
          (sym (h.accounted i) ∙ at-append i (tagged w.completed) (w.pending ++ w.futures)) in
      let inner = ap length (at-append i w.pending w.futures) in
      omega (
        arith,
        length-append (at i (tagged w.completed)) (at i (w.pending ++ w.futures)),
        length-append (at i w.pending) (at i w.futures),
      )

  pub chosen_same :
      (futures : List (Result E T)) (concurrency c i : ℕ) (w : Window E T) (p : ℕ × Result E T)
      (ps : List (ℕ × Result E T))
      → IsAccounted futures concurrency w
      → w.pending ≡ p ∷ ps
      → at i ((choose c p ps).0 ∷ (choose c p ps).1) ≡ at i w.pending
  chosen_same futures concurrency c i w p ps h e =
      at-choose i c p ps
        (subst (λ l. length (at i l) ≤ 1) e (pending_small futures concurrency w i h))
      ∙ sym (ap (at i) e)

  pub List-cases :
      (l : List (ℕ × Result E T))
      → (l ≡ []) ⊎ ((p : ℕ × Result E T) × (ps : List (ℕ × Result E T)) × (l ≡ p ∷ ps))
  List-cases [] = inl refl
  List-cases (p ∷ ps) = inr (p, ps, refl)

  pub poll_some :
      (c : ℕ) (w : Window E T) (p : ℕ × Result E T) (ps : List (ℕ × Result E T))
      → w.pending ≡ p ∷ ps
      → poll c w ≡ finish w (choose c p ps).0 (choose c p ps).1
  unfolding poll
  poll_some c w p ps e = rw (e, poll) refl

  pub poll_none :
      (c : ℕ) (w : Window E T) → w.pending ≡ [] → poll c w ≡ returned (ok (ordered w.completed))
  unfolding poll
  poll_none c w e = rw (e, poll) refl

  pub poll-IsAccounted :
      (futures : List (Result E T)) (concurrency c : ℕ) (w next : Window E T)
      → IsAccounted futures concurrency w
      → poll c w ≡ running next
      → IsAccounted futures concurrency next
        × (length next.pending + length next.futures < length w.pending + length w.futures)
  poll-IsAccounted futures concurrency c w next h step = elim (List-cases w.pending) [
    | inl e ↦ (let stop = poll_none c w e in cc)
    | inr (p, ps, e) ↦
        finish-IsAccounted futures concurrency w next (choose c p ps).0 (choose c p ps).1 h
          (λ i. chosen_same futures concurrency c i w p ps h e)
          (omega (arith, length-choose c p ps, ap length e)) (sym (poll_some c w p ps e) ∙ step)
  ]
