-- ===== src/Query/Context/Recent.antt =====
-- ConversationHistory::recent_user_questions.
use graphloom.Base.{
  ℕ, zero, suc, ◌-◌, ◌≤◌, ◌≡◌, refl, ap, ◌∙◌, Bool, List, [], ◌∷◌, ◌++◌, map, Text, ok, length,
  reverse, take, drop, filter, take_all, length-append, length-filter-le, append-nil, arith, ltb→lt,
  Bool-cases, inl, inr, usize_max, ltb,
}
use graphloom.Query.Context.{ConversationHistory, is_user, validate, recent_user_questions}

module _ {ℓ} {A : Type ℓ} where
  filter-append : (p : A → Bool) (xs ys : List A) → filter p (xs ++ ys) ≡ filter p xs ++ filter p ys
  filter-append p [] ys = refl
  filter-append p (x ∷ xs) ys = ground (arith, filter-append p xs ys)

  filter-reverse : (p : A → Bool) (xs : List A) → filter p (reverse xs) ≡ reverse (filter p xs)
  unfolding reverse
  filter-reverse p [] = refl
  filter-reverse p (x ∷ xs) =
      filter-append p (reverse xs) (x ∷ [])
      ∙ ground (arith, filter-reverse p xs, append-nil (reverse (filter p xs)))

  length-reverse : (xs : List A) → length (reverse xs) ≡ length xs
  unfolding reverse
  length-reverse [] = refl
  length-reverse (x ∷ xs) = omega (arith, length-append (reverse xs) (x ∷ []), length-reverse xs)

  take-append_le : (n : ℕ) (xs ys : List A) → n ≤ length xs → take n (xs ++ ys) ≡ take n xs
  take-append_le zero xs ys h = refl
  take-append_le (suc n) [] ys h = absurd (omega arith)
  take-append_le (suc n) (x ∷ xs) ys h = ap (λ l. x ∷ l) (take-append_le n xs ys (omega arith))

  take-reverse : (n : ℕ) (xs : List A) → take n (reverse xs) ≡ reverse (drop (length xs - n) xs)
  unfolding reverse
  take-reverse n [] =
      take_all n [] (omega arith) ∙ ap (λ k. reverse (drop {A = A} k [])) {x = 0} (omega arith)
  take-reverse n (x ∷ xs) = elim (Bool-cases (ltb (length xs) n)) [
    | inl h ↦
        take_all n (reverse xs ++ x ∷ []) (
          omega
            (arith, length-append (reverse xs) (x ∷ []), length-reverse xs, ltb→lt (length xs) n h))
        ∙ ap (λ k. reverse (drop k (x ∷ xs))) {x = 0} (omega (arith, ltb→lt (length xs) n h))
    | inr h ↦
        take-append_le n (reverse xs) (x ∷ []) (ground (arith, length-reverse xs, h))
        ∙ take-reverse n xs
        ∙ ap (λ k. reverse (drop k (x ∷ xs))) {x = suc (length xs - n)} (ground (arith, h))
  ]

module _ {ℓ κ} {A : Type ℓ} {B : Type κ} (f : A → B) where
  pub map-append : (xs ys : List A) → map f (xs ++ ys) ≡ map f xs ++ map f ys
  map-append [] ys = refl
  map-append (x ∷ xs) ys = ap (λ l. f x ∷ l) (map-append xs ys)

  map-reverse : (xs : List A) → map f (reverse xs) ≡ reverse (map f xs)
  unfolding reverse
  map-reverse [] = refl
  map-reverse (x ∷ xs) = map-append (reverse xs) (x ∷ []) ∙ ap (λ l. l ++ f x ∷ []) (map-reverse xs)

  pub length-map : (xs : List A) → length (map f xs) ≡ length xs
  length-map [] = refl
  length-map (x ∷ xs) = ap suc (length-map xs)

-- The questions of the user, in the order of the history.
abbrev pub questions : ConversationHistory → List Text
questions history = map (λ t. t.content) (filter is_user history.turns)

-- The last `n` of a list, the last one first; all of it for 0.
abbrev pub newest : ℕ → List Text → List Text
newest zero qs = reverse qs
newest (suc n) qs = reverse (drop (length qs - suc n) qs)

pub validate-bounded :
    (history : ConversationHistory) → validate history ≡ ok tt → length history.turns ≤ 1024
unfolding validate
validate-bounded history h = ground (arith, ltb→lt 1024 (length history.turns), h)

reversed_questions :
    (history : ConversationHistory)
    → map (λ t. t.content) (filter is_user (reverse history.turns)) ≡ reverse (questions history)
reversed_questions history =
    ap (map (λ t. t.content)) (filter-reverse is_user history.turns)
    ∙ map-reverse (λ t. t.content) (filter is_user history.turns)

-- For a history that validation accepts, recent_user_questions gives the last questions of the user,
-- as many as the maximum says and the newest first; and it gives all of them for a maximum of 0.
pub recent_user_questions-newest :
    (history : ConversationHistory) (max_turns : ℕ)
    → validate history ≡ ok tt
    → recent_user_questions history max_turns ≡ newest max_turns (questions history)
unfolding recent_user_questions reverse
recent_user_questions-newest history zero h =
    ap (take usize_max) (reversed_questions history)
    ∙ take_all usize_max (reverse (questions history)) (
        omega (
          arith,
          length-reverse (questions history),
          validate-bounded history h,
          length-map (λ t. t.content) (filter is_user history.turns),
          length-filter-le is_user history.turns,
        ))
recent_user_questions-newest history (suc n) h =
    ap (take (suc n)) (reversed_questions history) ∙ take-reverse (suc n) (questions history)
