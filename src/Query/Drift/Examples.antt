-- ===== src/Query/Drift/Examples.antt =====
-- A DRIFT graph in which the second node is answered before the first, and the theorems there.
use graphloom.Base.{
  ℕ, ◌≡◌, refl, List, [], ◌∷◌, ◌++◌, map, none, some, Text, ok, codes, lookup, insert, get_elem?,
  set, text_beq,
}
use graphloom.Base.Sorting.{sort_by, insert_by}
use graphloom.Query.Drift.{
  DriftAction, DriftActionResponse, DriftQueryState, add_or_get, add_followups, add_root, apply,
  empty, incomplete_ids, reduce_answers, query_of, edges_in_graph_order,
}
use graphloom.Query.Drift.Identity.{IsWellFormed}
use graphloom.Query.Drift.Followups.{edges_to}
use graphloom.Query.Drift.Reachable.{
  Reachable, rooted, applied, started, Reachable-IsWellFormed, apply-followups,
}
use graphloom.Query.Drift.Order.{from, IsAscending, edges_in_graph_order-IsAscending}

program : Unit {0}
unfolding add_or_get add_followups add_root apply incomplete_ids reduce_answers query_of
    edges_in_graph_order sort_by insert_by lookup insert text_beq
program = tt

abbrev response : Text → List Text → DriftActionResponse ℕ
response answer queries = record { answer = some answer; score = 80; follow_up_queries = queries }

abbrev rooted_state : DriftQueryState ℕ ℕ
rooted_state = add_root 0 0 1 (codes "root") (codes "answer") 90 (codes "a" ∷ codes "b" ∷ []) empty

abbrev second_state : DriftQueryState ℕ ℕ
second_state = (apply 0 0 1 2 (response (codes "second") (codes "d" ∷ [])) 7 rooted_state).1

abbrev last_state : DriftQueryState ℕ ℕ
last_state = (apply 0 0 1 1 (response [] (codes "c" ∷ codes "root" ∷ [])) 7 second_state).1

edges_ordered :
    map {B = ℕ × ℕ} (λ e. (e.source, e.target)) (edges_in_graph_order last_state)
    ≡ (0, 1) ∷ (0, 2) ∷ (1, 4) ∷ (1, 0) ∷ (2, 3) ∷ []
unfolding program
edges_ordered = refl

open_actions : incomplete_ids last_state ≡ 3 ∷ 4 ∷ []
unfolding program
open_actions = refl

answers_reduced : reduce_answers last_state ≡ codes "answer" ∷ codes "second" ∷ []
unfolding program
answers_reduced = refl

second-Reachable : Reachable 0 0 1 second_state
second-Reachable =
    applied (rooted started (codes "root") (codes "answer") 90 (codes "a" ∷ codes "b" ∷ [])) 2
      (response (codes "second") (codes "d" ∷ [])) 7

Reachable-IsWellFormed_example : IsWellFormed second_state
Reachable-IsWellFormed_example = Reachable-IsWellFormed 0 0 1 second_state second-Reachable

abbrev first_action : DriftAction ℕ ℕ
first_action = record { id = 1; query = codes "a"; answer = none; score = 0; metadata = 0 }

first_there : get_elem? second_state.nodes 1 ≡ some first_action
unfolding program
first_there = refl

apply-followups_example :
    (t : DriftQueryState ℕ ℕ) × (added : List (DriftAction ℕ ℕ)) × (targets : List ℕ) × (apply 0 0 1
        1
        (response [] (codes "c" ∷ codes "root" ∷ []))
        7
        second_state
      ≡ (ok tt, t))
    × (t.nodes
        ≡ set second_state.nodes 1
            (record first_action { answer = some []; score = 80; metadata = 7 })
          ++ added)
    × (t.edges ≡ second_state.edges ++ edges_to {Metadata = ℕ} 0 0 1 1 targets)
    × (map (λ i. query_of i t) targets ≡ map some (codes "c" ∷ codes "root" ∷ []))
apply-followups_example =
    apply-followups 0 0 1 second_state first_action 1 (response [] (codes "c" ∷ codes "root" ∷ []))
      7 second-Reachable first_there

edges_in_graph_order-IsAscending_example :
    IsAscending (edges_in_graph_order last_state)
    × (from 1 (edges_in_graph_order last_state) ≡ from 1 last_state.edges)
edges_in_graph_order-IsAscending_example = edges_in_graph_order-IsAscending last_state 1
