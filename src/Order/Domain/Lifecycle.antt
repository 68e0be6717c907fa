-- ===== src/Order/Domain/Lifecycle.antt =====
-- The life of an order under `transition_to`: any sequence of requested statuses.
use test_task_autumn.Prelude.{
  ◌+◌, ◌≤◌, ◌≡◌, refl, ◌≢◌, ◌⊎◌, inl, inr, true, false, List, [], ◌∷◌, arith, eq_iff, ◌==◌, nat_eq,
  string_eq, Bool-cases, ok, err,
}
use test_task_autumn.Prelude.Words.{add64}
use test_task_autumn.Order.Status.{Status, pending, rejected, completed, cancelled, can_transition}
use test_task_autumn.Order.Status.Edges.{
  Edge, can_transition_iff, rank, rank-le, rank_of_transition,
}
use test_task_autumn.Order.Errors.{invalid_status_transition}
use test_task_autumn.Order.Domain.{Order, NewOrderInput, new_order, transition_to}
use test_task_autumn.Order.Domain.Totals.{new_order-Snapshot}

-- The order after requests for these statuses, in turn, the refused ones among them.
unfoldable pub run : Order → List Status → Order
run o [] = o
run o (next ∷ rest) = run (transition_to o next).0 rest

-- Each change of status took one version, and raised the rank.
pub record IsPaced (o : Order) : Type 0 where
  pub positive : 1 ≤ o.version
  pub paced : o.version ≤ 1 + rank o.status

abbrev pub IsTerminal : Status → Type 0
IsTerminal s = (s ≡ rejected) ⊎ (s ≡ completed) ⊎ (s ≡ cancelled)

transition_to-IsPaced : (o : Order) (next : Status) → IsPaced o → IsPaced (transition_to o next).0
unfolding transition_to
transition_to-IsPaced o next h = ground (arith, rank_of_transition o.status next, rank-le next)

run-IsPaced : (o : Order) (ss : List Status) → IsPaced o → IsPaced (run o ss)
unfolding run
run-IsPaced o [] h = h
run-IsPaced o (next ∷ rest) h =
    run-IsPaced (transition_to o next).0 rest (transition_to-IsPaced o next h)

rank-pending : 0 ≡ rank pending
unfolding rank
rank-pending = refl

-- Whatever statuses are requested of a new order, its version stays between 1 and 5.
pub version-run :
    (input : NewOrderInput) (o : Order) (ss : List Status)
    → new_order input ≡ ok o
    → (1 ≤ (run o ss).version) × ((run o ss).version ≤ 5)
version-run input o ss h =
    let s = (new_order-Snapshot input o).0 h in
    let v = run-IsPaced o ss (omega (arith, s.version)) in
    omega (arith, rank-le (run o ss).status, v)

no_edge_from_terminal : (s next : Status) → IsTerminal s → can_transition s next ≡ false
unfolding can_transition
no_edge_from_terminal s next (inl e) = rw e
no_edge_from_terminal s next (inr (inl e)) = rw e
no_edge_from_terminal s next (inr (inr e)) = rw e

transition_to_terminal :
    (o : Order) (next : Status) → IsTerminal o.status → (transition_to o next).0 ≡ o
unfolding transition_to
transition_to_terminal o next t = ground (arith, no_edge_from_terminal o.status next t)

-- Once rejected, completed or cancelled, an order never changes, whatever statuses are requested.
pub run_terminal : (o : Order) (ss : List Status) → IsTerminal o.status → run o ss ≡ o
unfolding run
run_terminal o [] t = refl
run_terminal o (next ∷ rest) t = rw (transition_to_terminal o next t) (run_terminal o rest t)

abbrev pub moved : Order → Status → Order
moved o next = record o { status = next; version = add64 o.version 1 }

-- A request for the present status is a no-op; one that the graph has no edge for is refused, and
-- the order is left alone; any other moves the order to the status, under the next version.
pub transition_to_cases :
    (o : Order) (next : Status)
    → ((o.status ≡ next) × (transition_to o next ≡ (o, ok false)))
      ⊎ ((o.status ≢ next)
          × (¬ Edge o.status next)
          × (transition_to o next ≡ (o, err (invalid_status_transition o.status next))))
      ⊎ ((o.status ≢ next) × Edge o.status next × (transition_to o next ≡ (moved o next, ok true)))
unfolding transition_to
transition_to_cases o next = elim (Bool-cases (o.status == next)) [
  | inl same ↦ inl ((eq_iff o.status next).0 same, rw same)
  | inr differ ↦
      let ne : o.status ≢ next = λ e. ground (arith, eq_iff o.status next) in
      elim (Bool-cases (can_transition o.status next)) [
        | inl edge ↦ inr (inr (ne, (can_transition_iff o.status next).0 edge, rw (differ, edge)))
        | inr absent ↦
            inr (inl (ne, λ e. cc ((can_transition_iff o.status next).1 e), rw (differ, absent)))
      ]
]
