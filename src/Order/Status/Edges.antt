-- ===== src/Order/Status/Edges.antt =====
-- The transition graph of an order as a relation, and its ranks.
use test_task_autumn.Prelude.{
  ℕ, ◌+◌, ◌≤◌, ◌≡◌, ◌↔◌, true, arith, eq_iff, if◌then◌else◌, ◌==◌, nat_eq, string_eq,
}
use test_task_autumn.Order.Status.{
  Status, pending, accepted, rejected, preparing, ready, completed, cancelled, can_transition,
}

-- The eight edges of the graph.
pub data Edge (from to : Status) : Type 0 where
  accept : from ≡ pending → to ≡ accepted → Edge from to
  reject : from ≡ pending → to ≡ rejected → Edge from to
  cancel_pending : from ≡ pending → to ≡ cancelled → Edge from to
  prepare : from ≡ accepted → to ≡ preparing → Edge from to
  cancel_accepted : from ≡ accepted → to ≡ cancelled → Edge from to
  finish_preparing : from ≡ preparing → to ≡ ready → Edge from to
  cancel_preparing : from ≡ preparing → to ≡ cancelled → Edge from to
  complete : from ≡ ready → to ≡ completed → Edge from to

Edge-can_transition : {from to : Status} → Edge from to → can_transition from to ≡ true
unfolding can_transition
Edge-can_transition (accept p q) = rw (p, q)
Edge-can_transition (reject p q) = rw (p, q)
Edge-can_transition (cancel_pending p q) = rw (p, q)
Edge-can_transition (prepare p q) = rw (p, q)
Edge-can_transition (cancel_accepted p q) = rw (p, q)
Edge-can_transition (finish_preparing p q) = rw (p, q)
Edge-can_transition (cancel_preparing p q) = rw (p, q)
Edge-can_transition (complete p q) = rw (p, q)

pub can_transition_cases : (from to : Status) → can_transition from to ≡ true → Edge from to
unfolding can_transition
can_transition_cases from to h = grind (
  arith,
  eq_iff from pending,
  eq_iff from accepted,
  eq_iff from preparing,
  eq_iff from ready,
  eq_iff accepted to,
  eq_iff rejected to,
  eq_iff cancelled to,
  eq_iff preparing to,
  eq_iff ready to,
  eq_iff completed to,
  accept,
  reject,
  cancel_pending,
  prepare,
  cancel_accepted,
  finish_preparing,
  cancel_preparing,
  complete,
)

-- How far an order is along its life; a terminal status has rank 4.
unfoldable pub rank : Status → ℕ
rank s =
    if s == pending
    then 0
    else if s == accepted
    then 1
    else if s == preparing
    then 2
    else if s == ready
    then 3
    else 4

Edge-rank : {from to : Status} → Edge from to → rank from + 1 ≤ rank to
unfolding rank
Edge-rank (accept p q) = rw (p, q) (omega arith)
Edge-rank (reject p q) = rw (p, q) (omega arith)
Edge-rank (cancel_pending p q) = rw (p, q) (omega arith)
Edge-rank (prepare p q) = rw (p, q) (omega arith)
Edge-rank (cancel_accepted p q) = rw (p, q) (omega arith)
Edge-rank (finish_preparing p q) = rw (p, q) (omega arith)
Edge-rank (cancel_preparing p q) = rw (p, q) (omega arith)
Edge-rank (complete p q) = rw (p, q) (omega arith)

pub rank_of_transition :
    (from to : Status) → can_transition from to ≡ true → rank from + 1 ≤ rank to
rank_of_transition from to h = Edge-rank (can_transition_cases from to h)

pub rank-le : (s : Status) → rank s ≤ 4
unfolding rank
rank-le s = ground arith

-- The code allows a transition exactly where the graph has an edge.
pub can_transition_iff : (from to : Status) → (can_transition from to ≡ true) ↔ Edge from to
can_transition_iff from to = (can_transition_cases from to, Edge-can_transition)
