-- ===== src/Order/Status.antt =====
-- internal/order/domain/status.go: the statuses of an order and the transitions that are allowed.
pub mod Edges
use test_task_autumn.Prelude.{
  ℕ, zero, suc, ◌+◌, ◌-◌, ◌*◌, ◌/◌, ◌%◌, ◌^◌, ◌≤◌, ◌<◌, String, ◌<>◌, ◌≡◌, refl, sym, ap, ◌∙◌, ◌≢◌,
  ◌↔◌, ◌⊎◌, inl, inr, Bool, true, false, not, ◌&&◌, ◌||◌, Option, none, some, List, [], ◌∷◌, ◌++◌,
  map, arith, eq_iff, eq_refl, ltb, leb, if◌then◌else◌, Eq, ◌==◌, ◌!=◌, nat_eq, string_eq,
  Bool-cases, Option-cases, Map, empty_map, insert, length, is_empty, take, keep_if, All,
  length-append, is_empty-append_cons, length-take-le, contains, Result, ok, err, ◌>>=◌, >>=-eq-ok,
  Result-cases, ◌>>◌, fail_if,
}

abbrev pub Status : Type 0
Status = String

abbrev pub pending : Status
pending = "pending_restaurant_confirmation"

abbrev pub accepted : Status
accepted = "accepted"

abbrev pub rejected : Status
rejected = "rejected"

abbrev pub preparing : Status
preparing = "preparing"

abbrev pub ready : Status
ready = "ready"

abbrev pub completed : Status
completed = "completed"

abbrev pub cancelled : Status
cancelled = "cancelled"

-- `allowed[from]`; a key that the map lacks has the nil slice
unfoldable pub allowed : Status → List Status
allowed from =
    if from == pending
    then accepted ∷ rejected ∷ cancelled ∷ []
    else if from == accepted
    then preparing ∷ cancelled ∷ []
    else if from == preparing
    then ready ∷ cancelled ∷ []
    else if from == ready
    then completed ∷ []
    else []

unfoldable pub can_transition : Status → Status → Bool
unfolding allowed
can_transition from to = contains (allowed from) to
