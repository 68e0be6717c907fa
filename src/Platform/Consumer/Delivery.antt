-- ===== src/Platform/Consumer/Delivery.antt =====
-- What the consumer fetches, has handled and commits, and in which order.
use test_task_autumn.Prelude.{
  ℕ, String, ◌≡◌, refl, sym, ap, ◌∙◌, List, [], ◌∷◌, ◌++◌, map, nat_eq, string_eq, Result, ok, err,
}
use mathlib.Core.List.{append-nil, map-append}
use mathlib.Core.Path.{subst}
use test_task_autumn.Platform.Consumer.{
  Record, Message, message, World, Call, fetched, handled, committed, run,
}
use test_task_autumn.Platform.Consumer.Trace.{
  Phase, idle, handling, committing, Trace, start, fetch_fails, fetches, handle_fails, handles,
  commit_fails, commits, run-IsTraced,
}

-- The records that were fetched, the messages that were handled and the records that were committed, all
-- of them with success, the earliest first.
unfoldable pub fetched_records : List Call → List Record
fetched_records [] = []
fetched_records (fetched (ok r) ∷ cs) = fetched_records cs ++ r ∷ []
fetched_records (fetched (err e) ∷ cs) = fetched_records cs
fetched_records (handled m result ∷ cs) = fetched_records cs
fetched_records (committed r result ∷ cs) = fetched_records cs

unfoldable pub handled_messages : List Call → List Message
handled_messages [] = []
handled_messages (handled m (ok _) ∷ cs) = handled_messages cs ++ m ∷ []
handled_messages (handled m (err e) ∷ cs) = handled_messages cs
handled_messages (fetched result ∷ cs) = handled_messages cs
handled_messages (committed r result ∷ cs) = handled_messages cs

unfoldable pub committed_records : List Call → List Record
committed_records [] = []
committed_records (committed r (ok _) ∷ cs) = committed_records cs ++ r ∷ []
committed_records (committed r (err e) ∷ cs) = committed_records cs
committed_records (fetched result ∷ cs) = committed_records cs
committed_records (handled m result ∷ cs) = committed_records cs

-- The record that is fetched and not yet committed, and its message once it is handled.
abbrev pub in_flight : Phase → List Record
in_flight idle = []
in_flight (handling r) = r ∷ []
in_flight (committing r) = r ∷ []

abbrev pub handled_in_flight : Phase → List Message
handled_in_flight idle = []
handled_in_flight (handling r) = []
handled_in_flight (committing r) = message r ∷ []

abbrev pub IsInOrder : List Call → Type 0
IsInOrder cs =
    (p : Phase) × (fetched_records cs ≡ committed_records cs ++ in_flight p)
    × (handled_messages cs ≡ map message (committed_records cs) ++ handled_in_flight p)

Trace-in_order :
    {cs : List Call} {p : Phase}
    → Trace cs p
    → (fetched_records cs ≡ committed_records cs ++ in_flight p)
      × (handled_messages cs ≡ map message (committed_records cs) ++ handled_in_flight p)
unfolding fetched_records handled_messages committed_records
Trace-in_order start = (refl, refl)
Trace-in_order (fetch_fails e t) = Trace-in_order t
Trace-in_order (fetches r t) = let (f, h) = Trace-in_order t in (rw (f, append-nil) refl, h)
Trace-in_order (handle_fails e t) = Trace-in_order t
Trace-in_order (handles t) = let (f, h) = Trace-in_order t in (f, rw (h, append-nil) refl)
Trace-in_order (commit_fails e t) = Trace-in_order t
Trace-in_order (commits {cs} {r} t) =
    let (f, h) = Trace-in_order t in
    (
      f ∙ sym (append-nil _),
      h ∙ sym (append-nil _ ∙ map-append message (committed_records cs) (r ∷ [])),
    )

-- Whatever the broker, the handler and the context do, and however long `Run` has run: the records that
-- it committed are those that it fetched, in order, but for at most the last one; and the handler
-- succeeded once on each record that it committed, in order, and at most on that last one besides.
pub run-IsInOrder :
    {W : Type 0} (w : World W) (attempts rounds : ℕ) (world : W)
    → IsInOrder (run w attempts rounds (record { world = world; calls = [] })).1.calls
run-IsInOrder w attempts rounds world =
    let (p, t) = run-IsTraced w attempts rounds (record { world = world; calls = [] }) start in
    let (f, h) = Trace-in_order t in (p, f, h)

earlier-Trace :
    {p : Phase} (later cs : List Call) → Trace (later ++ cs) p → (q : Phase) × Trace cs q
earlier-Trace {p} [] cs t = (p, t)
earlier-Trace (_ ∷ later) cs (fetch_fails e t) = earlier-Trace later cs t
earlier-Trace (_ ∷ later) cs (fetches r t) = earlier-Trace later cs t
earlier-Trace (_ ∷ later) cs (handle_fails e t) = earlier-Trace later cs t
earlier-Trace (_ ∷ later) cs (handles t) = earlier-Trace later cs t
earlier-Trace (_ ∷ later) cs (commit_fails e t) = earlier-Trace later cs t
earlier-Trace (_ ∷ later) cs (commits t) = earlier-Trace later cs t

-- Straight after a success of the handler on the record's message, but for refused commits of the record.
abbrev pub IsHandledBefore : Record → List Call → Type 0
IsHandledBefore r cs =
    (refusals : List String) × (older : List Call) × (cs
      ≡ map (λ e. committed r (err e)) refusals ++ handled (message r) (ok tt) ∷ older)

committing_handled : {cs : List Call} {r : Record} → Trace cs (committing r) → IsHandledBefore r cs
committing_handled (handles {cs} t) = ([], cs, refl)
committing_handled (commit_fails {r = r} e t) =
    let (refusals, older, same) = committing_handled t in
    (e ∷ refusals, older, ap (λ cs. committed r (err e) ∷ cs) same)

commit_handled :
    {cs : List Call} {p : Phase} (r : Record) (result : Result String (Unit {0}))
    → Trace (committed r result ∷ cs) p
    → IsHandledBefore r cs
commit_handled r _ (commit_fails e t) = committing_handled t
commit_handled r _ (commits t) = committing_handled t

-- Whatever the broker, the handler and the context do: each call of `Run` to commit a record, refused
-- calls included, stands straight after a success of the handler on the record's message, with nothing
-- between but refused commits of that record.
pub run_commits_handled :
    {W : Type 0} (w : World W) (attempts rounds : ℕ) (world : W) (later earlier : List Call)
    (r : Record) (result : Result String (Unit {0}))
    → (run w attempts rounds (record { world = world; calls = [] })).1.calls
      ≡ later ++ committed r result ∷ earlier
    → IsHandledBefore r earlier
run_commits_handled w attempts rounds world later earlier r result split =
    let (p, t) = run-IsTraced w attempts rounds (record { world = world; calls = [] }) start in
    let (q, made) =
      earlier-Trace later (committed r result ∷ earlier) (subst (λ cs. Trace cs p) split t) in
    commit_handled r result made
