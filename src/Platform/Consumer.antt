-- ===== src/Platform/Consumer.antt =====
-- internal/platform/kafkaconsume/consumer.go. The context, the timer, the broker, the handler and the
-- handler of errors are arguments, over a state `W` that they share. The loops run on fuel: `none` is a
-- loop that goes on. The state also keeps the calls to the broker and to the handler, which no code
-- reads. Byte slices are values, so the copies keep them as they are.
pub mod Trace
pub mod Delivery
pub mod Progress
pub mod Config
use test_task_autumn.Prelude.{
  ℕ, zero, suc, ◌+◌, ◌-◌, ◌*◌, ◌/◌, ◌%◌, ◌^◌, ◌≤◌, ◌<◌, String, ◌<>◌, ◌≡◌, refl, sym, ap, ◌∙◌, ◌≢◌,
  ◌↔◌, ◌⊎◌, inl, inr, Bool, true, false, not, ◌&&◌, ◌||◌, Option, none, some, List, [], ◌∷◌, ◌++◌,
  map, arith, eq_iff, eq_refl, ltb, leb, if◌then◌else◌, Eq, ◌==◌, ◌!=◌, nat_eq, string_eq,
  Bool-cases, Option-cases, Map, empty_map, insert, length, is_empty, take, keep_if, All,
  length-append, is_empty-append_cons, length-take-le, contains, Result, ok, err, ◌>>=◌, >>=-eq-ok,
  Result-cases, ◌>>◌, fail_if,
}

pub record Message : Type 0 where
  pub topic : String
  pub key : String
  pub value : String
  pub headers : Map String String

pub record Record : Type 0 where
  pub topic : String
  pub partition : ℕ
  pub offset : ℕ
  pub key : String
  pub value : String
  pub headers : Map String String

-- `Record.message`
abbrev pub message : Record → Message
message r = record { topic = r.topic; key = r.key; value = r.value; headers = r.headers }

-- What `kafka.Reader` gives and takes of a message.
pub record KafkaMessage : Type 0 where
  pub topic : String
  pub partition : ℕ
  pub offset : ℕ
  pub key : String
  pub value : String
  pub headers : List (String × String)

-- The loop over the headers: a later one of the same key replaces an earlier one.
unfoldable pub header_map : Map String String → List (String × String) → Map String String
header_map found [] = found
header_map found ((key, value) ∷ rest) = header_map (insert found key value) rest

-- the record that `readerAdapter.Fetch` returns
abbrev pub record_of : KafkaMessage → Record
record_of m = record {
  topic = m.topic;
  partition = m.partition;
  offset = m.offset;
  key = m.key;
  value = m.value;
  headers = header_map empty_map m.headers;
}

-- `kafka.Reader` by its `FetchMessage` and its `CommitMessages` of a topic, a partition and an offset;
-- `Handle`; `errorHandler`; `ctx.Err()`; and whether the timer fires before the context is done.
pub record World (W : Type 0) : Type 0 where
  pub fetch_message : W → Result String KafkaMessage × W
  pub commit_messages : String → ℕ → ℕ → W → Result String (Unit {0}) × W
  pub handle : Message → W → Result String (Unit {0}) × W
  pub report : String → W → W
  pub context_error : W → Option String
  pub is_timer_first : W → Bool × W

pub data Call : Type 0 where
  fetched : Result String Record → Call
  handled : Message → Result String (Unit {0}) → Call
  committed : Record → Result String (Unit {0}) → Call

pub record State (W : Type 0) : Type 0 where
  pub world : W
  -- the latest first
  pub calls : List Call

-- what a loop has returned, if it has
abbrev pub Ended : Type 0 → Type 0
Ended W = Option (Result String (Unit {0})) × State W

module _ {W : Type 0} (w : World W) where
  abbrev record_result : Result String KafkaMessage → Result String Record
  record_result (err e) = err e
  record_result (ok m) = ok (record_of m)

  -- `readerAdapter.Fetch`
  abbrev pub fetch : State W → Result String Record × State W
  fetch s =
      let (result, world) = w.fetch_message s.world in
      let r = record_result result in (r, record { world = world; calls = fetched r ∷ s.calls })

  -- `readerAdapter.Commit`
  abbrev pub commit : Record → State W → Result String (Unit {0}) × State W
  commit r s =
      let (result, world) = w.commit_messages r.topic r.partition r.offset s.world in
      (result, record { world = world; calls = committed r result ∷ s.calls })

  abbrev pub handle : Message → State W → Result String (Unit {0}) × State W
  handle m s =
      let (result, world) = w.handle m s.world in
      (result, record { world = world; calls = handled m result ∷ s.calls })

  -- `waitRetry`
  abbrev pub wait_retry : W → Result String (Unit {0}) × W
  wait_retry world =
      let (timer, world') = w.is_timer_first world in
      if timer
      then (ok tt, world')
      else elim (w.context_error world') [ none ↦ (ok tt, world') | some e ↦ (err e, world') ]

  abbrev pub waited : (State W → Ended W) → List Call → Result String (Unit {0}) × W → Ended W
  waited again calls (err e, world) = (some (err e), record { world = world; calls = calls })
  waited again calls (ok _, world) = again (record { world = world; calls = calls })

  -- what the loops do about the error `e` of a call, and then `again`
  abbrev pub retry : (State W → Ended W) → String → State W → Ended W
  retry again e s = elim (w.context_error s.world) [
    | some cancelled ↦ (some (err cancelled), s)
    | none ↦ waited again s.calls (wait_retry (w.report e s.world))
  ]

  abbrev pub after_call : (State W → Ended W) → Result String (Unit {0}) × State W → Ended W
  after_call again (ok _, s) = (some (ok tt), s)
  after_call again (err e, s) = retry again e s

  -- the loop of handleUntilSuccess and of commitUntilSuccess, for as many attempts
  unfoldable pub until_success :
      (State W → Result String (Unit {0}) × State W) → ℕ → State W → Ended W
  until_success call zero s = (none, s)
  until_success call (suc n) s = after_call (until_success call n) (call s)

  abbrev pub handle_until_success : Record → ℕ → State W → Ended W
  handle_until_success r = until_success (handle (message r))

  abbrev pub commit_until_success : Record → ℕ → State W → Ended W
  commit_until_success r = until_success (commit r)

  -- go on where a loop returned nil
  abbrev pub and_then : (State W → Ended W) → Ended W → Ended W
  and_then next (none, s) = (none, s)
  and_then next (some (err e), s) = (some (err e), s)
  and_then next (some (ok _), s) = next s

  abbrev pub after_fetch : ℕ → (State W → Ended W) → Result String Record × State W → Ended W
  after_fetch attempts again (err e, s) = retry again e s
  after_fetch attempts again (ok r, s) =
      and_then (λ s'. and_then again (commit_until_success r attempts s'))
        (handle_until_success r attempts s)

  -- `Run` for as many rounds, and attempts in each of the loops that it calls
  unfoldable pub run : ℕ → ℕ → State W → Ended W
  unfolding until_success
  run attempts zero s = (none, s)
  run attempts (suc rounds) s = elim (w.context_error s.world) [
    | some e ↦ (some (err e), s)
    | none ↦ after_fetch attempts (run attempts rounds) (fetch s)
  ]
