-- ===== src/Platform/Publisher.antt =====
-- internal/platform/kafkapub/publisher.go: what is written to Kafka of a message of the relay. Its
-- headers, a Go map, are their entries; a lookup takes the first of a key.
pub mod Headers
pub mod Rows
use test_task_autumn.Prelude.{
  ℕ, zero, suc, ◌+◌, ◌-◌, ◌*◌, ◌/◌, ◌%◌, ◌^◌, ◌≤◌, ◌<◌, String, ◌<>◌, ◌≡◌, refl, sym, ap, ◌∙◌, ◌≢◌,
  ◌↔◌, ◌⊎◌, inl, inr, Bool, true, false, not, ◌&&◌, ◌||◌, Option, none, some, List, [], ◌∷◌, ◌++◌,
  map, arith, eq_iff, eq_refl, ltb, leb, if◌then◌else◌, Eq, ◌==◌, ◌!=◌, nat_eq, string_eq,
  Bool-cases, Option-cases, Map, empty_map, insert, length, is_empty, take, keep_if, All,
  length-append, is_empty-append_cons, length-take-le, contains, Result, ok, err, ◌>>=◌, >>=-eq-ok,
  Result-cases, ◌>>◌, fail_if,
}
use test_task_autumn.Prelude.Texts.{insert_string, sort_strings, str_leb}
use test_task_autumn.Platform.Relay.{Message}
use test_task_autumn.Platform.Consumer as Consumer
use test_task_autumn.Platform.Consumer.{KafkaMessage, header_map, record_of}

unfoldable pub lookup : List (String × String) → String → Option String
lookup [] key = none
lookup ((k, v) ∷ rest) key = if k == key then some v else lookup rest key

-- `headers[key] = value`
unfoldable pub set_header : String → String → List (String × String) → List (String × String)
set_header key value [] = (key, value) ∷ []
set_header key value ((k, v) ∷ rest) =
    let kept = set_header key value rest in if k == key then (key, value) ∷ rest else (k, v) ∷ kept

abbrev pub header_at : List (String × String) → String → String
header_at headers key = elim (lookup headers key) [ none ↦ "" | some v ↦ v ]

-- the loop over the sorted keys
unfoldable pub kafka_headers : List (String × String) → List (String × String)
unfolding lookup
kafka_headers headers = map (λ k. (k, header_at headers k)) (sort_strings (map (λ h. h.0) headers))

-- `buildKafkaMessage`, with the partition and the offset that the broker gives the message
unfoldable pub build_kafka_message : ℕ → ℕ → Message → KafkaMessage
unfolding set_header kafka_headers
build_kafka_message partition offset m = record {
  topic = m.topic;
  partition = partition;
  offset = offset;
  key = m.key;
  value = m.value;
  headers = kafka_headers (set_header "event_id" m.event_id m.headers);
}
