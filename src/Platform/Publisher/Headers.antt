-- ===== src/Platform/Publisher/Headers.antt =====
-- The headers that a consumer reads are those of the message that was published.
use test_task_autumn.Prelude.{
  ℕ, String, ◌≡◌, refl, ◌∙◌, inl, inr, Bool, true, false, ◌||◌, none, some, List, [], ◌∷◌, map,
  arith, eq_iff, if◌then◌else◌, ◌==◌, nat_eq, string_eq, Bool-cases, Map, empty_map, insert,
  contains,
}
use test_task_autumn.Prelude.Texts.{insert_string, sort_strings, str_leb}
use test_task_autumn.Platform.Relay.{Message}
use test_task_autumn.Platform.Consumer.{header_map, record_of, message}
use test_task_autumn.Platform.Publisher.{
  lookup, set_header, header_at, kafka_headers, build_kafka_message,
}

if_same : {A : Type 0} (b : Bool) (x : A) → (if b then x else x) ≡ x
if_same true x = refl
if_same false x = refl

contains-insert_string :
    (s key : String) (ss : List String)
    → contains (insert_string s ss) key ≡ (s == key || contains ss key)
unfolding insert_string
contains-insert_string s key [] = refl
contains-insert_string s key (t ∷ ts) = elim (Bool-cases (str_leb s t)) [
  | inl le ↦ rw (le) refl
  | inr gt ↦ rw (gt, contains-insert_string s key ts) (ground arith)
]

contains-sort_strings :
    (key : String) (ss : List String) → contains (sort_strings ss) key ≡ contains ss key
unfolding sort_strings
contains-sort_strings key [] = refl
contains-sort_strings key (s ∷ ss) =
    contains-insert_string s key (sort_strings ss) ∙ rw (contains-sort_strings key ss) refl

header_map-keys :
    (f : String → String) (key : String) (ks : List String) (found : Map String String)
    → header_map found (map (λ k. (k, f k)) ks) key
      ≡ (if contains ks key then some (f key) else found key)
unfolding header_map
header_map-keys f key [] found = refl
header_map-keys f key (k ∷ ks) found =
    header_map-keys f key ks (insert found k (f k)) ∙ elim (Bool-cases (k == key)) [
      | inl hit ↦
          let same : k ≡ key = (eq_iff k key).0 hit in
          rw (hit, same) (if_same (contains ks key) (some (f key)))
      | inr miss ↦ rw miss refl
    ]

header_at-cons :
    (k v key : String) (rest : List (String × String))
    → (k == key) ≡ false
    → header_at ((k, v) ∷ rest) key ≡ header_at rest key
unfolding lookup
header_at-cons k v key rest h = rw (header_at, h) refl

lookup_of_contains :
    (key : String) (headers : List (String × String))
    → (if contains (map (λ h. h.0) headers) key then some (header_at headers key) else none)
      ≡ lookup headers key
unfolding lookup
lookup_of_contains key [] = refl
lookup_of_contains key ((k, v) ∷ rest) = elim (Bool-cases (k == key)) [
  | inl e ↦ rw (e, header_at, lookup) refl
  | inr e ↦ rw (header_at-cons k v key rest e, e) (lookup_of_contains key rest)
]

lookup-set_header :
    (key value k : String) (headers : List (String × String))
    → lookup (set_header key value headers) k ≡ (if key == k then some value else lookup headers k)
unfolding lookup set_header
lookup-set_header key value k [] = refl
lookup-set_header key value k ((j, v) ∷ rest) = elim (Bool-cases (j == key)) [
  | inl hit ↦ let same : j ≡ key = (eq_iff j key).0 hit in rw (hit, same) (ground arith)
  | inr miss ↦ elim (Bool-cases (j == k)) [
    | inl here ↦ rw (miss, here) (ground (arith, eq_iff j k, eq_iff key k, eq_iff j key))
    | inr there ↦ rw (miss, there) (lookup-set_header key value k rest)
  ]
]

header_map-kafka_headers :
    (headers : List (String × String)) (key : String)
    → header_map empty_map (kafka_headers headers) key ≡ lookup headers key
unfolding kafka_headers
header_map-kafka_headers headers key =
    header_map-keys (header_at headers) key (sort_strings (map (λ h. h.0) headers)) empty_map
    ∙ rw (contains-sort_strings key (map (λ h. h.0) headers)) (lookup_of_contains key headers)

-- What the consumer hands its handler of a message that was published: the same topic, key and value;
-- under `event_id` the id of the event; and under any other name the header of the message, if it has
-- one. The order of the headers and the partition and the offset do not matter.
pub message-build_kafka_message :
    (partition offset : ℕ) (m : Message) (name : String)
    → let received = message (record_of (build_kafka_message partition offset m)) in
      (received.topic ≡ m.topic)
      × (received.key ≡ m.key)
      × (received.value ≡ m.value)
      × (received.headers name
          ≡ (if "event_id" == name then some m.event_id else lookup m.headers name))
unfolding build_kafka_message
message-build_kafka_message partition offset m name = (
  refl,
  refl,
  refl,
  header_map-kafka_headers (set_header "event_id" m.event_id m.headers) name
      ∙ lookup-set_header "event_id" m.event_id name m.headers,
)
