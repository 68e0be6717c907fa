-- ===== src/Platform/Consumer/Config.antt =====
-- internal/platform/kafkaconsume/consumer.go and internal/platform/kafkapub/publisher.go: the checks of
-- their configurations. `trim_space` is strings.TrimSpace, and a duration an int64 bit pattern.
use test_task_autumn.Prelude.{
  ℕ, ◌^◌, String, ◌≡◌, refl, Bool, true, not, List, [], ◌∷◌, leb, if◌then◌else◌, ◌==◌, ◌!=◌, nat_eq,
  string_eq, is_empty, Result, ok, err, ◌>>◌, fail_if,
}

pub record ConsumerConfig : Type 0 where
  pub brokers : List String
  pub topic : String
  pub group_id : String
  pub retry_delay : ℕ
  pub has_handler : Bool

pub data ConfigError : Type 0 where
  broker_required topic_required group_id_required handler_required negative_retry_delay :
      ConfigError

module _ (trim_space : String → String) where
  -- `cleanValues`
  unfoldable pub clean_values : List String → List String
  clean_values [] = []
  clean_values (value ∷ rest) =
      let cleaned = clean_values rest in
      if trim_space value != "" then trim_space value ∷ cleaned else cleaned

  -- `New` up to the reader that it makes; one second for a delay of zero
  unfoldable pub new_consumer : ConsumerConfig → Result ConfigError ConsumerConfig
  unfolding clean_values
  new_consumer config = do
    fail_if (is_empty (clean_values config.brokers)) broker_required
    fail_if (trim_space config.topic == "") topic_required
    fail_if (trim_space config.group_id == "") group_id_required
    fail_if (not config.has_handler) handler_required
    let retry_delay = if config.retry_delay == 0 then 1000000000 else config.retry_delay
    fail_if (leb (2 ^ 63) retry_delay) negative_retry_delay
    ok (record {
      brokers = clean_values config.brokers;
      topic = trim_space config.topic;
      group_id = trim_space config.group_id;
      retry_delay = retry_delay;
      has_handler = true;
    })

  -- `NewPublisher`: the brokers that it writes to
  unfoldable pub new_publisher : List String → Result ConfigError (List String)
  unfolding clean_values
  new_publisher brokers =
      if is_empty (clean_values brokers) then err broker_required else ok (clean_values brokers)

clean_values_test :
    clean_values (λ s. if s == " a " then "a" else s) (" a " ∷ "" ∷ "b" ∷ []) ≡ "a" ∷ "b" ∷ []
unfolding clean_values
clean_values_test = refl
