-- ===== src/Partner/RestaurantClient.antt =====
-- internal/partner/restaurantclient/client.go: the sender that posts a submission to its restaurant.
use test_task_autumn.Prelude.{
  ℕ, String, true, false, not, ◌&&◌, Option, none, some, ltb, leb, if◌then◌else◌, nat_eq, string_eq,
  Result, ok, err,
}
use test_task_autumn.Partner.Dispatch.{is_valid, SendError, Sender}

-- the request, without its constant `Content-Type`
pub record Request : Type 0 where
  pub url : String
  pub body : String
  pub idempotency_key : String
  pub external_store_id : String
  pub submission_id : String

-- by the status code of the response
unfoldable pub classify : ℕ → Result SendError (Unit {0})
classify code =
    if leb 200 code && ltb code 300
    then ok tt
    else err (record {
      message = "restaurant returned HTTP";
      is_permanent = leb 400 code && ltb code 500;
    })

module _ {N : Type 0} where
  abbrev answer : Result String ℕ × N → Result SendError (Unit {0}) × N
  answer (err message, n) = (err (record { message = message; is_permanent = false }), n)
  answer (ok code, n) = (classify code, n)

  -- `Send`; `destination` is `url.Parse` and `String`, for an http or https URL with a host, and
  -- `exchange` sends a request and gives the status code of the response.
  unfoldable pub send : (String → Option String) → (Request → N → Result String ℕ × N) → Sender N
  unfolding classify is_valid
  send destination exchange s n =
      if not (is_valid s)
      then (err (record { message = "invalid claimed submission"; is_permanent = false }), n)
      else elim (destination s.destination_url) [
        | none ↦ (
          err (record { message = "invalid restaurant destination URL"; is_permanent = true }),
          n,
        )
        | some url ↦ answer (
            exchange
              (record {
                url = url;
                body = s.payload;
                idempotency_key = s.order_id;
                external_store_id = s.external_store_id;
                submission_id = s.id;
              })
              n)
      ]
