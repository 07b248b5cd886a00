-- ===== src/Observability/Delivery.antt =====
-- observability/ErrorReporter.cc: struct Delivery and `deliver`, which sends one batch and tries
-- again with growing delays. The request is sent and answered by Drogon's HTTP client, so what comes
-- back is an input. A delay is a multiple of the base delay, which is a double.
pub mod Attempts
use drogon_api_starter.Prelude.{
  ℕ, ◌+◌, ◌-◌, ◌*◌, ◌%◌, ◌^◌, String, Bool, true, false, Option, none, some, List, [], ◌∷◌, ltb,
  leb, if◌then◌else◌,
}
use drogon_api_starter.Observability.Metrics.{Metrics, record_retry, record_failure}
use drogon_api_starter.Observability.Circuit.{CircuitState, success, failure}

pub record Delivery : Type 0 where
  pub path : String
  pub content_type : String
  pub body : String
  pub max_attempts : ℕ
  pub attempt : ℕ

-- What a delivery shares with the rest of the process.
pub record Shared : Type 0 where
  pub metrics : Metrics
  pub circuit : CircuitState

-- What the client reports: `ReqResult::Ok` with a response of some status, or anything else.
pub data Reply : Type 0 where
  response : ℕ → Reply
  no_response : Reply

abbrev pub is_success : Reply → Bool
is_success (response status) = ltb status 400
is_success no_response = false

-- The end of a delivery that gave up.
unfoldable pub give_up : ℕ → Shared → Shared
give_up now s = record { metrics = record_failure s.metrics; circuit = failure now s.circuit }

-- `deliver` until the request is on its way: `none` when it could not be built or sent, which the
-- `catch` turns into a failure. `sends` says whether the client takes the request.
unfoldable pub deliver : Bool → ℕ → Delivery → Shared → Option Delivery × Shared
unfolding give_up
deliver true now d s = (some (record d { attempt = (d.attempt + 1) % 2 ^ 64 }), s)
deliver false now d s = (none, give_up now s)

-- What the client's callback does: the delivery ends, or is tried again after the base delay times
-- the number given.
pub data Next : Type 0 where
  finished : Next
  retry_after : ℕ → Next

-- `1ULL << exponent`
abbrev shift_left : ℕ → ℕ
shift_left exponent = 2 ^ exponent % 2 ^ 64

unfoldable pub on_reply : Reply → ℕ → Delivery → Shared → Next × Shared
unfolding give_up
on_reply reply now d s =
    if is_success reply
    then (finished, record s { circuit = success s.circuit })
    else if ltb d.attempt d.max_attempts
    then (retry_after (shift_left (d.attempt - 1)), record s { metrics = record_retry s.metrics })
    else (finished, give_up now s)
