-- ===== src/Observability/Reporter/Tests.antt =====
-- Runs of the error reporter and its deliveries.
use drogon_api_starter.Prelude.{
  ℕ, ◌<◌, ◌≡◌, refl, String, true, false, Option, some, none, List, [], ◌∷◌, arith, length,
}
use drogon_api_starter.Observability.Metrics.{
  zero_metrics, record_queued, record_dropped, record_batch, record_circuit_open, record_retry,
  record_failure,
}
use drogon_api_starter.Observability.Circuit.{allow, success, failure}
use drogon_api_starter.Observability.Delivery.{
  Delivery, Shared, response, no_response, deliver, on_reply,
}
use drogon_api_starter.Observability.Delivery.Attempts.{Outcome, answered, Ends, drive-Ends}
use drogon_api_starter.Observability.Reporter.{
  CapturedException, Settings, System, init, capture_exception, flush_queue, send_batch,
}
use drogon_api_starter.Observability.Reporter.Events.{
  Event, captures, flush_due, timer_fires, replies, retry_fires, step, run,
}
use drogon_api_starter.Observability.Reporter.Queue.{IsSound, run-init-IsSound}
use drogon_api_starter.Observability.Reporter.Watched.{final, final-refused}
use drogon_api_starter.Observability.Reporter.Stuck.{IsStuck, run-flush_queue-IsStuck}

abbrev settings : Settings
settings = record {
  request_path = "/v1/logs";
  content_type = "application/json";
  batch_size = 2;
  max_queue_size = 3;
  max_attempts = 2;
}

abbrev failed : String → CapturedException
failed message = record { message = message; request_id = ""; context = [] }

abbrev payload : List CapturedException → Option String
payload events = some "{}"

-- A batch that fails twice opens a circuit with threshold 1; the next batch probes it.
abbrev history : List (ℕ × Event)
history =
    (1, captures (failed "a"))
    ∷ (2, captures (failed "b"))
    ∷ (3, flush_due true)
    ∷ (4, replies 0 no_response)
    ∷ (5, retry_fires 0 true)
    ∷ (6, replies 0 (response 503))
    ∷ (20, captures (failed "c"))
    ∷ (21, timer_fires true)
    ∷ []

history_probes :
    ((final payload settings 1 10 history).shared.circuit.probe_in_flight ≡ true)
    × (length (final payload settings 1 10 history).in_flight ≡ 1)
    × ((final payload settings 1 10 history).shared.metrics.retries ≡ 1)
unfolding run step init capture_exception flush_queue send_batch deliver on_reply allow success
    failure record_queued record_dropped record_batch record_circuit_open record_retry
    record_failure
history_probes = (refl, refl, refl)

run-init-IsSound_example : IsSound (run payload (init settings 1 10) history)
run-init-IsSound_example = run-init-IsSound payload settings 1 10 history

final-refused_example : 0 < length (final payload settings 1 10 history).in_flight
unfolding run step init capture_exception flush_queue send_batch deliver on_reply allow success
    failure record_queued record_dropped record_batch record_circuit_open record_retry
    record_failure
final-refused_example =
    final-refused payload (λ events. ("{}", refl)) settings 1 10 history 30 (omega arith)
      (omega arith) (omega arith) refl (omega arith)

abbrev delivery : Delivery
delivery = record {
  path = "/";
  content_type = "application/json";
  body = "{}";
  max_attempts = 3;
  attempt = 0;
}

abbrev shared : Shared
shared = record {
  metrics = zero_metrics;
  circuit = record {
    failures = 0;
    failure_threshold = 5;
    open_until = 0;
    cooldown = 10;
    probe_in_flight = false;
  };
}

abbrev outcomes : List Outcome
outcomes = answered 1 no_response ∷ answered 2 (response 500) ∷ answered 5 (response 200) ∷ []

drive-Ends_example : Ends outcomes 0 delivery shared
drive-Ends_example =
    drive-Ends outcomes delivery shared refl (omega arith) (omega arith) (omega arith) (omega arith)

-- An open circuit, one waiting event, and a payload that throws.
abbrev open_system : System
open_system = record {
  reporter = record { settings = settings; queue = failed "a" ∷ []; timer_armed = true };
  shared = record {
    metrics = zero_metrics;
    circuit = record {
      failures = 1;
      failure_threshold = 1;
      open_until = 10;
      cooldown = 10;
      probe_in_flight = false;
    };
  };
  in_flight = [];
  timers = 1;
  flushes_due = 0;
}

run-flush_queue-IsStuck_example :
    IsStuck (run (λ events. none) (flush_queue (λ events. none) true 12 open_system) history)
run-flush_queue-IsStuck_example =
    run-flush_queue-IsStuck (λ events. none) true 12 open_system history (omega arith) refl refl
      (omega arith) (omega arith)
