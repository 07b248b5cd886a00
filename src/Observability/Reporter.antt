-- ===== src/Observability/Reporter.antt =====
-- observability/ErrorReporter.cc: class HttpErrorReporter as a state machine. An event is what one
-- thread does under the queue's lock, or a call that the event loop makes; events come in any order.
-- A flush is one event: what other threads do between the moment at which it takes the events and the
-- one at which it asks the circuit breaker and sends is left out.
-- The payload is the virtual function of the two reporters, `none` where it throws.
pub mod Events
pub mod Queue
pub mod Probe
pub mod Watched
pub mod Stuck
pub mod Tests
use drogon_api_starter.Prelude.{
  ℕ, zero, suc, ◌+◌, ◌-◌, ◌*◌, ◌%◌, ◌^◌, String, Bool, true, false, not, ◌&&◌, Option, none, some,
  List, [], ◌∷◌, ◌++◌, ltb, leb, ◌==◌, if◌then◌else◌, length, is_empty,
}
use drogon_api_starter.Observability.Metrics.{
  Metrics, zero_metrics, record_queued, record_dropped, record_batch, record_circuit_open,
}
use drogon_api_starter.Observability.Circuit
use drogon_api_starter.Observability.Circuit.{CircuitState, allow}
use drogon_api_starter.Observability.Delivery.{
  Delivery, Shared, Reply, deliver, Next, finished, retry_after, on_reply,
}

pub record CapturedException : Type 0 where
  pub message : String
  pub request_id : String
  pub context : List (String × String)

-- The settings that the constructor has read and checked.
pub record Settings : Type 0 where
  pub request_path : String
  pub content_type : String
  pub batch_size : ℕ
  pub max_queue_size : ℕ
  pub max_attempts : ℕ

pub record HttpErrorReporter : Type 0 where
  pub settings : Settings
  pub open settings use *
  pub queue : List CapturedException
  -- `timerId_ != InvalidTimerId`
  pub timer_armed : Bool

-- A delivery that the client or the event loop holds, with what it waits for.
pub data Phase : Type 0 where
  awaiting_reply : Phase
  awaiting_retry : Phase

pub record InFlight : Type 0 where
  pub delivery : Delivery
  pub phase : Phase

-- The process: the reporter, what it shares, the deliveries in flight, the batch timers that the
-- event loop still holds, and the threads that have left the lock to call `flushQueue`.
pub record System : Type 0 where
  pub reporter : HttpErrorReporter
  pub shared : Shared
  pub in_flight : List InFlight
  pub timers : ℕ
  pub flushes_due : ℕ

unfoldable pub init : Settings → ℕ → ℕ → System
unfolding Circuit.make
init settings threshold cooldown = record {
  reporter = record { settings = settings; queue = []; timer_armed = false };
  shared = record { metrics = zero_metrics; circuit = Circuit.make threshold cooldown };
  in_flight = [];
  timers = 0;
  flushes_due = 0;
}

abbrev with_metrics : (Metrics → Metrics) → System → System
with_metrics f s = record s { shared = record s.shared { metrics = f s.shared.metrics } }

-- `captureException` up to the end of its lock.
unfoldable pub capture_exception : CapturedException → System → System
capture_exception e s =
    if leb s.reporter.max_queue_size (length s.reporter.queue)
    then with_metrics record_dropped s
    else let queue = s.reporter.queue ++ e ∷ [] in
      let pushed = record (with_metrics record_queued s) {
        reporter = record s.reporter { queue = queue };
      } in
      if leb s.reporter.batch_size (length queue)
      then record pushed { flushes_due = s.flushes_due + 1 }
      else if not s.reporter.timer_armed
      then record pushed {
        reporter = record s.reporter { queue = queue; timer_armed = true };
        timers = s.timers + 1;
      }
      else pushed

abbrev launch : Option Delivery × Shared → System → System
launch (none, shared) s = record s { shared = shared }
launch (some d, shared) s = record s {
  shared = shared;
  in_flight = record { delivery = d; phase = awaiting_reply } ∷ s.in_flight;
}

-- Under the lock: the queue's events are moved out, and no timer is armed.
abbrev pub empty_queue : System → System
empty_queue s = record s { reporter = record s.reporter { queue = []; timer_armed = false } }

-- The same for a batch that is not empty, which is counted and put to the circuit breaker.
abbrev pub take_batch : ℕ → System → System
take_batch now s = record (empty_queue s) {
  shared = record {
    metrics = record_batch (length s.reporter.queue) s.shared.metrics;
    circuit = (allow now s.shared.circuit).1;
  };
}

module _ (payload : List CapturedException → Option String) where
  -- The part of `flushQueue` past the circuit breaker.
  unfoldable pub send_batch : Bool → ℕ → List CapturedException → System → System
  unfolding deliver
  send_batch sends now events s = elim (payload events) [
    | none ↦ s
    | some body ↦
        launch
          (deliver sends now
            (record {
              path = s.reporter.request_path;
              content_type = s.reporter.content_type;
              body = body;
              max_attempts = s.reporter.max_attempts;
              attempt = 0;
            })
            s.shared)
          s
  ]

  unfoldable pub flush_queue : Bool → ℕ → System → System
  flush_queue sends now s =
      let events = s.reporter.queue in
      if is_empty events
      then empty_queue s
      else if (allow now s.shared.circuit).0
      then send_batch sends now events (take_batch now s)
      else with_metrics (λ m. record_dropped (record_circuit_open m)) (take_batch now s)
