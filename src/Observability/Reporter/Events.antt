-- ===== src/Observability/Reporter/Events.antt =====
-- The events of the error reporter, and what each does to the process. An event that cannot happen
-- (a reply to a delivery that awaits none, a timer that is not set) changes nothing.
use drogon_api_starter.Prelude.{
  ℕ, ◌-◌, String, Bool, Option, none, some, List, [], ◌∷◌, ltb, if◌then◌else◌, get_elem?, replace,
}
use drogon_api_starter.Observability.Delivery.{
  Delivery, Shared, Reply, deliver, Next, finished, retry_after, on_reply,
}
use drogon_api_starter.Observability.Reporter.{
  CapturedException, System, Phase, awaiting_reply, awaiting_retry, capture_exception, flush_queue,
}

-- `sends` (a Bool) says whether the HTTP client takes the request of the delivery.
pub data Event : Type 0 where
  captures : CapturedException → Event
  flush_due flush_called timer_fires : Bool → Event
  replies : ℕ → Reply → Event
  retry_fires : ℕ → Bool → Event

abbrev pub after_reply : ℕ → Delivery → Next × Shared → System → System
after_reply i d (finished, shared) s = record s {
  shared = shared;
  in_flight = replace i none s.in_flight;
}
after_reply i d (retry_after times, shared) s = record s {
  shared = shared;
  in_flight = replace i (some (record { delivery = d; phase = awaiting_retry })) s.in_flight;
}

abbrev pub after_retry : ℕ → Option Delivery × Shared → System → System
after_retry i (none, shared) s = record s {
  shared = shared;
  in_flight = replace i none s.in_flight;
}
after_retry i (some d, shared) s = record s {
  shared = shared;
  in_flight = replace i (some (record { delivery = d; phase = awaiting_reply })) s.in_flight;
}

-- The client answers the delivery at an index: the callback of `sendRequest`.
abbrev pub reply_to : ℕ → Reply → ℕ → Phase → Delivery → System → System
reply_to now reply i awaiting_reply d s = after_reply i d (on_reply reply now d s.shared) s
reply_to now reply i awaiting_retry d s = s

-- The event loop calls the lambda of `runAfter`, which delivers again.
abbrev pub retry : ℕ → Bool → ℕ → Phase → Delivery → System → System
retry now sends i awaiting_retry d s = after_retry i (deliver sends now d s.shared) s
retry now sends i awaiting_reply d s = s

module _ (payload : List CapturedException → Option String) where
  -- One event at a time `now`.
  unfoldable pub step : System → ℕ × Event → System
  step s (now, captures e) = capture_exception e s
  step s (now, flush_due sends) =
      if ltb 0 s.flushes_due
      then flush_queue payload sends now (record s { flushes_due = s.flushes_due - 1 })
      else s
  step s (now, flush_called sends) = flush_queue payload sends now s
  step s (now, timer_fires sends) =
      if ltb 0 s.timers
      then flush_queue payload sends now (record s { timers = s.timers - 1 })
      else s
  step s (now, replies i reply) = elim (get_elem? s.in_flight i) [
    | none ↦ s
    | some f ↦ reply_to now reply i f.phase f.delivery s
  ]
  step s (now, retry_fires i sends) = elim (get_elem? s.in_flight i) [
    | none ↦ s
    | some f ↦ retry now sends i f.phase f.delivery s
  ]

  unfoldable pub run : System → List (ℕ × Event) → System
  run s [] = s
  run s (e ∷ events) = run (step s e) events
