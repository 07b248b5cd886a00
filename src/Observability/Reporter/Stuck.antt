-- ===== src/Observability/Reporter/Stuck.antt =====
-- What happens when the payload of a probe throws: the exception is swallowed, no outcome reaches
-- the circuit breaker, and the probe flag stays.
use drogon_api_starter.Prelude.{
  ℕ, ◌-◌, ◌≤◌, ◌<◌, ◌≡◌, String, Bool, true, Option, none, List, [], ◌∷◌, arith, length,
}
use drogon_api_starter.Observability.Circuit.{allow}
use drogon_api_starter.Observability.Reporter.{
  CapturedException, System, capture_exception, flush_queue, send_batch,
}
use drogon_api_starter.Observability.Reporter.Events.{
  Event, captures, flush_due, flush_called, timer_fires, replies, retry_fires, step, run,
}

abbrev pub IsStuck : System → Type 0
IsStuck s =
    (s.in_flight ≡ [])
    × (0 < s.shared.circuit.open_until)
    × (s.shared.circuit.probe_in_flight ≡ true)

module _ (payload : List CapturedException → Option String) where
  flush_queue-IsStuck :
      (sends : Bool) (now : ℕ) (s : System) → IsStuck s → IsStuck (flush_queue payload sends now s)
  unfolding flush_queue allow
  flush_queue-IsStuck sends now s (i, o, p) = ground arith

  step-IsStuck : (s : System) (e : ℕ × Event) → IsStuck s → IsStuck (step payload s e)
  unfolding step capture_exception
  step-IsStuck s (now, captures e) v = ground arith
  step-IsStuck s (now, flush_due sends) v =
      ground (arith, flush_queue-IsStuck sends now (record s { flushes_due = s.flushes_due - 1 }))
  step-IsStuck s (now, flush_called sends) v = flush_queue-IsStuck sends now s v
  step-IsStuck s (now, timer_fires sends) v =
      ground (arith, flush_queue-IsStuck sends now (record s { timers = s.timers - 1 }))
  step-IsStuck s (now, replies i reply) v = rw (v.0, step) v
  step-IsStuck s (now, retry_fires i sends) v = rw (v.0, step) v

  run-IsStuck :
      (s : System) (events : List (ℕ × Event)) → IsStuck s → IsStuck (run payload s events)
  unfolding run
  run-IsStuck s [] v = v
  run-IsStuck s (e ∷ events) v = run-IsStuck (step payload s e) events (step-IsStuck s e v)

  -- If the payload of the batch that is to probe an open circuit throws while no other delivery is in
  -- flight, then nothing is ever delivered again: the circuit stays open with its probe out, and no
  -- delivery is in flight after any events.
  pub run-flush_queue-IsStuck :
      (sends : Bool) (now : ℕ) (s : System) (events : List (ℕ × Event))
      → 0 < length s.reporter.queue
      → payload s.reporter.queue ≡ none
      → s.in_flight ≡ []
      → 0 < s.shared.circuit.open_until
      → s.shared.circuit.open_until ≤ now
      → IsStuck (run payload (flush_queue payload sends now s) events)
  unfolding flush_queue allow send_batch
  run-flush_queue-IsStuck sends now s events waiting throws i o over =
      run-IsStuck (flush_queue payload sends now s) events (ground arith)
