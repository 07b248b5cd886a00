-- ===== src/Observability/Reporter/Queue.antt =====
-- The queue of the error reporter: its bound, the count of its events, and its flush.
use drogon_api_starter.Prelude.{
  get_elem?, ℕ, ◌+◌, ◌%◌, ◌^◌, ◌≤◌, ◌<◌, ◌≡◌, refl, ◌⊎◌, inl, inr, String, Bool, true, false,
  Option, List, [], ◌∷◌, arith, ltb, length, length-append, is_empty, Option-cases, Bool-cases,
}
use drogon_api_starter.Observability.Metrics.{
  record_queued, record_dropped, record_batch, record_circuit_open, record_retry, record_failure,
}
use drogon_api_starter.Observability.Circuit.{allow}
use drogon_api_starter.Observability.Delivery.{Delivery, deliver, on_reply, Reply}
use drogon_api_starter.Observability.Reporter.{
  CapturedException, System, Settings, Phase, awaiting_reply, awaiting_retry, init,
  capture_exception, flush_queue, send_batch, take_batch,
}
use drogon_api_starter.Observability.Reporter.Events.{
  Event, captures, flush_due, flush_called, timer_fires, replies, retry_fires, step, run, reply_to,
  retry,
}

pub record IsSound (s : System) : Type 0 where
  pub bounded : length s.reporter.queue ≤ s.reporter.max_queue_size
  pub counted :
      s.shared.metrics.queued ≡ (s.shared.metrics.batch_events + length s.reporter.queue) % 2 ^ 64
  pub watched : (length s.reporter.queue ≡ 0) ⊎ (0 < s.flushes_due) ⊎ (0 < s.timers)
  pub armed : (s.reporter.timer_armed ≡ false) ⊎ (0 < s.timers)

capture_exception-IsSound :
    (e : CapturedException) (s : System) → IsSound s → IsSound (capture_exception e s)
unfolding capture_exception record_queued record_dropped
capture_exception-IsSound e s v = ground (arith, length-append s.reporter.queue (e ∷ []))

-- What a step may change beside the queue.
abbrev SameQueue : System → System → Type 0
SameQueue s s' =
    (s'.reporter ≡ s.reporter)
    × (s'.timers ≡ s.timers)
    × (s'.flushes_due ≡ s.flushes_due)
    × (s'.shared.metrics.queued ≡ s.shared.metrics.queued)
    × (s'.shared.metrics.batch_events ≡ s.shared.metrics.batch_events)

IsSound-same : (s s' : System) → SameQueue s s' → IsSound s → IsSound s'
IsSound-same s s' (r, t, f, q, b) v = record {
  bounded = rw r v.bounded;
  counted = rw (r, q, b) v.counted;
  watched = rw (r, t, f) v.watched;
  armed = rw (r, t) v.armed;
}

is_empty-length {ℓ} : {A : Type ℓ} (xs : List A) → is_empty xs ≡ true → length xs ≡ 0
is_empty-length [] h = refl
is_empty-length (x ∷ xs) h = cc

reply_to-SameQueue :
    (now : ℕ) (reply : Reply) (i : ℕ) (p : Phase) (d : Delivery) (s : System)
    → SameQueue s (reply_to now reply i p d s)
unfolding on_reply record_failure record_retry
reply_to-SameQueue now reply i awaiting_reply d s = ground arith
reply_to-SameQueue now reply i awaiting_retry d s = ground arith

retry-SameQueue :
    (now : ℕ) (sends : Bool) (i : ℕ) (p : Phase) (d : Delivery) (s : System)
    → SameQueue s (retry now sends i p d s)
unfolding deliver record_failure
retry-SameQueue now true i awaiting_retry d s = ground arith
retry-SameQueue now false i awaiting_retry d s = ground arith
retry-SameQueue now sends i awaiting_reply d s = ground arith

module _ (payload : List CapturedException → Option String) where
  send_batch-SameQueue :
      (sends : Bool) (now : ℕ) (events : List CapturedException) (s : System)
      → SameQueue s (send_batch payload sends now events s)
  unfolding send_batch record_failure
  send_batch-SameQueue true now events s = ground arith
  send_batch-SameQueue false now events s = ground arith

  -- A flush takes the whole queue, counts it, and leaves no timer armed.
  flush_queue-IsSound :
      (sends : Bool) (now : ℕ) (s : System)
      → s.shared.metrics.queued ≡ (s.shared.metrics.batch_events + length s.reporter.queue) % 2 ^ 64
      → IsSound (flush_queue payload sends now s)
  unfolding flush_queue record_batch record_dropped record_circuit_open
  flush_queue-IsSound sends now s v = elim (Bool-cases (is_empty s.reporter.queue)) [
    | inl e ↦
        let none_left : length s.reporter.queue ≡ 0 = is_empty-length s.reporter.queue e in
        rw e (record {
          bounded = omega arith;
          counted = omega arith;
          watched = inl refl;
          armed = inl refl;
        })
    | inr e ↦ rw e (elim (Bool-cases (allow now s.shared.circuit).0) [
      | inl allowed ↦ rw allowed (
          IsSound-same (take_batch now s) _
            (send_batch-SameQueue sends now s.reporter.queue (take_batch now s))
            (record {
              bounded = omega arith;
              counted = omega arith;
              watched = inl refl;
              armed = inl refl;
            }))
      | inr refused ↦ rw refused (record {
        bounded = omega arith;
        counted = omega arith;
        watched = inl refl;
        armed = inl refl;
      })
    ])
  ]

  step-IsSound : (s : System) (e : ℕ × Event) → IsSound s → IsSound (step payload s e)
  unfolding step
  step-IsSound s (now, captures e) v = capture_exception-IsSound e s v
  step-IsSound s (now, flush_due sends) v = elim (Bool-cases (ltb 0 s.flushes_due)) [
    | inl due ↦ rw due (flush_queue-IsSound sends now _ v.counted)
    | inr idle ↦ rw idle v
  ]
  step-IsSound s (now, flush_called sends) v = flush_queue-IsSound sends now s v.counted
  step-IsSound s (now, timer_fires sends) v = elim (Bool-cases (ltb 0 s.timers)) [
    | inl set ↦ rw set (flush_queue-IsSound sends now _ v.counted)
    | inr idle ↦ rw idle v
  ]
  step-IsSound s (now, replies i reply) v = elim (Option-cases (get_elem? s.in_flight i)) [
    | inl gone ↦ rw (gone, step) v
    | inr (f, found) ↦
        rw (found, step) (IsSound-same s _ (reply_to-SameQueue now reply i f.phase f.delivery s) v)
  ]
  step-IsSound s (now, retry_fires i sends) v = elim (Option-cases (get_elem? s.in_flight i)) [
    | inl gone ↦ rw (gone, step) v
    | inr (f, found) ↦
        rw (found, step) (IsSound-same s _ (retry-SameQueue now sends i f.phase f.delivery s) v)
  ]

  run-IsSound :
      (s : System) (events : List (ℕ × Event)) → IsSound s → IsSound (run payload s events)
  unfolding run
  run-IsSound s [] v = v
  run-IsSound s (e ∷ events) v = run-IsSound (step payload s e) events (step-IsSound s e v)

  -- Whatever the events, from the start on: the queue keeps its bound; the events counted as queued
  -- are those counted in batches and those that wait, modulo 2^64; and while events wait, a timer is
  -- set or a flush is due.
  pub run-init-IsSound :
      (settings : Settings) (threshold cooldown : ℕ) (events : List (ℕ × Event))
      → IsSound (run payload (init settings threshold cooldown) events)
  unfolding init
  run-init-IsSound settings threshold cooldown events = run-IsSound _ events (record {
    bounded = omega arith;
    counted = omega arith;
    watched = inl refl;
    armed = inl refl;
  })
