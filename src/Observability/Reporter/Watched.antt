-- ===== src/Observability/Reporter/Watched.antt =====
-- A probe that holds other batches back is in flight: the running reporter.
use drogon_api_starter.Prelude.{
  get_elem?, ℕ, suc, ◌+◌, ◌^◌, ◌≤◌, ◌<◌, ◌≡◌, refl, inl, inr, String, Bool, true, false, Option,
  some, List, [], ◌∷◌, arith, ltb, length, is_empty, Option-cases, Bool-cases, All,
}
use drogon_api_starter.Observability.Circuit.{allow}
use drogon_api_starter.Observability.Reporter.{
  CapturedException, System, Settings, init, capture_exception, flush_queue, send_batch, take_batch,
}
use drogon_api_starter.Observability.Reporter.Events.{
  Event, captures, flush_due, flush_called, timer_fires, replies, retry_fires, step, run,
}
use drogon_api_starter.Observability.Reporter.Probe.{
  IsSafe, IsWatched, allow-IsSafe, IsSafe-mono, failure-IsSafe, allow_refused, reply_to-IsWatched,
  retry-IsWatched,
}

module _ (payload : List CapturedException → Option String) where
  module _ (n now : ℕ) (p : 0 < now) (q : n + 1 < 2 ^ 64) where
    send_batch-IsWatched :
        (total : (es : List CapturedException) → (body : String) × (payload es ≡ some body))
        (sends : Bool) (events : List CapturedException) (s : System)
        → IsSafe n s.shared.circuit
        → IsWatched
            (suc n)
            (send_batch payload sends now events s).shared.circuit
            (send_batch payload sends now events s).in_flight
    unfolding send_batch
    send_batch-IsWatched total true events s v =
        let (body, sent) = total events in
        rw (sent, send_batch) (IsSafe-mono n s.shared.circuit v, inr (omega arith))
    send_batch-IsWatched total false events s v =
        let (body, sent) = total events in
        let (safe, no_probe) = failure-IsSafe n now s.shared.circuit p q v in
        rw (sent, send_batch) (safe, inl no_probe)

    flush_queue-IsWatched :
        (total : (es : List CapturedException) → (body : String) × (payload es ≡ some body))
        (sends : Bool) (s : System)
        → IsWatched n s.shared.circuit s.in_flight
        → IsWatched
            (suc n)
            (flush_queue payload sends now s).shared.circuit
            (flush_queue payload sends now s).in_flight
    unfolding flush_queue
    flush_queue-IsWatched total sends s (v, w) = elim (Bool-cases (is_empty s.reporter.queue)) [
      | inl e ↦ rw e (IsSafe-mono n s.shared.circuit v, w)
      | inr e ↦ rw e (elim (Bool-cases (allow now s.shared.circuit).0) [
        | inl allowed ↦ rw allowed (
            send_batch-IsWatched total sends s.reporter.queue (take_batch now s)
              (allow-IsSafe n now s.shared.circuit v))
        | inr refused ↦
            rw (refused, allow_refused now s.shared.circuit refused)
              (IsSafe-mono n s.shared.circuit v, w)
      ])
    ]

    step-IsWatched :
        (total : (es : List CapturedException) → (body : String) × (payload es ≡ some body))
        (s : System) (e : Event)
        → IsWatched n s.shared.circuit s.in_flight
        → IsWatched
            (suc n)
            (step payload s (now, e)).shared.circuit
            (step payload s (now, e)).in_flight
    unfolding step capture_exception
    step-IsWatched total s (captures e) (v, w) = ground (arith, IsSafe-mono n s.shared.circuit v)
    step-IsWatched total s (flush_due sends) (v, w) = elim (Bool-cases (ltb 0 s.flushes_due)) [
      | inl due ↦ rw due (flush_queue-IsWatched total sends _ (v, w))
      | inr idle ↦ rw idle (IsSafe-mono n s.shared.circuit v, w)
    ]
    step-IsWatched total s (flush_called sends) v = flush_queue-IsWatched total sends s v
    step-IsWatched total s (timer_fires sends) (v, w) = elim (Bool-cases (ltb 0 s.timers)) [
      | inl set ↦ rw set (flush_queue-IsWatched total sends _ (v, w))
      | inr idle ↦ rw idle (IsSafe-mono n s.shared.circuit v, w)
    ]
    step-IsWatched total s (replies i reply) (v, w) =
        elim (Option-cases (get_elem? s.in_flight i)) [
          | inl gone ↦ rw (gone, step) (IsSafe-mono n s.shared.circuit v, w)
          | inr (f, found) ↦
              rw (found, step) (reply_to-IsWatched n now p q reply i f.phase f.delivery s (v, w))
        ]
    step-IsWatched total s (retry_fires i sends) (v, w) =
        elim (Option-cases (get_elem? s.in_flight i)) [
          | inl gone ↦ rw (gone, step) (IsSafe-mono n s.shared.circuit v, w)
          | inr (f, found) ↦
              rw (found, step) (retry-IsWatched n now p q sends i f.phase f.delivery s (v, w))
        ]

  run-IsWatched :
      (total : (es : List CapturedException) → (body : String) × (payload es ≡ some body)) (n : ℕ)
      (s : System) (events : List (ℕ × Event))
      → n + length events < 2 ^ 64
      → All (λ (e : ℕ × Event). 0 < e.0) events
      → IsWatched n s.shared.circuit s.in_flight
      → IsWatched
          (n + length events)
          (run payload s events).shared.circuit
          (run payload s events).in_flight
  unfolding run
  run-IsWatched total n s [] h ps v = let e : n + 0 ≡ n = omega arith in rw e v
  run-IsWatched total n s ((now, e) ∷ events) h (p, ps) v =
      let k : n + suc (length events) ≡ suc n + length events = omega arith in
      rw k (
        run-IsWatched total (suc n) (step payload s (now, e)) events (omega arith) ps
          (step-IsWatched n now p (omega arith) total s e v))

  -- The process after the events.
  abbrev pub final : Settings → ℕ → ℕ → List (ℕ × Event) → System
  final settings threshold cooldown events = run payload (init settings threshold cooldown) events

  -- For a payload that never throws, positive times, and fewer than 2^64 events: where the circuit
  -- refuses a batch although its cooldown is over, a delivery is in flight.
  pub final-refused :
      (total : (es : List CapturedException) → (body : String) × (payload es ≡ some body))
      (settings : Settings) (threshold cooldown : ℕ) (events : List (ℕ × Event)) (now : ℕ)
      → 0 < threshold
      → length events < 2 ^ 64
      → All (λ (e : ℕ × Event). 0 < e.0) events
      → (allow now (final settings threshold cooldown events).shared.circuit).0 ≡ false
      → (final settings threshold cooldown events).shared.circuit.open_until ≤ now
      → 0 < length (final settings threshold cooldown events).in_flight
  unfolding init allow
  final-refused total settings threshold cooldown events now h small ps refused over =
      let (v, w) =
        run-IsWatched total 0 (init settings threshold cooldown) events (omega arith) ps
          (record { valid = inl (refl, h, refl); positive = h; fewer = omega arith }, inl refl) in
      ground arith
