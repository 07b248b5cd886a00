-- ===== src/Observability/Reporter/Probe.antt =====
-- The circuit breaker in the running reporter: a probe that holds other batches back is in flight.
use drogon_api_starter.Prelude.{
  replace, ℕ, zero, suc, ◌+◌, ◌^◌, ◌≤◌, ◌<◌, ◌≡◌, refl, ◌⊎◌, inl, Bool, true, false, some, List, [],
  ◌∷◌, arith, length,
}
use drogon_api_starter.Observability.Circuit.{CircuitState, allow, success, failure}
use drogon_api_starter.Observability.Circuit.Laws.{IsValid, allow-IsValid, failure-IsValid}
use drogon_api_starter.Observability.Delivery.{Delivery, deliver, on_reply, Reply}
use drogon_api_starter.Observability.Reporter.{
  System, Phase, awaiting_reply, awaiting_retry, InFlight,
}
use drogon_api_starter.Observability.Reporter.Events.{reply_to, retry}

-- The circuit after at most `n` failures.
pub record IsSafe (n : ℕ) (c : CircuitState) : Type 0 where
  pub valid : IsValid c
  pub positive : 0 < c.failure_threshold
  pub fewer : c.failures ≤ n

-- The circuit is safe, and if its probe is out, some delivery is in flight.
abbrev pub IsWatched : ℕ → CircuitState → List InFlight → Type 0
IsWatched n c fs = IsSafe n c × ((c.probe_in_flight ≡ false) ⊎ (0 < length fs))

pub allow-IsSafe : (n now : ℕ) (c : CircuitState) → IsSafe n c → IsSafe n (allow now c).1
unfolding allow
allow-IsSafe n now c v = record {
  valid = unfold allow in allow-IsValid now c v.valid;
  positive = ground (arith, v.positive);
  fewer = ground (arith, v.fewer);
}

pub IsSafe-mono : (n : ℕ) (c : CircuitState) → IsSafe n c → IsSafe (suc n) c
IsSafe-mono n c v = record {
  valid = v.valid;
  positive = v.positive;
  fewer = omega (arith, v.fewer);
}

success-IsSafe :
    (n : ℕ) (c : CircuitState)
    → IsSafe n c
    → IsSafe (suc n) (success c) × ((success c).probe_in_flight ≡ false)
unfolding success
success-IsSafe n c v = (
  record { valid = inl (refl, v.positive, refl); positive = v.positive; fewer = omega arith },
  refl,
)

pub failure-IsSafe :
    (n now : ℕ) (c : CircuitState)
    → 0 < now
    → n + 1 < 2 ^ 64
    → IsSafe n c
    → IsSafe (suc n) (failure now c) × ((failure now c).probe_in_flight ≡ false)
unfolding failure
failure-IsSafe n now c p q v = (
  record {
    valid = unfold failure in failure-IsValid now c p (omega (arith, v.fewer)) v.valid;
    positive = ground (arith, v.positive);
    fewer = ground (arith, v.fewer);
  },
  ground (arith, v.valid, v.fewer),
)

-- The probe alone: an allowed call leaves the probe flag as it was, or sets it.
pub allow_refused : (now : ℕ) (c : CircuitState) → (allow now c).0 ≡ false → (allow now c).1 ≡ c
unfolding allow
allow_refused now c h = ground arith

length-replace-some :
    (i : ℕ) (f : InFlight) (fs : List InFlight) → length (replace i (some f) fs) ≡ length fs
length-replace-some i f [] = refl
length-replace-some zero f (g ∷ fs) = refl
length-replace-some (suc i) f (g ∷ fs) = omega (arith, length-replace-some i f fs)

module _ (n now : ℕ) (p : 0 < now) (q : n + 1 < 2 ^ 64) where
  pub reply_to-IsWatched :
      (reply : Reply) (i : ℕ) (ph : Phase) (d : Delivery) (s : System)
      → IsWatched n s.shared.circuit s.in_flight
      → IsWatched
          (suc n)
          (reply_to now reply i ph d s).shared.circuit
          (reply_to now reply i ph d s).in_flight
  unfolding on_reply
  reply_to-IsWatched reply i awaiting_reply d s (v, w) = ground (
    arith,
    IsSafe-mono n s.shared.circuit v,
    success-IsSafe n s.shared.circuit v,
    failure-IsSafe n now s.shared.circuit p q v,
    length-replace-some i (record { delivery = d; phase = awaiting_retry }) s.in_flight,
  )
  reply_to-IsWatched reply i awaiting_retry d s (v, w) = (IsSafe-mono n s.shared.circuit v, w)

  pub retry-IsWatched :
      (sends : Bool) (i : ℕ) (ph : Phase) (d : Delivery) (s : System)
      → IsWatched n s.shared.circuit s.in_flight
      → IsWatched
          (suc n)
          (retry now sends i ph d s).shared.circuit
          (retry now sends i ph d s).in_flight
  unfolding deliver
  retry-IsWatched true i awaiting_retry d s (v, w) =
      (IsSafe-mono n s.shared.circuit v, rw length-replace-some w)
  retry-IsWatched false i awaiting_retry d s (v, w) =
      let (safe, no_probe) = failure-IsSafe n now s.shared.circuit p q v in (safe, inl no_probe)
  retry-IsWatched sends i awaiting_reply d s (v, w) = (IsSafe-mono n s.shared.circuit v, w)
