-- ===== src/Observability/Setup/Checked.antt =====
-- observability/ErrorReporter.cc: what holds of every reporter that is configured.
use drogon_api_starter.Prelude.{
  ℕ, ◌≤◌, ◌<◌, ◌≡◌, refl, sym, inl, inr, String, Bool, true, false, ◌||◌, ◌==◌, ltb, Bool-cases,
  arith,
}
use drogon_api_starter.Text.{is_empty}
use drogon_api_starter.Result.{Result, ok, err, ◌>>=◌, throw_if, Exception}
use drogon_api_starter.Config.Floats.{Doubles}
use drogon_api_starter.Observability.Setup.{
  Limits, read_limits, Settings, Reporter, construct, is_refused, split_endpoint,
}

err-ne-ok : {A : Type 0} {e : Exception} {a : A} → Path (Result A) (err e) (ok a) → ⊥
err-ne-ok h = cc

positive : (n : ℕ) → (n == 0) ≡ false → 0 < n
positive n h = ground arith

module _ (D : Doubles) where
  -- The sizes and the counts are at least one, the attempts ten at most, no delay is at most zero
  -- and the endpoint is not empty.
  pub record IsSane (r : Reporter D) : Type 0 where
    pub endpoint : is_empty r.endpoint ≡ false
    pub batch_size : 0 < r.limits.batch_size
    pub max_queue_size : 0 < r.limits.max_queue_size
    pub attempts : (0 < r.limits.max_attempts) × (r.limits.max_attempts ≤ 10)
    pub threshold : 0 < r.limits.circuit_failure_threshold
    pub batch_delay : D.le r.limits.batch_delay_seconds (D.tenths 0) ≡ false
    pub retry_delay : D.le r.limits.retry_base_delay_seconds (D.tenths 0) ≡ false
    pub open_seconds : D.le r.limits.circuit_open_seconds (D.tenths 0) ≡ false

  neither : (a b : Bool) → (a || b) ≡ false → (a ≡ false) × (b ≡ false)
  neither false b h = (refl, h)
  neither true b h = absurd (cc)

  sane : (r : Reporter D) → is_empty r.endpoint ≡ false → is_refused D r.limits ≡ false → IsSane r
  sane r host h =
      let (h6, open_seconds) = neither _ (D.le r.limits.circuit_open_seconds (D.tenths 0)) h in
      let (h5, threshold) = neither _ (r.limits.circuit_failure_threshold == 0) h6 in
      let (h4, retry) = neither _ (D.le r.limits.retry_base_delay_seconds (D.tenths 0)) h5 in
      let (h3, many) = neither _ (ltb 10 r.limits.max_attempts) h4 in
      let (h2, attempts) = neither _ (r.limits.max_attempts == 0) h3 in
      let (h1, delay) = neither _ (D.le r.limits.batch_delay_seconds (D.tenths 0)) h2 in
      let (batch, queue) = neither (r.limits.batch_size == 0) (r.limits.max_queue_size == 0) h1 in
      record {
        endpoint = host;
        batch_size = positive _ batch;
        max_queue_size = positive _ queue;
        attempts = (positive _ attempts, ground arith);
        threshold = positive _ threshold;
        batch_delay = delay;
        retry_delay = retry;
        open_seconds = open_seconds;
      }

  accepted :
      (b : Bool) (e : Exception) (r : Reporter D) {s : Reporter D}
      → (throw_if b e >>= λ _. ok r) ≡ ok s
      → (b ≡ false) × (r ≡ s)
  accepted false e r h = (refl, cc)
  accepted true e r h = absurd (cc)

  limited :
      (provider host path : String) (read : Result (Limits D)) (e : Exception) {r : Reporter D}
      → is_empty host ≡ false
      → (read >>= λ limits. throw_if (is_refused D limits) e >>= λ _.
          ok
            (record { provider = provider; endpoint = host; request_path = path; limits = limits }))
        ≡ ok r
      → IsSane r
  limited provider host path (err thrown) e some_host h = absurd (cc)
  limited provider host path (ok limits) e some_host h =
      let (fine, same) = accepted (is_refused D limits) e _ h in
      rw (sym same) (sane _ some_host fine)

  -- Every reporter that the constructor makes, whatever the settings are, has an endpoint, sizes
  -- and a threshold of at least one, one to ten attempts, and delays that are not at most zero.
  pub construct-IsSane :
      (provider endpoint : String) (settings : Settings) {r : Reporter D}
      → construct D provider endpoint settings ≡ ok r
      → IsSane r
  unfolding construct
  construct-IsSane provider endpoint settings h =
      elim (Bool-cases (is_empty (split_endpoint endpoint).0)) [
        | inl e ↦ absurd (err-ne-ok (rw e at h))
        | inr e ↦ limited provider _ _ (read_limits D settings) _ e (rw e at h)
      ]
