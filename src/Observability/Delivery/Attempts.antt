-- ===== src/Observability/Delivery/Attempts.antt =====
-- A delivery from its start to its end, against a client that answers each attempt.
use drogon_api_starter.Prelude.{
  ℕ, zero, suc, ◌+◌, ◌%◌, ◌^◌, ◌≤◌, ◌<◌, ◌≡◌, refl, inl, inr, true, false, Option, none, some, List,
  [], ◌∷◌, arith, ltb, length, Bool-cases, if◌then◌else◌, get_elem?,
}
use drogon_api_starter.Observability.Metrics.{record_retry, record_failure}
use drogon_api_starter.Observability.Circuit.{CircuitState, success, failure}
use drogon_api_starter.Observability.Delivery.{
  Delivery, Shared, Reply, is_success, give_up, deliver, finished, retry_after, on_reply,
}

-- What the client does with an attempt: it cannot send the request, or answers at some time.
pub data Outcome : Type 0 where
  unsent : ℕ → Outcome
  answered : ℕ → Reply → Outcome

-- How a delivery ended: how many times it was sent or tried to be, the delays in between, and what it
-- shares; `pending` if the outcomes given do not reach the end.
pub data Ending : Type 0 where
  pending : Ending
  ended : ℕ → List ℕ → Shared → Ending

abbrev delayed : ℕ → Ending → Ending
delayed times pending = pending
delayed times (ended attempts delays s) = ended (suc attempts) (times ∷ delays) s

-- `deliver`, the callback, the retry after its delay, and so on: one outcome for each call of
-- `deliver`.
pub drive : List Outcome → Delivery → Shared → Ending
drive [] d s = pending
drive (unsent now ∷ rest) d s = ended 1 [] (deliver false now d s).1
drive (answered now reply ∷ rest) d s =
    let again : ℕ → Delivery → Shared → Ending =
      λ times sent s'. delayed times (drive rest sent s') in
    let (request, s1) = deliver true now d s in
    elim request [
      | none ↦ ended 1 [] s1
      | some sent ↦
          (let (next, s2) = on_reply reply now sent s1 in
            elim next [ finished ↦ ended 1 [] s2 | retry_after times ↦ again times sent s2 ])
    ]

-- The powers of two from an exponent on.
abbrev pub powers : ℕ → ℕ → List ℕ
powers a zero = []
powers a (suc k) = 2 ^ a ∷ powers (suc a) k

-- What the outcome of the last attempt does to the circuit breaker.
abbrev pub verdict : Option Outcome → CircuitState → CircuitState
verdict none c = c
verdict (some (unsent now)) c = failure now c
verdict (some (answered now reply)) c = if is_success reply then success c else failure now c

-- A delivery that has made `a` attempts ends after `k` more retries.
pub record Ends (outcomes : List Outcome) (a : ℕ) (d : Delivery) (s : Shared) : Type 0 where
  pub retries : ℕ
  pub shared : Shared
  pub ending : drive outcomes d s ≡ ended (retries + 1) (powers a retries) shared
  pub in_bounds : a + retries + 1 ≤ d.max_attempts
  pub reported : shared.circuit ≡ verdict (get_elem? outcomes retries) s.circuit
  pub counted : shared.metrics.retries ≡ (s.metrics.retries + retries) % 2 ^ 64

small_power : (a : ℕ) → a < 10 → 2 ^ a % 2 ^ 64 ≡ 2 ^ a
small_power zero h = refl
small_power (suc zero) h = refl
small_power (suc (suc zero)) h = refl
small_power (suc (suc (suc zero))) h = refl
small_power (suc (suc (suc (suc zero)))) h = refl
small_power (suc (suc (suc (suc (suc zero))))) h = refl
small_power (suc (suc (suc (suc (suc (suc zero)))))) h = refl
small_power (suc (suc (suc (suc (suc (suc (suc zero))))))) h = refl
small_power (suc (suc (suc (suc (suc (suc (suc (suc zero)))))))) h = refl
small_power (suc (suc (suc (suc (suc (suc (suc (suc (suc zero))))))))) h = refl
small_power (suc (suc (suc (suc (suc (suc (suc (suc (suc (suc a)))))))))) h = absurd (omega arith)

drive_from-Ends :
    (outcomes : List Outcome) (a : ℕ) (d : Delivery) (s : Shared)
    → d.attempt ≡ a
    → d.max_attempts ≤ 10
    → a < d.max_attempts
    → d.max_attempts ≤ a + length outcomes
    → s.metrics.retries < 2 ^ 64
    → Ends outcomes a d s
unfolding drive deliver on_reply record_retry record_failure
drive_from-Ends [] a d s e small h k r = absurd (omega arith)
drive_from-Ends (unsent now ∷ rest) a d s e small h k r = record {
  retries = 0;
  shared = give_up now s;
  ending = ground arith;
  in_bounds = omega arith;
  reported = ground arith;
  counted = ground arith;
}
drive_from-Ends (answered now reply ∷ rest) a d s e small h k r =
    elim (Bool-cases (is_success reply)) [
      | inl ok ↦ record {
        retries = 0;
        shared = record s { circuit = success s.circuit };
        ending = ground arith;
        in_bounds = omega arith;
        reported = ground arith;
        counted = omega arith;
      }
      | inr bad ↦ elim (Bool-cases (ltb (a + 1) d.max_attempts)) [
        | inl more ↦
            let later =
              drive_from-Ends rest (suc a) (record d { attempt = suc a })
                (record s { metrics = record_retry s.metrics }) refl small (ground arith)
                (omega arith) (ground arith) in
            record {
              retries = suc later.retries;
              shared = later.shared;
              ending = ground (arith, later.ending, small_power a);
              in_bounds = omega (arith, later.in_bounds);
              reported = later.reported;
              counted = ground (arith, later.counted);
            }
        | inr done ↦ record {
          retries = 0;
          shared = give_up now s;
          ending = ground arith;
          in_bounds = omega arith;
          reported = ground arith;
          counted = ground arith;
        }
      ]
    ]

-- A new delivery of one to ten attempts, whatever the client does with each, comes to its end: it
-- makes no more attempts than it may, waits 1, 2, 4, … base delays between them, counts its retries,
-- and reports the outcome of its last attempt to the circuit breaker, once.
pub drive-Ends :
    (outcomes : List Outcome) (d : Delivery) (s : Shared)
    → d.attempt ≡ 0
    → 0 < d.max_attempts
    → d.max_attempts ≤ 10
    → d.max_attempts ≤ length outcomes
    → s.metrics.retries < 2 ^ 64
    → Ends outcomes 0 d s
drive-Ends outcomes d s e p small k r = drive_from-Ends outcomes 0 d s e small p (omega arith) r
