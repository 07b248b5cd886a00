-- ===== src/Observability/Circuit/Tests.antt =====
-- Runs of the circuit breaker.
use drogon_api_starter.Prelude.{
  ℕ, ◌≤◌, ◌≡◌, refl, true, false, ◌||◌, [], ◌∷◌, arith, count, ltb, leb, ◌+◌, length,
}
use drogon_api_starter.Observability.Circuit.{CircuitState, make, allow, failure}
use drogon_api_starter.Observability.Circuit.Laws.{
  fail_all, allow-fail_all, allow_all, allow_all_once,
}

-- Open since time 10, for 20 ticks.
abbrev tripped : CircuitState
tripped = record {
  failures = 2;
  failure_threshold = 2;
  open_until = 30;
  cooldown = 20;
  probe_in_flight = false;
}

fail_twice : failure 10 (failure 5 (make 2 20)) ≡ tripped
unfolding failure make
fail_twice = refl

probe_once : allow_all (12 ∷ 31 ∷ 32 ∷ []) tripped ≡ false ∷ true ∷ false ∷ []
unfolding allow_all allow
probe_once = refl

allow-fail_all_example :
    (allow 29 (failure 10 (fail_all (5 ∷ []) (make 2 20)))).0
    ≡ (ltb (length {A = ℕ} (5 ∷ []) + 1) 2 || leb (10 + 20) 29)
allow-fail_all_example = allow-fail_all 2 20 (5 ∷ []) 10 29 (omega arith)

allow_all_once_example : count (λ b. b) (allow_all (12 ∷ 31 ∷ 32 ∷ []) tripped) ≤ 1
allow_all_once_example = allow_all_once (12 ∷ 31 ∷ 32 ∷ []) tripped (omega arith)
