-- ===== src/Observability/Circuit.antt =====
-- observability/ErrorReporter.cc: struct CircuitState, the circuit breaker of the exporters. Times
-- are steady clock ticks, arguments here; `time_point{}`, the closed circuit's value, is 0.
pub mod Laws
pub mod Tests
use drogon_api_starter.Prelude.{
  ℕ, ◌+◌, ◌%◌, ◌^◌, Bool, true, false, not, ◌&&◌, leb, ltb, ◌==◌, if◌then◌else◌,
}

pub record CircuitState : Type 0 where
  pub failures : ℕ
  pub failure_threshold : ℕ
  pub open_until : ℕ
  pub cooldown : ℕ
  pub probe_in_flight : Bool

-- The constructor.
unfoldable pub make : ℕ → ℕ → CircuitState
make threshold cooldown = record {
  failures = 0;
  failure_threshold = threshold;
  open_until = 0;
  cooldown = cooldown;
  probe_in_flight = false;
}

unfoldable pub allow : ℕ → CircuitState → Bool × CircuitState
allow now c =
    if ltb now c.open_until
    then (false, c)
    else if not (c.open_until == 0) && c.probe_in_flight
    then (false, c)
    else if not (c.open_until == 0)
    then (true, record c { probe_in_flight = true })
    else (true, c)

unfoldable pub success : CircuitState → CircuitState
success c = record c { failures = 0; open_until = 0; probe_in_flight = false }

-- `failures` is a std::size_t.
unfoldable pub failure : ℕ → CircuitState → CircuitState
failure now c =
    let failures = (c.failures + 1) % 2 ^ 64 in
    if leb c.failure_threshold failures
    then record c { failures = failures; open_until = now + c.cooldown; probe_in_flight = false }
    else record c { failures = failures }
