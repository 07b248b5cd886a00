-- ===== src/Observability/Circuit/Laws.antt =====
-- What the circuit breaker promises: it opens at the threshold, and lets one probe through.
use drogon_api_starter.Prelude.{
  ℕ, ◌+◌, ◌^◌, ◌≤◌, ◌<◌, ◌≡◌, refl, ◌⊎◌, inl, Bool, true, false, ◌||◌, List, [], ◌∷◌, arith, count,
  leb, ltb, length,
}
use drogon_api_starter.Observability.Circuit.{CircuitState, make, allow, success, failure}

-- A closed circuit has fewer failures than the threshold and no probe; an open one has as many.
abbrev pub IsValid : CircuitState → Type 0
IsValid c =
    ((c.open_until ≡ 0) × (c.failures < c.failure_threshold) × (c.probe_in_flight ≡ false))
    ⊎ ((0 < c.open_until) × (c.failure_threshold ≤ c.failures))

pub make-IsValid : (threshold cooldown : ℕ) → 0 < threshold → IsValid (make threshold cooldown)
unfolding make
make-IsValid threshold cooldown h = inl (refl, h, refl)

pub allow-IsValid : (now : ℕ) (c : CircuitState) → IsValid c → IsValid (allow now c).1
unfolding allow
allow-IsValid now c v = ground arith

pub success-IsValid : (c : CircuitState) → 0 < c.failure_threshold → IsValid (success c)
unfolding success
success-IsValid c h = inl (refl, h, refl)

pub failure-IsValid :
    (now : ℕ) (c : CircuitState)
    → 0 < now
    → c.failures + 1 < 2 ^ 64
    → IsValid c
    → IsValid (failure now c)
unfolding failure
failure-IsValid now c p q v = ground arith

-- Failures one after the other, at the given times.
unfoldable pub fail_all : List ℕ → CircuitState → CircuitState
fail_all [] c = c
fail_all (now ∷ times) c = fail_all times (failure now c)

fail_all_counts :
    (times : List ℕ) (c : CircuitState)
    → c.failures + length times < 2 ^ 64
    → ((fail_all times c).failures ≡ c.failures + length times)
      × ((fail_all times c).failure_threshold ≡ c.failure_threshold)
      × ((fail_all times c).cooldown ≡ c.cooldown)
unfolding fail_all failure
fail_all_counts [] c h = (omega arith, refl, refl)
fail_all_counts (now ∷ times) c h = ground (arith, fail_all_counts times (failure now c))

fail_all_closed :
    (times : List ℕ) (c : CircuitState)
    → c.failures + length times < 2 ^ 64
    → c.failures + length times < c.failure_threshold
    → c.open_until ≡ 0
    → (fail_all times c).open_until ≡ 0
unfolding fail_all failure
fail_all_closed [] c h k e = e
fail_all_closed (now ∷ times) c h k e = ground (arith, fail_all_closed times (failure now c))

-- After consecutive failures of a new circuit, the last at time `t`, a call is let through exactly
-- if they are fewer than the threshold or the cooldown since `t` is over.
pub allow-fail_all :
    (threshold cooldown : ℕ) (times : List ℕ) (t now : ℕ)
    → length times + 1 < 2 ^ 64
    → (allow now (failure t (fail_all times (make threshold cooldown)))).0
      ≡ (ltb (length times + 1) threshold || leb (t + cooldown) now)
unfolding allow failure make
allow-fail_all threshold cooldown times t now h = ground (
  arith,
  fail_all_counts times (make threshold cooldown),
  fail_all_closed times (make threshold cooldown),
)

-- The answers to calls at the given times, with no outcome reported in between.
unfoldable pub allow_all : List ℕ → CircuitState → List Bool
allow_all [] c = []
allow_all (now ∷ times) c = (allow now c).0 ∷ allow_all times (allow now c).1

allow_all_probing :
    (times : List ℕ) (c : CircuitState)
    → 0 < c.open_until
    → c.probe_in_flight ≡ true
    → count (λ b. b) (allow_all times c) ≡ 0
unfolding allow_all allow
allow_all_probing [] c h e = refl
allow_all_probing (now ∷ times) c h e = ground (arith, allow_all_probing times c)

-- An open circuit lets at most one call through until an outcome is reported, at whatever times.
pub allow_all_once :
    (times : List ℕ) (c : CircuitState) → 0 < c.open_until → count (λ b. b) (allow_all times c) ≤ 1
unfolding allow_all allow
allow_all_once [] c h = omega arith
allow_all_once (now ∷ times) c h =
    ground
      (arith, allow_all_once times c, allow_all_probing times (record c { probe_in_flight = true }))
