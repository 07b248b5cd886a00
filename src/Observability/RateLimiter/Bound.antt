-- ===== src/Observability/RateLimiter/Bound.antt =====
-- observability/RateLimiter.cc: how many requests of a key any window admits.
use mathlib.Core.List.{append-nil, append_assoc}
use drogon_api_starter.Prelude.{
  ℕ, ◌+◌, ◌≤◌, ◌<◌, ◌≡◌, ap, inl, inr, String, Bool, true, false, ◌&&◌, List, [], ◌∷◌, ◌++◌, arith,
  ltb, leb, ◌==◌, count, count-append, str_eq, eq_iff, Bool-cases,
}
use drogon_api_starter.Observability.RateLimiter.{make, run}
use drogon_api_starter.Observability.RateLimiter.Window.{
  recent, spec_run, Chronological, run-eq-spec_run,
}

-- The calls that were answered with `true`.
abbrev pub admitted : List (String × ℕ) → List Bool → List (String × ℕ)
admitted [] answers = []
admitted (c ∷ calls) [] = []
admitted (c ∷ calls) (true ∷ answers) = c ∷ admitted calls answers
admitted (c ∷ calls) (false ∷ answers) = admitted calls answers

-- How many of them are of one key and lie in the window that begins at `from`.
abbrev pub in_window : ℕ → String → ℕ → List (String × ℕ) → ℕ
in_window window key from = count (λ e. str_eq e.0 key && leb from e.1 && ltb e.1 (from + window))

-- Whatever lies in a window with a time `now` still counts at `now`.
in_window-le-recent :
    (window : ℕ) (key : String) (from now : ℕ) (log : List (String × ℕ))
    → now < from + window
    → in_window window key from log ≤ recent window key now log
in_window-le-recent window key from now [] h = omega arith
in_window-le-recent window key from now (e ∷ log) h =
    ground (arith, in_window-le-recent window key from now log h)

in_window-push :
    (limit window : ℕ) (key k : String) (from now : ℕ) (log : List (String × ℕ))
    → in_window window key from log ≤ limit
    → recent window k now log < limit
    → in_window window key from (log ++ (k, now) ∷ []) ≤ limit
in_window-push limit window key k from now log h fits =
    rw
      (count-append (λ (e : String × ℕ). str_eq e.0 key && leb from e.1 && ltb e.1 (from + window))
        log ((k, now) ∷ []))
      (elim (Bool-cases (str_eq k key)) [
        | inl e ↦
            let same : in_window window k from log ≡ in_window window key from log =
              ap (λ x. in_window window x from log) ((eq_iff k key).0 e) in
            ground (arith, same, in_window-le-recent window k from now log)
        | inr e ↦ rw e (omega arith)
      ])

spec_run-in_window :
    (limit window : ℕ) (key : String) (from : ℕ) (log calls : List (String × ℕ))
    → (limit == 0) ≡ false
    → in_window window key from log ≤ limit
    → in_window window key from (log ++ admitted calls (spec_run limit window log calls)) ≤ limit
unfolding spec_run
spec_run-in_window limit window key from log [] p h = rw append-nil h
spec_run-in_window limit window key from log ((k, now) ∷ calls) p h =
    elim (Bool-cases (ltb (recent window k now log) limit)) [
      | inl fits ↦
          rw (p, fits, ← append_assoc log ((k, now) ∷ []))
            (spec_run-in_window limit window key from (log ++ (k, now) ∷ []) calls p
              (in_window-push limit window key k from now log h (ground arith)))
      | inr full ↦ rw (p, full) (spec_run-in_window limit window key from log calls p h)
    ]

-- For a limit that is on and calls in the order of their times, no window of the configured length,
-- wherever it begins, holds more admitted requests of one key than the limit.
pub run-in_window :
    (limit window : ℕ) (calls : List (String × ℕ)) (key : String) (from : ℕ)
    → 0 < limit
    → Chronological 0 calls
    → in_window window key from (admitted calls (run (make limit window) calls)) ≤ limit
run-in_window limit window calls key from p h =
    rw (run-eq-spec_run limit window calls h)
      (spec_run-in_window limit window key from [] calls (ground arith) (omega arith))
