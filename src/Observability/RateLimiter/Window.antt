-- ===== src/Observability/RateLimiter/Window.antt =====
-- The rate limiter against a sliding window over the log of all admitted requests.
use drogon_api_starter.Prelude.{
  ℕ, ◌+◌, ◌≤◌, ◌<◌, ◌≡◌, refl, ap, ◌∙◌, sym, inl, inr, String, Bool, true, false, ◌&&◌, ◌||◌, List,
  [], ◌∷◌, ◌++◌, arith, ltb, leb, ◌==◌, eq_refl, if◌then◌else◌, length, count, count-append, str_eq,
  All, All-append, eq_iff, Bool-cases,
}
use drogon_api_starter.Prelude.Dict.{lookup, insert, lookup-insert}
use drogon_api_starter.Observability.RateLimiter.{
  RateLimiter, make, pop_expired, timestamps, allow, run,
}

-- A time counts at `now` for less than a window.
abbrev pub is_live : ℕ → ℕ → ℕ → Bool
is_live window now t = ltb now (t + window)

-- The number of admitted requests of a key that still count at `now`.
abbrev pub recent : ℕ → String → ℕ → List (String × ℕ) → ℕ
recent window key now = count (λ e. str_eq e.0 key && is_live window now e.1)

-- The specification: a call is admitted if the limit is off, or if fewer requests than the limit
-- were admitted for its key within the last window. It keeps every admitted request.
unfoldable pub spec_run : ℕ → ℕ → List (String × ℕ) → List (String × ℕ) → List Bool
spec_run limit window log [] = []
spec_run limit window log ((key, now) ∷ calls) =
    let fits = limit == 0 || ltb (recent window key now log) limit in
    fits ∷ spec_run limit window (if fits then log ++ (key, now) ∷ [] else log) calls

-- The times of a deque, oldest first, none after `last`.
abbrev Sorted : ℕ → List ℕ → Type 0
Sorted last [] = Unit {0}
Sorted last (t ∷ ts) = (t ≤ last) × All (λ u. t ≤ u) ts × Sorted last ts

abbrev live_count : ℕ → ℕ → List ℕ → ℕ
live_count window now = count (is_live window now)

Sorted-mono : {m n : ℕ} (ts : List ℕ) → m ≤ n → Sorted m ts → Sorted n ts
Sorted-mono [] h s = tt
Sorted-mono (t ∷ ts) h (p, a, s) = (omega arith, a, Sorted-mono ts h s)

Sorted-push :
    {last : ℕ} (ts : List ℕ) (now : ℕ) → last ≤ now → Sorted last ts → Sorted now (ts ++ now ∷ [])
Sorted-push [] now h s = (omega arith, tt, tt)
Sorted-push {last} (t ∷ ts) now h (p, a, s) =
    (omega arith, All-append (λ u. t ≤ u) ts (now ∷ []) a (omega arith, tt), Sorted-push ts now h s)

live_count-All :
    (window now t : ℕ) (ts : List ℕ)
    → now < t + window
    → All (λ u. t ≤ u) ts
    → live_count window now ts ≡ length ts
live_count-All window now t [] h a = refl
live_count-All window now t (u ∷ ts) h (p, a) = ground (arith, live_count-All window now t ts h a)

-- What the loop leaves is what still counts, and it drops nothing that will count later.
length-pop_expired :
    (window now last : ℕ) (ts : List ℕ)
    → Sorted last ts
    → length (pop_expired window now ts) ≡ live_count window now ts
unfolding pop_expired
length-pop_expired window now last [] s = refl
length-pop_expired window now last (t ∷ ts) (p, a, s) =
    ground (arith, length-pop_expired window now last ts s, live_count-All window now t ts)

live_count-pop_expired :
    (window now later : ℕ) (ts : List ℕ)
    → now ≤ later
    → live_count window later (pop_expired window now ts) ≡ live_count window later ts
unfolding pop_expired
live_count-pop_expired window now later [] h = refl
live_count-pop_expired window now later (t ∷ ts) h =
    ground (arith, live_count-pop_expired window now later ts h)

Sorted-pop_expired :
    (window now last : ℕ) (ts : List ℕ) → Sorted last ts → Sorted last (pop_expired window now ts)
unfolding pop_expired
Sorted-pop_expired window now last [] s = tt
Sorted-pop_expired window now last (t ∷ ts) (p, a, s) =
    ground (arith, Sorted-pop_expired window now last ts s)

-- The deques of a limiter stand for the log, as far as later calls can tell.
record Stands (log : List (String × ℕ)) (last : ℕ) (r : RateLimiter) : Type 0 where
  sorted : (key : String) → Sorted last (timestamps r key)
  counts :
      (key : String) (now : ℕ)
      → last ≤ now
      → live_count r.window now (timestamps r key) ≡ recent r.window key now log

timestamps-insert :
    (r : RateLimiter) (key j : String) (ts : List ℕ)
    → timestamps (record r { requests = insert key ts r.requests }) j
      ≡ (if str_eq key j then ts else timestamps r j)
timestamps-insert r key j ts = ground (arith, lookup-insert key j ts r.requests)

recent-push :
    (window now later : ℕ) (key j : String) (log : List (String × ℕ))
    → recent window j later (log ++ (key, now) ∷ [])
      ≡ recent window j later log + (if str_eq key j && is_live window later now then 1 else 0)
recent-push window now later key j log = omega (
  arith,
  count-append (λ (e : String × ℕ). str_eq e.0 j && is_live window later e.1) log ((key, now) ∷ []),
)

-- A write of one key keeps the correspondence, if the new deque stands for the new log at that key.
Stands-insert :
    {log log' : List (String × ℕ)} {last now : ℕ} {r : RateLimiter} (key : String) (ts : List ℕ)
    → last ≤ now
    → Stands log last r
    → Sorted now ts
    → ((later : ℕ) → now ≤ later → live_count r.window later ts ≡ recent r.window key later log')
    → ((j : String)
        → str_eq key j ≡ false
        → (later : ℕ) → recent r.window j later log' ≡ recent r.window j later log)
    → Stands log' now (record r { requests = insert key ts r.requests })
Stands-insert {now} {r} key ts h s own here others = record {
  sorted = λ j. rw (timestamps-insert r key j ts) (elim (Bool-cases (str_eq key j)) [
    | inl e ↦ rw e own
    | inr e ↦ rw e (Sorted-mono (timestamps r j) h (s.sorted j))
  ]);
  counts = λ j later h'. rw (timestamps-insert r key j ts) (elim (Bool-cases (str_eq key j)) [
    | inl e ↦ rw (e, ← (eq_iff key j).0 e) (here later h')
    | inr e ↦ rw e (s.counts j later (omega arith) ∙ sym (others j e later))
  ]);
}

module _ {log : List (String × ℕ)} {last : ℕ} {r : RateLimiter} (key : String) (now : ℕ)
    (h : last ≤ now) (s : Stands log last r) where
  abbrev left : List ℕ
  left = pop_expired r.window now (timestamps r key)

  length-left : length left ≡ recent r.window key now log
  length-left = length-pop_expired r.window now last _ (s.sorted key) ∙ s.counts key now h

  left-counts :
      (later : ℕ) → now ≤ later → live_count r.window later left ≡ recent r.window key later log
  left-counts later h' =
      live_count-pop_expired r.window now later _ h' ∙ s.counts key later (omega arith)

  left-Sorted : Sorted last left
  left-Sorted = Sorted-pop_expired r.window now last _ (s.sorted key)

  Stands-rejected : Stands log now (record r { requests = insert key left r.requests })
  Stands-rejected =
      Stands-insert key left h s (Sorted-mono left h left-Sorted) left-counts (λ j e later. refl)

  Stands-admitted :
      Stands
        (log ++ (key, now) ∷ [])
        now
        (record r { requests = insert key (left ++ now ∷ []) r.requests })
  Stands-admitted =
      Stands-insert key (left ++ now ∷ []) h s (Sorted-push left now h left-Sorted)
        (λ later h'. ground (
          arith,
          count-append (is_live r.window later) left (now ∷ []),
          left-counts later h',
          recent-push r.window now later key key log,
          eq_refl key,
        ))
        (λ j e later. ground (arith, recent-push r.window now later key j log))

-- The calls come in the order of their times, none before `last`.
abbrev pub Chronological : ℕ → List (String × ℕ) → Type 0
Chronological last [] = Unit {0}
Chronological last (c ∷ calls) = (last ≤ c.1) × Chronological c.1 calls

run-eq-spec_run_off :
    (r : RateLimiter) (log calls : List (String × ℕ))
    → r.limit ≡ 0
    → run r calls ≡ spec_run r.limit r.window log calls
unfolding run spec_run allow
run-eq-spec_run_off r log [] e = refl
run-eq-spec_run_off r log ((key, now) ∷ calls) e =
    ground (arith, run-eq-spec_run_off r (log ++ (key, now) ∷ []) calls e)

run-eq-spec_run_on :
    (log : List (String × ℕ)) (last : ℕ) (r : RateLimiter) (calls : List (String × ℕ))
    → (r.limit == 0) ≡ false
    → Stands log last r
    → Chronological last calls
    → run r calls ≡ spec_run r.limit r.window log calls
unfolding run spec_run allow
run-eq-spec_run_on log last r [] e s h = refl
run-eq-spec_run_on log last r ((key, now) ∷ calls) e s (h, hs) =
    elim (Bool-cases (leb r.limit (length (left key now h s)))) [
      | inl full ↦
          let full' : ltb (recent r.window key now log) r.limit ≡ false =
            ground (arith, length-left key now h s) in
          rw (e, full, full')
            (ap (◌∷◌ false) (run-eq-spec_run_on log now _ calls e (Stands-rejected key now h s) hs))
      | inr fits ↦
          let fits' : ltb (recent r.window key now log) r.limit ≡ true =
            ground (arith, length-left key now h s) in
          rw (e, fits, fits')
            (ap (◌∷◌ true) (
              run-eq-spec_run_on (log ++ (key, now) ∷ []) now _ calls e
                (Stands-admitted key now h s) hs))
    ]

Stands-make : (limit window : ℕ) → Stands [] 0 (make limit window)
unfolding make lookup
Stands-make limit window = record { sorted = λ key. tt; counts = λ key now h. refl }

-- For calls in the order of their times, the limiter answers as the sliding window does: the log of
-- a key's times that it prunes decides the same as the log of all admitted requests.
pub run-eq-spec_run :
    (limit window : ℕ) (calls : List (String × ℕ))
    → Chronological 0 calls
    → run (make limit window) calls ≡ spec_run limit window [] calls
run-eq-spec_run limit window calls h = elim (Bool-cases (limit == 0)) [
  | inl off ↦ unfold make in run-eq-spec_run_off (make limit window) [] calls (ground arith)
  | inr on ↦
      unfold make in
      run-eq-spec_run_on [] 0 (make limit window) calls on (Stands-make limit window) h
]
