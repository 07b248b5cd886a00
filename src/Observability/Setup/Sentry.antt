-- ===== src/Observability/Setup/Sentry.antt =====
-- observability/ErrorReporter.cc: the endpoint that SentryErrorReporter makes of a DSN.
use Prim.Native.Char.{Char, code}
use Prim.Native.String.{[], ◌∷◌}
use text.Mathlib.TextLemmas.{nil-append, cons-append, append_assoc}
use drogon_api_starter.Prelude.{
  ℕ, ◌+◌, ◌-◌, ◌%◌, ◌^◌, ◌<◌, ◌≡◌, refl, ap, ◌∙◌, String, false, Option, none, some, leb,
  if◌then◌else◌, arith,
}
use drogon_api_starter.Text.{◌++◌, size, Lacks, strip_prefix, strip_prefix-append}
use drogon_api_starter.Text.Slices.{
  take, drop, substr, find, find_from, moved, size-append, drop-at, take-at,
}
use drogon_api_starter.Result.{invalid_argument, Result, ok, err}

-- `separator - scheme - 3`, where size_t wraps around
abbrev key_length : ℕ → ℕ → ℕ
key_length separator scheme = (separator + 2 ^ 64 - scheme - 3) % 2 ^ 64

abbrev with_path : String → ℕ → ℕ → Option ℕ → Result String
with_path dsn separator scheme none = err (invalid_argument "SENTRY_DSN must include a project id")
with_path dsn separator scheme (some path_start) =
    if leb (size dsn) (path_start + 1)
    then err (invalid_argument "SENTRY_DSN must include a project id")
    else (let key = substr dsn (scheme + 3) (key_length separator scheme) in
        let host = substr dsn (separator + 1) (path_start - separator - 1) in
        let project = drop (path_start + 1) dsn in
        ok (
          take (scheme + 3) dsn
          ++ (host
              ++ ("/api/" ++ (project ++ ("/envelope/?sentry_version=7&sentry_key=" ++ key))))))

abbrev with_positions : String → Option ℕ → Option ℕ → Result String
with_positions dsn none scheme = err (invalid_argument "SENTRY_DSN must be a URL")
with_positions dsn (some separator) none = err (invalid_argument "SENTRY_DSN must be a URL")
with_positions dsn (some separator) (some scheme) =
    with_path dsn separator scheme (find_from "/" dsn (separator + 1))

-- `SentryErrorReporter::endpoint`
unfoldable pub sentry_endpoint : String → Result String
sentry_endpoint dsn = with_positions dsn (find "@" dsn) (find "://" dsn)

-- A text stands where the first character of it does first.
pub find-append :
    (c : Char) (pattern s t : String)
    → Lacks (code c) s
    → find (c ∷ pattern) (s ++ ((c ∷ pattern) ++ t)) ≡ some (size s)
unfolding find strip_prefix
find-append c pattern [] t h =
    rw (nil-append, cons-append) (ground (arith, strip_prefix-append pattern t))
find-append c pattern (d ∷ s) t (ne, h) =
    let rest = find-append c pattern s t h in
    rw (cons-append d s ((c ∷ pattern) ++ t)) (ground (arith, rest))

Lacks-append : (c : ℕ) (s t : String) → Lacks c s → Lacks c t → Lacks c (s ++ t)
Lacks-append c [] t h k = rw nil-append k
Lacks-append c (d ∷ s) t (ne, h) k = rw cons-append (ne, Lacks-append c s t h k)

module _ (scheme key host project : String) where
  abbrev pub dsn_of : String
  dsn_of = scheme ++ ("://" ++ (key ++ ("@" ++ (host ++ ("/" ++ project)))))

  abbrev pub endpoint_of : String
  endpoint_of =
      (scheme ++ "://")
      ++ (host ++ ("/api/" ++ (project ++ ("/envelope/?sentry_version=7&sentry_key=" ++ key))))

  -- The DSN taken apart at each place that the code looks at.
  abbrev before_at : String
  before_at = scheme ++ ("://" ++ key)

  at_key : dsn_of ≡ (scheme ++ "://") ++ (key ++ ("@" ++ (host ++ ("/" ++ project))))
  at_key = simp append_assoc

  at_separator : dsn_of ≡ before_at ++ ("@" ++ (host ++ ("/" ++ project)))
  at_separator = simp append_assoc

  at_host : dsn_of ≡ (before_at ++ "@") ++ (host ++ ("/" ++ project))
  at_host = simp append_assoc

  at_project : dsn_of ≡ ((before_at ++ "@") ++ (host ++ "/")) ++ project
  at_project = simp append_assoc

  size_before_at : size before_at ≡ size scheme + 3 + size key
  size_before_at = omega (arith, size-append scheme ("://" ++ key), size-append "://" key)

  size_of_host : size (before_at ++ "@") ≡ size scheme + 3 + size key + 1
  size_of_host = omega (arith, size_before_at, size-append before_at "@")

  size_of_project :
      size ((before_at ++ "@") ++ (host ++ "/")) ≡ size scheme + 3 + size key + 1 + size host + 1
  size_of_project =
      omega
        (arith, size_of_host, size-append (before_at ++ "@") (host ++ "/"), size-append host "/")

  size_of_dsn : size dsn_of ≡ size scheme + 3 + size key + 1 + size host + 1 + size project
  size_of_dsn =
      ap size at_project
      ∙ omega (arith, size_of_project, size-append ((before_at ++ "@") ++ (host ++ "/")) project)

  module _ (plain_scheme : Lacks b':' scheme × Lacks b'@' scheme) (plain_key : Lacks b'@' key)
      (plain_host : Lacks b'/' host) where
    found_scheme : find "://" dsn_of ≡ some (size scheme)
    found_scheme =
        find-append ":" "//" scheme (key ++ ("@" ++ (host ++ ("/" ++ project)))) plain_scheme.0

    found_separator : find "@" dsn_of ≡ some (size before_at)
    found_separator =
        ap (find "@") at_separator
        ∙ find-append "@" "" before_at (host ++ ("/" ++ project)) (
            Lacks-append b'@' scheme ("://" ++ key) plain_scheme.1
              (Lacks-append b'@' "://" key (omega arith) plain_key))

    found_path : find_from "/" dsn_of (size before_at + 1) ≡ some (size before_at + 1 + size host)
    found_path =
        ap (λ u. moved (size before_at + 1) (find "/" u))
          (drop-at (size before_at + 1) (before_at ++ "@") (host ++ ("/" ++ project)) dsn_of at_host
            (omega (arith, size-append before_at "@")))
        ∙ ap (moved (size before_at + 1)) (find-append "/" "" host project plain_host)

    -- The DSN `scheme://key@host/project` is made into the endpoint of the project on the host,
    -- with the key as a parameter, where the scheme has no `:` or `@`, the key no `@`, the host no
    -- `/`, there is a project, and a size_t holds the length.
    pub sentry_endpoint-dsn_of :
        0 < size project → size dsn_of < 2 ^ 64 → sentry_endpoint dsn_of ≡ ok endpoint_of
    unfolding sentry_endpoint
    sentry_endpoint-dsn_of some_project short =
        let path_start = size before_at + 1 + size host in
        let longer : leb (size dsn_of) (path_start + 1) ≡ false =
          ground (arith, size_of_dsn, size_before_at) in
        let key_is : substr dsn_of (size scheme + 3) (key_length (size before_at) (size scheme))
            ≡ key =
          ap (take (key_length (size before_at) (size scheme))) (
            drop-at (size scheme + 3) (scheme ++ "://") (key ++ ("@" ++ (host ++ ("/" ++ project))))
              dsn_of at_key (omega (arith, size-append scheme "://")))
          ∙ take-at (key_length (size before_at) (size scheme)) key
              ("@" ++ (host ++ ("/" ++ project))) _ refl
              (omega (arith, size_before_at, size_of_dsn)) in
        let host_is : substr dsn_of (size before_at + 1) (path_start - size before_at - 1) ≡ host =
          ap (take (path_start - size before_at - 1)) (
            drop-at (size before_at + 1) (before_at ++ "@") (host ++ ("/" ++ project)) dsn_of
              at_host (omega (arith, size-append before_at "@")))
          ∙ take-at (path_start - size before_at - 1) host ("/" ++ project) _ refl (omega arith) in
        let project_is : drop (path_start + 1) dsn_of ≡ project =
          drop-at (path_start + 1) ((before_at ++ "@") ++ (host ++ "/")) project dsn_of at_project
            (omega (arith, size_of_project, size_before_at)) in
        let start_is : take (size scheme + 3) dsn_of ≡ scheme ++ "://" =
          take-at (size scheme + 3) (scheme ++ "://") (key ++ ("@" ++ (host ++ ("/" ++ project))))
            dsn_of at_key (omega (arith, size-append scheme "://")) in
        rw
          (found_separator, found_scheme, found_path, longer, key_is, host_is, project_is, start_is)
          refl
