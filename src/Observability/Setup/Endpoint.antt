-- ===== src/Observability/Setup/Endpoint.antt =====
-- observability/ErrorReporter.cc: where the constructor of HttpErrorReporter splits an endpoint.
use Prim.Native.String.{[], ◌∷◌}
use text.Mathlib.TextLemmas.{nil-append, cons-append, append_assoc}
use drogon_api_starter.Prelude.{◌+◌, ◌≡◌, refl, ap, ◌∙◌, String, false, some, arith}
use drogon_api_starter.Text.{◌++◌, size, Lacks, is_empty}
use drogon_api_starter.Text.Slices.{find, find_from, moved, size-append, drop-at, take-at}
use drogon_api_starter.Observability.Setup.{split_endpoint}
use drogon_api_starter.Observability.Setup.Sentry.{find-append}

-- A text with `://` in it is not empty.
pub is_empty-url : (scheme rest : String) → is_empty (scheme ++ ("://" ++ rest)) ≡ false
is_empty-url [] rest = rw (nil-append, cons-append) refl
is_empty-url (c ∷ scheme) rest = rw (cons-append c scheme ("://" ++ rest)) refl

module _ (scheme host path : String) where
  abbrev pub url_of : String
  url_of = scheme ++ ("://" ++ (host ++ ("/" ++ path)))

  at_host : url_of ≡ (scheme ++ "://") ++ (host ++ ("/" ++ path))
  at_host = simp append_assoc

  at_path : url_of ≡ (scheme ++ ("://" ++ host)) ++ ("/" ++ path)
  at_path = simp append_assoc

  size_before_path : size scheme + 3 + size host ≡ size (scheme ++ ("://" ++ host))
  size_before_path = omega (arith, size-append scheme ("://" ++ host), size-append "://" host)

  module _ (plain_scheme : Lacks b':' scheme) (plain_host : Lacks b'/' host) where
    found_path : find_from "/" url_of (size scheme + 3) ≡ some (size scheme + 3 + size host)
    found_path =
        ap (λ u. moved (size scheme + 3) (find "/" u))
          (drop-at (size scheme + 3) (scheme ++ "://") (host ++ ("/" ++ path)) url_of at_host
            (omega (arith, size-append scheme "://")))
        ∙ ap (moved (size scheme + 3)) (find-append "/" "" host path plain_host)

    -- The endpoint goes up to the first slash after the scheme, and the path from there on.
    pub split_endpoint-url_of : split_endpoint url_of ≡ (scheme ++ ("://" ++ host), "/" ++ path)
    unfolding split_endpoint
    split_endpoint-url_of =
        rw
          (
            find-append ":" "//" scheme (host ++ ("/" ++ path)) plain_scheme,
            found_path,
            take-at (size scheme + 3 + size host) (scheme ++ ("://" ++ host)) ("/" ++ path) url_of
                at_path size_before_path,
            drop-at (size scheme + 3 + size host) (scheme ++ ("://" ++ host)) ("/" ++ path) url_of
                at_path size_before_path,
          )
          refl
