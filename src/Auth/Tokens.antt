-- ===== src/Auth/Tokens.antt =====
-- helpers/AuthToken.h and filters/AuthFilter.cc: what the filter lets through.
use text.Mathlib.TextLemmas.{cons-append}
use drogon_api_starter.Prelude.{
  ℕ, ◌+◌, ◌≤◌, ◌≡◌, refl, String, Bool, true, false, if◌then◌else◌, arith,
}
use drogon_api_starter.Text.{◌++◌, is_empty, strip_prefix-append}
use drogon_api_starter.Result.{Result, ok, err}
use drogon_api_starter.Json.{JsonLib}
use drogon_api_starter.Config.EnvFile.{Values}
use drogon_api_starter.Auth.{
  Claims, JwtLib, generate_jwt, verify_jwt, without_bearer, get_env, passed, filtered, verified,
  do_filter,
}

-- jwt-cpp accepts a token that was signed with the key and the issuer, from its issue to its expiry.
abbrev pub Accepts : JwtLib → Type 0
Accepts jwt =
    (key : String) (c : Claims) (now : ℕ)
    → c.issued_at ≤ now
    → now ≤ c.expires_at
    → jwt.verify key c.issuer now (jwt.sign key c) ≡ ok tt

bearer-ne-empty : (s : String) → is_empty ("Bearer " ++ s) ≡ false
bearer-ne-empty s = rw cons-append refl

module _ (json : JsonLib) (jwt : JwtLib) where
  passed-cases :
      (no_secret no_token : Bool) (r : Result (Unit {0}))
      → filtered json jwt
          (if no_secret then ok false else if no_token then ok false else verified jwt r)
        ≡ ok passed
      → (no_secret ≡ false) × (no_token ≡ false) × (r ≡ ok tt)
  passed-cases true no_token r h = ground (arith, h)
  passed-cases false true r h = ground (arith, h)
  passed-cases false false (ok tt) h = (refl, refl, refl)
  passed-cases false false (err e) h = ground (arith, h)

  -- A token that the login issued opens the filter for the hour after it, sent after `Bearer `, where
  -- .env has a secret key and jwt-cpp accepts what it signed.
  pub do_filter-generate_jwt :
      (accepts : Accepts jwt) (values : Values) (email name : String) (issued now : ℕ)
      → is_empty (get_env values "SECRET_KEY") ≡ false
      → issued ≤ now
      → now ≤ issued + 3600
      → do_filter json jwt now values
          ("Bearer " ++ generate_jwt jwt issued (get_env values name) email)
        ≡ ok passed
  unfolding do_filter verify_jwt generate_jwt get_env
  do_filter-generate_jwt accepts values email name issued now secret later in_time =
      let token : Claims = record {
        issuer = "auth0";
        identity = email;
        issued_at = issued;
        expires_at = issued + 3600;
      } in
      let signed = jwt.sign (get_env values "SECRET_KEY") token in
      rw
        (
          secret,
          bearer-ne-empty signed,
          strip_prefix-append "Bearer " signed,
          accepts (get_env values "SECRET_KEY") token now later in_time,
        )
        refl

  -- The filter lets a request pass only where .env has a secret key, the header is not empty and jwt-cpp
  -- accepts the header's token under that key and the issuer auth0 at that time.
  pub do_filter-passed :
      (now : ℕ) (values : Values) (authorization : String)
      → do_filter json jwt now values authorization ≡ ok passed
      → (is_empty (get_env values "SECRET_KEY") ≡ false)
        × (is_empty authorization ≡ false)
        × (jwt.verify (get_env values "SECRET_KEY") "auth0" now (without_bearer jwt authorization)
            ≡ ok tt)
  unfolding do_filter verify_jwt
  do_filter-passed now values authorization h =
      passed-cases (is_empty (get_env values "SECRET_KEY")) (is_empty authorization)
        (jwt.verify (get_env values "SECRET_KEY") "auth0" now (without_bearer jwt authorization)) h
