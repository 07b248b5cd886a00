-- ===== src/Auth/Login.antt =====
-- controllers/AuthController.cc: the answer to a login.
use drogon_api_starter.Prelude.{
  ℕ, suc, ◌≤◌, ◌≡◌, refl, ap, ◌∙◌, String, Bool, true, false, some, List, [], ◌∷◌, length,
  if◌then◌else◌, arith, Bool-cases, inl, inr,
}
use drogon_api_starter.Result.{ok}
use drogon_api_starter.Platform.{Platform}
use drogon_api_starter.Services.Input.{HasText, text_at-eq}
use drogon_api_starter.Config.EnvFile.{Values}
use drogon_api_starter.Models.Users.{Users, get_value_of_password}
use drogon_api_starter.Controllers.Base.{Response}
use drogon_api_starter.Auth.{JwtLib, answer_users, login, login_answers, async_handle_http_request}

too_many : (n : ℕ) → suc (suc n) ≤ 1 → ⊥
too_many n h = omega (arith, h)

module _ (P : Platform) (jwt : JwtLib) (now : ℕ) (values : Values) where
  -- Whether a list has a user whose password this is.
  abbrev pub is_known : String → List (Users P.Date) → Bool
  is_known password [] = false
  is_known password (user ∷ users) = P.validate_password password (get_value_of_password user)

  login_answers-once :
      (email password : String) (users : List (Users P.Date))
      → length users ≤ 1
      → (r : Response P.json.Value) × (login_answers P jwt now values email password users ≡ r ∷ [])
        × (r.status ≡ (if is_known password users then 200 else 401))
  unfolding answer_users
  login_answers-once email password [] h = (_, refl, refl)
  login_answers-once email password (user ∷ []) h =
      elim (Bool-cases (P.validate_password password (get_value_of_password user))) [
        | inl e ↦ rw e (_, refl, refl)
        | inr e ↦ rw e (_, refl, refl)
      ]
  login_answers-once email password (user ∷ other ∷ users) h = elim (too_many (length users) h) [ ]

  login-answers :
      (body : P.json.Value) (email password : String) (users : List (Users P.Date)) (db db' : P.Db)
      → HasText P.json body "email" email
      → HasText P.json body "password" password
      → P.find_users_by "email" email db ≡ (ok users, db')
      → login P jwt now values body db
        ≡ (ok (login_answers P jwt now values email password users), db')
  unfolding login
  login-answers body email password users db db' has has' found =
      rw
        (
          text_at-eq P.json body "email" email has,
          text_at-eq P.json body "password" password has',
          found,
        )
        refl

  -- A body with an email and a password is answered once, where the query finds one user of that
  -- email or none: with 200 if the password is that user's, and with 401 otherwise.
  pub login-once :
      (body : P.json.Value) (email password : String) (users : List (Users P.Date)) (db db' : P.Db)
      → HasText P.json body "email" email
      → HasText P.json body "password" password
      → P.find_users_by "email" email db ≡ (ok users, db')
      → length users ≤ 1
      → (r : Response P.json.Value) × (async_handle_http_request P jwt now values true
            (some body)
            db
          ≡ (ok (r ∷ []), db'))
        × (r.status ≡ (if is_known password users then 200 else 401))
  unfolding async_handle_http_request
  login-once body email password users db db' (v, at, string, read) (v', at', string', read') found
        h =
      let (r, answers, status) = login_answers-once email password users h in
      (
        r,
        rw (at, string, at', string')
            (login-answers body email password users db db' (v, at, string, read)
                (v', at', string', read') found
              ∙ ap (λ rs. (ok rs, db')) answers),
        status,
      )
