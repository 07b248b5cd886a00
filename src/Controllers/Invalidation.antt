-- ===== src/Controllers/Invalidation.antt =====
-- controllers/: what the writing handlers have in common: a query on the database, then `erasePrefix`,
-- then the response, or what the handlers of its exceptions answer.
use text.Mathlib.TextLemmas.{append_assoc}
use drogon_api_starter.Prelude.{◌≡◌, refl, sym, ap, ◌∙◌, String, true, false, none, ltb}
use drogon_api_starter.Prelude.Dict.{is_some}
use drogon_api_starter.Text.{◌++◌, strip_prefix, strip_prefix-append}
use drogon_api_starter.Text.Number.{to_string}
use drogon_api_starter.Result.{Exception, invalid_argument, std_exception, foreign, Result, ok, err}
use drogon_api_starter.Action.{
  Action, done, continue, handled, on_invalid_argument, on_std_exception, ok-injective, err-ne-ok,
  ◌>>=◌,
}
use drogon_api_starter.Cache.{get, erase_prefix}
use drogon_api_starter.Cache.Pattern.{is_plain}
use drogon_api_starter.Cache.Store.{Store, begins, get-erase_prefix}
use drogon_api_starter.Pagination.{PageRequest, cache_key}
use drogon_api_starter.Platform.{Platform, World, on_redis}
use drogon_api_starter.Controllers.Base.{Response}

-- The key of every page of a resource begins with the resource and a colon.
pub begins-cache_key :
    (request : PageRequest)
    → (begins "users:" (cache_key request "users") ≡ true)
      × (begins "roles:" (cache_key request "roles") ≡ true)
unfolding cache_key
begins-cache_key request =
    let rest = to_string request.page ++ (":size=" ++ to_string request.page_size) in
    (
      ap is_some (
          ap (strip_prefix "users:")
            (sym (append_assoc "users" ":page=" rest) ∙ append_assoc "users:" "page=" rest)
          ∙ strip_prefix-append "users:" ("page=" ++ rest)),
      ap is_some (
          ap (strip_prefix "roles:")
            (sym (append_assoc "roles" ":page=" rest) ∙ append_assoc "roles:" "page=" rest)
          ∙ strip_prefix-append "roles:" ("page=" ++ rest)),
    )

module _ (P : Platform) (store : Store P.redis) (prefix : String)
    (plain : is_plain prefix ≡ true) where
  abbrev Answer : Type 0
  Answer = Response P.json.Value

  abbrev erased : Answer → Action (World P) Answer
  erased answer = on_redis (erase_prefix P.redis true prefix) >>= λ _. done answer

  -- After it, the cache has nothing for a key that begins with the prefix.
  pub erased-get :
      (answer : Answer) (w : World P) (key : String)
      → begins prefix key ≡ true
      → (left : P.redis.Redis) × (erased answer w ≡ (ok answer, record w { redis = left }))
        × (get P.redis true key left ≡ (ok none, left))
  erased-get answer w key begin =
      let (left, erase, gone) = get-erase_prefix P.redis store prefix key w.redis plain in
      (left, rw erase refl, gone ∙ rw begin refl)

  pub erased-answers :
      (answer r : Answer) (w w' : World P) (key : String)
      (handlers : Exception → Action (World P) Answer)
      → handled handlers (erased answer w) ≡ (ok r, w')
      → begins prefix key ≡ true
      → get P.redis true key w'.redis ≡ (ok none, w'.redis)
  erased-answers answer r w w' key handlers h begin =
      let (left, done_with, gone) = erased-get answer w key begin in
      let (_, world) = ok-injective (ap (handled handlers) (sym done_with) ∙ h) in
      rw (sym world) gone

  pub invalidated :
      {A : Type 0} (m : Result A × World P) (answer : A → Answer) (bad other r : Answer)
      (w' : World P) (key : String)
      → ltb bad.status 300 ≡ false
      → ltb other.status 300 ≡ false
      → handled
          (on_invalid_argument (λ _. done bad) (on_std_exception (done other)))
          (continue (λ a. erased (answer a)) m)
        ≡ (ok r, w')
      → ltb r.status 300 ≡ true
      → begins prefix key ≡ true
      → get P.redis true key w'.redis ≡ (ok none, w'.redis)
  invalidated (ok a, w) answer bad other r w' key h₁ h₂ h status begin =
      erased-answers (answer a) r w w' key _ h begin
  invalidated (err (invalid_argument what), w) answer bad other r w' key h₁ h₂ h status begin =
      let (same, _) = ok-injective h in
      let clash = sym h₁ ∙ ap (λ a. ltb a.status 300) same ∙ status in cc
  invalidated (err (std_exception what), w) answer bad other r w' key h₁ h₂ h status begin =
      let (same, _) = ok-injective h in
      let clash = sym h₂ ∙ ap (λ a. ltb a.status 300) same ∙ status in cc
  invalidated (err foreign, w) answer bad other r w' key h₁ h₂ h status begin =
      elim (err-ne-ok h) [ ]
