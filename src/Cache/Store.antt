-- ===== src/Cache/Store.antt =====
-- cache/RedisCache.cc over a Redis that answers: what is read after a write and after an
-- invalidation.
use drogon_api_starter.Prelude.{
  ℕ, ◌≡◌, refl, ap, String, Bool, true, false, ◌&&◌, ◌||◌, Option, none, some, List, [], ◌∷◌,
  if◌then◌else◌, arith, str_eq,
}
use drogon_api_starter.Prelude.Dict.{is_some}
use drogon_api_starter.Text.{is_empty, strip_prefix}
use drogon_api_starter.Result.{ok}
use drogon_api_starter.Cache.Pattern.{is_plain}
use drogon_api_starter.Cache.{
  RedisLib, unless_empty, text_of, client, get, set, erase, erase_all, erase_prefix,
}

abbrev pub listed : String → List String → Bool
listed key [] = false
listed key (k ∷ ks) = str_eq k key || listed key ks

abbrev pub begins : String → String → Bool
begins prefix key = is_some (strip_prefix prefix key)

-- A Redis that answers as documented: `value_at` is what it holds, before a time to live runs out.
pub record Store (lib : RedisLib) : Type 0 where
  pub value_at : lib.Redis → String → Option String
  pub after_set : String → String → lib.Redis → lib.Redis
  pub after_del : String → lib.Redis → lib.Redis
  pub names : String → lib.Redis → List String
  pub client-eq : (r : lib.Redis) → lib.get_client r ≡ ok true
  pub get-eq : (key : String) (r : lib.Redis) → lib.get_command key r ≡ (ok (value_at r key), r)
  pub setex-eq :
      (key : String) (seconds : ℕ) (value : String) (r : lib.Redis)
      → lib.setex_command key seconds value r ≡ (ok tt, after_set key value r)
  pub del-eq : (key : String) (r : lib.Redis) → lib.del_command key r ≡ (ok tt, after_del key r)
  pub keys-eq :
      (prefix : String) (r : lib.Redis) → lib.keys_command prefix r ≡ (ok (names prefix r), r)
  pub value_at-after_set :
      (key value j : String) (r : lib.Redis)
      → value_at (after_set key value r) j ≡ (if str_eq key j then some value else value_at r j)
  pub value_at-after_del :
      (key j : String) (r : lib.Redis)
      → value_at (after_del key r) j ≡ (if str_eq key j then none else value_at r j)
  pub listed-names :
      (prefix j : String) (r : lib.Redis)
      → is_plain prefix ≡ true
      → listed j (names prefix r) ≡ (begins prefix j && is_some (value_at r j))

abbrev pub found : Option String → Option String
found none = none
found (some s) = if is_empty s then none else some s

found-eq : (o : Option String) → unless_empty (text_of o) ≡ found o
found-eq none = refl
found-eq (some s) = refl

module _ (lib : RedisLib) (store : Store lib) where
  client-true : (r : lib.Redis) → client lib true r ≡ (ok true, r)
  unfolding client
  client-true r = rw (store.client-eq r) refl

  pub get-value_at :
      (key : String) (r : lib.Redis) → get lib true key r ≡ (ok (found (store.value_at r key)), r)
  unfolding get
  get-value_at key r =
      rw (client-true r, store.get-eq key r) (ap (λ o. (ok o, r)) (found-eq (store.value_at r key)))

  pub set-after_set :
      (key value : String) (seconds : ℕ) (r : lib.Redis)
      → set lib true key value seconds r ≡ (ok tt, store.after_set key value r)
  unfolding set
  set-after_set key value seconds r = rw (client-true r, store.setex-eq key seconds value r) refl

  pub erase-after_del :
      (key : String) (r : lib.Redis) → erase lib true key r ≡ (ok tt, store.after_del key r)
  unfolding erase
  erase-after_del key r = rw (client-true r, store.del-eq key r) refl

  unfoldable pub after_all : List String → lib.Redis → lib.Redis
  after_all [] r = r
  after_all (key ∷ keys) r = after_all keys (store.after_del key r)

  erase_all-after_all :
      (keys : List String) (r : lib.Redis) → erase_all lib true keys r ≡ (ok tt, after_all keys r)
  unfolding erase_all after_all
  erase_all-after_all [] r = refl
  erase_all-after_all (key ∷ keys) r =
      rw (erase-after_del key r) (erase_all-after_all keys (store.after_del key r))

  value_at-after_all :
      (keys : List String) (j : String) (r : lib.Redis)
      → store.value_at (after_all keys r) j ≡ (if listed j keys then none else store.value_at r j)
  unfolding after_all
  value_at-after_all [] j r = refl
  value_at-after_all (key ∷ keys) j r =
      rw (value_at-after_all keys j (store.after_del key r), store.value_at-after_del key j r)
        (ground arith)

  pub erase_prefix-after_all :
      (prefix : String) (r : lib.Redis)
      → erase_prefix lib true prefix r ≡ (ok tt, after_all (store.names prefix r) r)
  unfolding erase_prefix
  erase_prefix-after_all prefix r =
      rw (client-true r, store.keys-eq prefix r, erase_all-after_all (store.names prefix r) r) refl

  -- What the cache of cache/RedisCache.cc gives for a key after `set` is the value that was set, or
  -- nothing where that is the empty text; another key's value stays.
  pub get-set :
      (key j value : String) (ttl_seconds : ℕ) (r : lib.Redis)
      → (r' : lib.Redis) × (set lib true key value ttl_seconds r ≡ (ok tt, r'))
        × (get lib true j r'
            ≡ (ok (if str_eq key j then found (some value) else found (store.value_at r j)), r'))
  get-set key j value ttl_seconds r = (
    store.after_set key value r,
    set-after_set key value ttl_seconds r,
    rw (get-value_at j (store.after_set key value r), store.value_at-after_set key value j r)
        (ground arith),
  )

  -- After `erasePrefix` of cache/RedisCache.cc, with a prefix that has none of the characters that
  -- a pattern of KEYS gives a meaning, the cache gives nothing for a key that begins with the
  -- prefix, and for every other key what it gave before.
  pub get-erase_prefix :
      (prefix j : String) (r : lib.Redis)
      → is_plain prefix ≡ true
      → (r' : lib.Redis) × (erase_prefix lib true prefix r ≡ (ok tt, r'))
        × (get lib true j r'
            ≡ (ok (if begins prefix j then none else found (store.value_at r j)), r'))
  get-erase_prefix prefix j r plain = (
    after_all (store.names prefix r) r,
    erase_prefix-after_all prefix r,
    rw
        (
          get-value_at j (after_all (store.names prefix r) r),
          value_at-after_all (store.names prefix r) j r,
          store.listed-names prefix j r plain,
        )
        (ground arith),
  )
