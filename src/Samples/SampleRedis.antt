-- ===== src/Samples/SampleRedis.antt =====
-- A Redis that is a list of keys with their values and answers every command.
use drogon_api_starter.Prelude.{
  ◌≡◌, refl, String, true, ◌&&◌, none, some, List, [], ◌∷◌, arith, if◌then◌else◌, str_eq, eq_iff,
}
use drogon_api_starter.Prelude.Dict.{lookup, insert, lookup-insert, is_some}
use drogon_api_starter.Result.{std_exception, ok, err}
use drogon_api_starter.Cache.{RedisLib}
use drogon_api_starter.Cache.Laws.{ThrowsStd}
use drogon_api_starter.Cache.Store.{Store, listed, begins}

abbrev pub Entries : Type 0
Entries = List (String × String)

unfoldable pub remove : String → Entries → Entries
remove key [] = []
remove key ((k, v) ∷ m) = if str_eq k key then remove key m else (k, v) ∷ remove key m

unfoldable pub names : String → Entries → List String
names prefix [] = []
names prefix ((k, v) ∷ m) = if begins prefix k then k ∷ names prefix m else names prefix m

abbrev pub redis : RedisLib
redis = record {
  Redis = Entries;
  get_client = λ r. ok true;
  get_command = λ key r. (ok (lookup key r), r);
  setex_command = λ key seconds value r. (ok tt, insert key value r);
  del_command = λ key r. (ok tt, remove key r);
  keys_command = λ prefix r. (ok (names prefix r), r);
}

-- A Redis that is down: it has a client, and every command throws.
abbrev pub down : RedisLib
down = record {
  Redis = Entries;
  get_client = λ r. ok true;
  get_command = λ key r. (err (std_exception "connection refused"), r);
  setex_command = λ key seconds value r. (err (std_exception "connection refused"), r);
  del_command = λ key r. (err (std_exception "connection refused"), r);
  keys_command = λ prefix r. (err (std_exception "connection refused"), r);
}

pub down-ThrowsStd : ThrowsStd down
down-ThrowsStd = record {
  get_client-std = λ r. tt;
  get-std = λ key r. refl;
  setex-std = λ key seconds value r. refl;
  del-std = λ key r. refl;
  keys-std = λ prefix r. refl;
}

lookup-insert_if :
    (key value j : String) (r : Entries)
    → lookup j (insert key value r) ≡ (if str_eq key j then some value else lookup j r)
lookup-insert_if key value j r = ground (arith, lookup-insert key j value r)

lookup-remove :
    (key j : String) (r : Entries)
    → lookup j (remove key r) ≡ (if str_eq key j then none else lookup j r)
unfolding lookup remove
lookup-remove key j [] = ground arith
lookup-remove key j ((k, v) ∷ m) =
    ground (arith, eq_iff key j, eq_iff k key, eq_iff k j, lookup-remove key j m)

listed-names :
    (prefix j : String) (r : Entries)
    → listed j (names prefix r) ≡ (begins prefix j && is_some (lookup j r))
unfolding lookup names
listed-names prefix j [] = ground arith
listed-names prefix j ((k, v) ∷ m) = ground (arith, eq_iff k j, listed-names prefix j m)

pub store : Store redis
store = record {
  value_at = λ r key. lookup key r;
  after_set = insert;
  after_del = remove;
  names = names;
  client-eq = λ r. refl;
  get-eq = λ key r. refl;
  setex-eq = λ key seconds value r. refl;
  del-eq = λ key r. refl;
  keys-eq = λ prefix r. refl;
  value_at-after_set = lookup-insert_if;
  value_at-after_del = lookup-remove;
  listed-names = λ prefix j r plain. listed-names prefix j r;
}
