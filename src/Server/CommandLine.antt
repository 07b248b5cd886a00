-- ===== src/Server/CommandLine.antt =====
-- main.cc: `main`, with findEnvFile of config/AppConfig.cc. The file system and the configuration
-- of the build are parameters; a task that `main` starts is named by the function that it calls.
use Prim.Native.String as Native
use text.Mathlib.TextLemmas.{nil-append, cons-append}
use drogon_api_starter.Prelude.{
  String, ℕ, ◌≡◌, ◌↔◌, refl, sym, ap, ◌∙◌, ◌⊎◌, inl, inr, Bool, true, false, List, [], ◌∷◌, Option,
  none, some, if◌then◌else◌, str_eq, eq_iff, Bool-cases,
}
use drogon_api_starter.Text.{◌++◌, is_empty, split_at, split_at-eq}
use drogon_api_starter.Result.{
  Exception, invalid_argument, std_exception, foreign, is_std_exception, Result, ok, err, ◌>>=◌,
}

pub record FileSystem : Type 1 where
  pub FilePath : Type 0
  pub current_path : Result FilePath
  pub parent_path : FilePath → FilePath
  pub join : FilePath → String → FilePath
  pub to_text : FilePath → String
  pub is_regular_file : FilePath → Result Bool

module _ (files : FileSystem) where
  abbrev none_found : files.FilePath → files.FilePath → Result files.FilePath
  none_found first second = err (
      std_exception
        ("Failed to find .env in " ++ (files.to_text first ++ (" or " ++ files.to_text second))))

  -- The loop over the candidates.
  unfoldable pub first_file : List files.FilePath → Result files.FilePath → Result files.FilePath
  first_file [] missing = missing
  first_file (candidate ∷ candidates) missing =
      let rest = first_file candidates missing in
      files.is_regular_file candidate >>= λ found. if found then ok candidate else rest

  unfoldable pub find_env_file : Result files.FilePath
  unfolding first_file
  find_env_file = files.current_path >>= λ directory.
      let here = files.join directory ".env" in
      let above = files.join (files.parent_path directory) ".env" in
      first_file (here ∷ above ∷ []) (none_found here above)

-- What a run of the program comes to: its exit code, or the task that it calls before it returns 0,
-- or an exception that nothing catches.
pub data Task : Type 0 where
  run_server create_tables drop_tables : Task

pub data Ending : Type 0 where
  exits : ℕ → Ending
  performs : Task → Ending
  terminates : Ending

performs-injective : {u t : Task} → performs u ≡ performs t → u ≡ t
performs-injective h = cc

exits-ne-performs : {n : ℕ} {t : Task} → exits n ≡ performs t → ⊥
exits-ne-performs h = cc

joined : (value : String) → "=" ++ value ≡ Native.◌∷◌ "=" value
joined value = rw (cons-append, nil-append) refl

module _ (user_service : Bool) where
  abbrev perform_value : String → Ending
  perform_value value =
      if str_eq value "run-server"
      then performs run_server
      else if user_service
      then (if str_eq value "create-tables"
          then performs create_tables
          else if str_eq value "drop-tables"
          then performs drop_tables
          else exits 1)
      else exits 1

  abbrev perform : Option (String × String) → Ending
  perform none = exits 1
  perform (some (key, value)) =
      if is_empty value
      then exits 1
      else if str_eq key "--action"
      then perform_value value
      else exits 1

  -- After the configuration, with the arguments after the program's name.
  abbrev pub with_arguments : List String → Ending
  with_arguments (action ∷ []) = perform (split_at b'=' action)
  with_arguments [] = exits 1
  with_arguments (first ∷ second ∷ rest) = exits 1

  -- `main`: the `catch (const exception &)` takes what finding and loading the configuration throw.
  unfoldable pub main : {A : Type 0} → Result A → List String → Ending
  main (ok configuration) arguments = with_arguments arguments
  main (err (invalid_argument what)) arguments = exits 1
  main (err (std_exception what)) arguments = exits 1
  main (err foreign) arguments = terminates

  -- The argument that asks for a task, where the build has it.
  abbrev pub argument_of : Task → String
  argument_of run_server = "--action=run-server"
  argument_of create_tables = "--action=create-tables"
  argument_of drop_tables = "--action=drop-tables"

  abbrev pub is_built : Task → Bool
  is_built run_server = true
  is_built create_tables = user_service
  is_built drop_tables = user_service

  abbrev value_of : Task → String
  value_of run_server = "run-server"
  value_of create_tables = "create-tables"
  value_of drop_tables = "drop-tables"

  written_out : (t : Task) → "--action" ++ ("=" ++ value_of t) ≡ argument_of t
  written_out run_server = refl
  written_out create_tables = refl
  written_out drop_tables = refl

  started :
      (u t : Task) (value : String)
      → value ≡ value_of u
      → is_built u ≡ true
      → performs u ≡ performs t
      → (value ≡ value_of t) × (is_built t ≡ true)
  started u t value same built h =
      let task : u ≡ t = performs-injective h in
      (same ∙ ap value_of task, sym (ap is_built task) ∙ built)

  perform_value-performs :
      (value : String) (t : Task)
      → perform_value value ≡ performs t
      → (value ≡ value_of t) × (is_built t ≡ true)
  perform_value-performs value t h = elim (Bool-cases (str_eq value "run-server")) [
    | inl e ↦ started run_server t value ((eq_iff value "run-server").0 e) refl (rw e at h)
    | inr e ↦ elim (Bool-cases user_service) [
      | inl built ↦ elim (Bool-cases (str_eq value "create-tables")) [
        | inl c ↦
            started create_tables t value ((eq_iff value "create-tables").0 c) built
              (rw (e, built, c) at h)
        | inr c ↦ elim (Bool-cases (str_eq value "drop-tables")) [
          | inl d ↦
              started drop_tables t value ((eq_iff value "drop-tables").0 d) built
                (rw (e, built, c, d) at h)
          | inr d ↦ absurd (exits-ne-performs (rw (e, built, c, d) at h))
        ]
      ]
      | inr bare ↦ absurd (exits-ne-performs (rw (e, bare) at h))
    ]
  ]

  performed :
      (key value : String) (t : Task)
      → perform (some (key, value)) ≡ performs t
      → (key ++ ("=" ++ value) ≡ argument_of t) × (is_built t ≡ true)
  performed key value t h = elim (Bool-cases (is_empty value)) [
    | inl e ↦ absurd (exits-ne-performs (rw e at h))
    | inr e ↦ elim (Bool-cases (str_eq key "--action")) [
      | inl k ↦
          let (same, built) = perform_value-performs value t (rw (e, k) at h) in
          (rw ((eq_iff key "--action").0 k, same) (written_out t), built)
      | inr k ↦ absurd (exits-ne-performs (rw (e, k) at h))
    ]
  ]

  performs_argument :
      (t : Task) → is_built t ≡ true → perform (split_at b'=' (argument_of t)) ≡ performs t
  unfolding split_at
  performs_argument run_server built = refl
  performs_argument create_tables built = rw built refl
  performs_argument drop_tables built = rw built refl

  split_performs :
      (action : String) (t : Task) (split : Option (String × String))
      → split_at b'=' action ≡ split
      → perform split ≡ performs t
      → (action ≡ argument_of t) × (is_built t ≡ true)
  split_performs action t none found h = absurd (exits-ne-performs h)
  split_performs action t (some (key, value)) found h =
      let (same, built) = performed key value t h in
      (split_at-eq "=" action found ∙ ap (λ rest. key ++ rest) (sym (joined value)) ∙ same, built)

  starts :
      {A : Type 0} (configuration : A) (arguments : List String) (t : Task)
      → main (ok configuration) arguments ≡ performs t
      → (arguments ≡ argument_of t ∷ []) × (is_built t ≡ true)
  unfolding main
  starts configuration [] t h = absurd (exits-ne-performs h)
  starts configuration (first ∷ second ∷ rest) t h = absurd (exits-ne-performs h)
  starts configuration (action ∷ []) t h =
      let (same, built) = split_performs action t (split_at b'=' action) refl h in
      (ap (λ a. a ∷ []) same, built)

  abbrev IsDecided : Ending → Type 0
  IsDecided e = (e ≡ exits 1) ⊎ ((t : Task) × (e ≡ performs t))

  if-IsDecided :
      (b : Bool) {x y : Ending} → IsDecided x → IsDecided y → IsDecided (if b then x else y)
  if-IsDecided true hx hy = hx
  if-IsDecided false hx hy = hy

  perform-IsDecided : (split : Option (String × String)) → IsDecided (perform split)
  perform-IsDecided none = inl refl
  perform-IsDecided (some (key, value)) = if-IsDecided (is_empty value) (inl refl) (
      if-IsDecided (str_eq key "--action")
        (if-IsDecided (str_eq value "run-server") (inr (run_server, refl)) (
          if-IsDecided user_service
            (if-IsDecided (str_eq value "create-tables") (inr (create_tables, refl))
              (if-IsDecided (str_eq value "drop-tables") (inr (drop_tables, refl)) (inl refl)))
            (inl refl)))
        (inl refl))

  with_arguments-IsDecided : (arguments : List String) → IsDecided (with_arguments arguments)
  with_arguments-IsDecided [] = inl refl
  with_arguments-IsDecided (action ∷ []) = perform-IsDecided (split_at b'=' action)
  with_arguments-IsDecided (first ∷ second ∷ rest) = inl refl

  main-failed :
      (A : Type 0) (arguments : List String) (e : Exception)
      → is_std_exception e ≡ true
      → main {A = A} (err e) arguments ≡ exits 1
  unfolding main
  main-failed A arguments (invalid_argument what) h = refl
  main-failed A arguments (std_exception what) h = refl
  main-failed A arguments foreign h = absurd (cc)

  -- With a configuration that loads, main.cc starts a task exactly if its one argument asks for
  -- that task and the build has it, and exits with 1 where it starts none. Where finding or loading
  -- the configuration throws below std::exception, it exits with 1 whatever its arguments are.
  pub main-cases :
      {A : Type 0} (configuration : A) (arguments : List String)
      → ((t : Task)
          → (main (ok configuration) arguments ≡ performs t)
            ↔ ((arguments ≡ argument_of t ∷ []) × (is_built t ≡ true)))
        × ((main (ok configuration) arguments ≡ exits 1)
            ⊎ ((t : Task) × (main (ok configuration) arguments ≡ performs t)))
        × ((e : Exception) → is_std_exception e ≡ true → main {A = A} (err e) arguments ≡ exits 1)
  unfolding main
  main-cases {A} configuration arguments = (
    λ t. (starts configuration arguments t, λ (same, built). rw same (performs_argument t built)),
    with_arguments-IsDecided arguments,
    main-failed A arguments,
  )
