-- ===== src/Batch/Reading.antt =====
-- The blocks of `readConfiguration` that read an option each, where the options are there.
use Prim.Native.String.{◌++◌ as ◌<>◌}
use simcrs.Base.{
  append_assoc, append-nil, String, Bool, true, false, none, some, List, [], ◌∷◌, ◌++◌, ◌≡◌, refl,
  sym, ap, ◌∙◌, Bool-cases, inl, inr,
}
use simcrs.Calls.{replies}
use simcrs.Exec.{ok, Exec, ◌>>=◌}
use simcrs.Batch.Options.{
  Setting, schedule, ond, frat5, ff_disutility, yield, fare, log, user, passwd, host, port, dbname,
  name, ProgramOptions,
}
use simcrs.Batch.Assignment.{assign-settled}
use simcrs.Batch.Configuration.{
  Console, Settings, assign, is_positive, Configuration, read_file, read_parameter, read_files,
  read_parameters, read_settings,
}

-- The console after some lines of output, and nothing else.
abbrev pub written : Console → List String → Console
written k lines = record k { output = k.output ++ lines }

-- From `k`, `m` writes the lines and ends with settings that are `x`.
Yields : Settings → Console → List String → Exec Console Settings → Type 0
Yields x k lines m = (y : Settings) × (m k ≡ (ok y, written k lines)) × ((s : Setting) → y s ≡ x s)

-- What is written for the input files.
abbrev files_report : Settings → List String
files_report x =
    ("Schedule input filename is: " <> x schedule)
    ∷ ("O&D input filename is: " <> x ond)
    ∷ ("FRAT5 input filename is: " <> x frat5)
    ∷ ("FF disutility input filename is: " <> x ff_disutility)
    ∷ ("Yield input filename is: " <> x yield)
    ∷ ("Fare input filename is: " <> x fare)
    ∷ []

-- What is written for the other parameters, of which the password is none.
abbrev parameters_report : Settings → List String
parameters_report x =
    ("Log filename is: " <> x log)
    ∷ ("SQL database user name is: " <> x user)
    ∷ ("SQL database host name is: " <> x host)
    ∷ ("SQL database port number is: " <> x port)
    ∷ ("SQL database name is: " <> x dbname)
    ∷ []

abbrev pub report : Bool → Settings → List String
report true x = "The BOM should be built-in? yes" ∷ parameters_report x
report false x = "The BOM should be built-in? no" ∷ files_report x ++ parameters_report x

-- From `k`, `m` writes the report of `x` and nothing to the errors, and ends with status 0, settings
-- that are `x` and a flag that is `builtin`.
abbrev pub Configured : Settings → Bool → Console → Exec Console Configuration → Type 0
Configured x builtin k m =
    (c : Configuration) × (m k ≡ (ok c, written k (report builtin x)))
    × (c.status ≡ 0)
    × (c.is_builtin ≡ builtin)
    × ((s : Setting) → c.settings s ≡ x s)

written-written :
    (k : Console) (lines more : List String)
    → written (written k lines) more ≡ written k (lines ++ more)
written-written k lines more = ap (λ o. record k { output = o }) (append_assoc k.output lines more)

Yields-bind :
    (x : Settings) (k : Console) (lines more : List String) (m : Exec Console Settings)
    (f : Settings → Exec Console Settings)
    → Yields x k lines m
    → ((y : Settings) → ((s : Setting) → y s ≡ x s) → Yields x (written k lines) more (f y))
    → Yields x k (lines ++ more) (m >>= f)
unfolding Yields ◌>>=◌
Yields-bind x k lines more m f (y, e, v) g =
    let (z, e', v') = g y v in
    (z, rw e (e' ∙ ap (λ c. (ok z, c)) (written-written k lines more)), v')

module _ (boost : ProgramOptions) (x : Settings) (vm : boost.VariablesMap) where
  -- An option that is in the map, once, with its variable's final value.
  pub record Holds (s : Setting) : Type 0 where
    pub counted : boost.count vm (name s) ≡ 1
    pub valued : boost.as_string vm (name s) ≡ replies (x s)

  module _ (s : Setting) (h : Holds s) {y : Settings} (v : (t : Setting) → y t ≡ x t)
      (k : Console) where
    read_file-Yields :
        (label : String) → Yields x k ((label <> x s) ∷ []) (read_file boost vm s label y)
    unfolding Yields read_file ◌>>=◌
    read_file-Yields label = (
      assign s (x s) y,
      rw (h.counted, h.valued) refl,
      λ t. assign-settled x y s t (x s) refl (v t),
    )

    read_parameter-Yields :
        (label : String)
        → Yields x k ((label <> x s) ∷ []) (read_parameter boost vm s (some label) y)
    unfolding Yields read_parameter ◌>>=◌
    read_parameter-Yields label = (
      assign s (x s) y,
      rw (h.counted, h.valued) refl,
      λ t. assign-settled x y s t (x s) refl (v t),
    )

    read_silently-Yields : Yields x k [] (read_parameter boost vm s none y)
    unfolding Yields read_parameter ◌>>=◌
    read_silently-Yields = (
      assign s (x s) y,
      rw (h.counted, h.valued)
          (ap (λ o. (ok (assign s (x s) y), record k { output = o })) (sym (append-nil k.output))),
      λ t. assign-settled x y s t (x s) refl (v t),
    )

  module _ (h : (s : Setting) → Holds s) where
    read_files-Yields :
        {y : Settings}
        → ((t : Setting) → y t ≡ x t)
        → (k : Console) → Yields x k (files_report x) (read_files boost vm y)
    unfolding read_files
    read_files-Yields v k =
        Yields-bind x k _ _ _ _ (read_file-Yields schedule (h schedule) v k _) λ y v.
          Yields-bind x _ _ _ _ _ (read_file-Yields ond (h ond) v _ _) λ y v.
            Yields-bind x _ _ _ _ _ (read_file-Yields frat5 (h frat5) v _ _) λ y v.
              Yields-bind x _ _ _ _ _ (read_file-Yields ff_disutility (h ff_disutility) v _ _)
                λ y v.
                  Yields-bind x _ _ _ _ _ (read_file-Yields yield (h yield) v _ _)
                    λ y v. read_file-Yields fare (h fare) v _ _

    read_parameters-Yields :
        {y : Settings}
        → ((t : Setting) → y t ≡ x t)
        → (k : Console) → Yields x k (parameters_report x) (read_parameters boost vm y)
    unfolding read_parameters
    read_parameters-Yields v k =
        Yields-bind x k _ _ _ _ (read_parameter-Yields log (h log) v k _) λ y v.
          Yields-bind x _ _ _ _ _ (read_parameter-Yields user (h user) v _ _) λ y v.
            Yields-bind x _ _ _ _ _ (read_silently-Yields passwd (h passwd) v _) λ y v.
              Yields-bind x _ _ _ _ _ (read_parameter-Yields host (h host) v _ _) λ y v.
                Yields-bind x _ _ _ _ _ (read_parameter-Yields port (h port) v _ _)
                  λ y v. read_parameter-Yields dbname (h dbname) v _ _

    abbrev reached : Bool → Settings → Configuration
    reached b y = record { status = 0; is_builtin = b; settings = y }

    pub read_settings-Configured :
        {y : Settings}
        → ((t : Setting) → y t ≡ x t)
        → (k : Console)
        → Configured x (is_positive (boost.count vm "builtin")) k (read_settings boost vm y)
    unfolding read_settings Yields ◌>>=◌
    read_settings-Configured v k = elim (Bool-cases (is_positive (boost.count vm "builtin"))) [
      | inl e ↦
          let (z, ended, w) =
            read_parameters-Yields v (written k ("The BOM should be built-in? yes" ∷ [])) in
          rw e (
            reached true z,
            rw ended (ap (λ c. (ok (reached true z), c)) (written-written k _ _)),
            refl,
            refl,
            w,
          )
      | inr e ↦
          let k' = written k ("The BOM should be built-in? no" ∷ []) in
          let (y', between, v') = read_files-Yields v k' in
          let (z, ended, w) = read_parameters-Yields v' (written k' (files_report x)) in
          rw e (
            reached false z,
            rw (between, ended)
                (ap (λ c. (ok (reached false z), c))
                  (written-written k' _ _ ∙ written-written k _ _)),
            refl,
            refl,
            w,
          )
    ]
