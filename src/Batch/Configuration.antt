-- ===== src/Batch/Configuration.antt =====
-- `readConfiguration` of simcrs/batches/simcrs.cpp, on the two standard streams.
use Prim.Native.String.{◌++◌ as ◌<>◌}
use simcrs.Base.{
  ℕ, String, Bool, true, false, Option, none, some, List, [], ◌∷◌, ◌++◌, ◌==◌, if◌then◌else◌,
}
use simcrs.Exec.{from_answer, Exec, pure, lift, modify, ◌>>=◌, ◌>>◌}
use simcrs.Batch.Options.{
  Build, Setting, schedule, ond, frat5, ff_disutility, yield, fare, log, user, passwd, host, port,
  dbname, name, Kind, value_of, OptionSpec, config_options, cmdline_options, config_file_options,
  visible_options, ProgramOptions,
}

-- `std::cout` and `std::cerr`, by what was written.
pub record Console : Type 0 where
  pub output : List String
  pub errors : List String

unfoldable pub say : String → Exec Console (Unit {0})
say line = modify (λ k. record k { output = k.output ++ (line ∷ []) })

unfoldable pub complain : String → Exec Console (Unit {0})
complain line = modify (λ k. record k { errors = k.errors ++ (line ∷ []) })

abbrev pub index : Setting → ℕ
index schedule = 0
index ond = 1
index frat5 = 2
index ff_disutility = 3
index yield = 4
index fare = 5
index log = 6
index user = 7
index passwd = 8
index host = 9
index port = 10
index dbname = 11

abbrev pub same : Setting → Setting → Bool
same s t = index s == index t

-- The values of the variables.
abbrev pub Settings : Type 0
Settings = Setting → String

abbrev pub assign : Setting → String → Settings → Settings
assign s v x t = if same s t then v else x t

-- The variables as `main` declares them.
abbrev pub unset : Settings
unset s = ""

-- A value goes to the variable of its option.
abbrev pub assign_value : Kind → Option String → Settings → Settings
assign_value (value_of s d) (some v) x = assign s v x
assign_value _ _ x = x

-- Each option's value goes to its variable.
unfoldable pub assign_all : (String → Option String) → List OptionSpec → Settings → Settings
assign_all values [] x = x
assign_all values (o ∷ os) x = assign_all values os (assign_value o.kind (values o.long) x)

abbrev pub is_positive : ℕ → Bool
is_positive n = if n == 0 then false else true

pub record Configuration : Type 0 where
  pub status : ℕ
  pub is_builtin : Bool
  pub settings : Settings

abbrev pub early_return_status : ℕ
early_return_status = 99

abbrev pub default_is_builtin : Bool
default_is_builtin = false

abbrev error_message : String
error_message =
    "Either the -b/--builtin option, or the combination of the -s/--schedule, -o/--ond, -f/--fare "
    <> "and -y/--yield options must be specified"

module _ (boost : ProgramOptions) where
  module _ (build : Build) (vm : boost.VariablesMap) where
    -- What is printed before an early return, by the first of the three options that is there.
    unfoldable pub early_output : Option String
    unfolding visible_options
    early_output =
        if is_positive (boost.count vm "help")
        then some (boost.print (visible_options build))
        else if is_positive (boost.count vm "version")
        then some (build.package_name <> ", version " <> build.package_version)
        else if is_positive (boost.count vm "prefix")
        then some ("Installation prefix: " <> build.prefix_dir)
        else none

  module _ (vm : boost.VariablesMap) where
    -- An input file: its option's value, or the error message.
    unfoldable pub read_file : Setting → String → Settings → Exec Console Settings
    unfolding say complain
    read_file s label x =
        if is_positive (boost.count vm (name s))
        then (do
          v ← lift (from_answer (boost.as_string vm (name s)))
          say (label <> v)
          pure (assign s v x))
        else (do complain error_message; pure x)

    -- Another parameter: its option's value, if it is there. The password is not printed.
    unfoldable pub read_parameter : Setting → Option String → Settings → Exec Console Settings
    unfolding say
    read_parameter s label x =
        if is_positive (boost.count vm (name s))
        then (do
          v ← lift (from_answer (boost.as_string vm (name s)))
          elim label [ some l ↦ say (l <> v) | none ↦ pure tt ]
          pure (assign s v x))
        else pure x

    unfoldable pub read_files : Settings → Exec Console Settings
    unfolding read_file
    read_files x = do
      x ← read_file schedule "Schedule input filename is: " x
      x ← read_file ond "O&D input filename is: " x
      x ← read_file frat5 "FRAT5 input filename is: " x
      x ← read_file ff_disutility "FF disutility input filename is: " x
      x ← read_file yield "Yield input filename is: " x
      read_file fare "Fare input filename is: " x

    unfoldable pub read_parameters : Settings → Exec Console Settings
    unfolding read_parameter
    read_parameters x = do
      x ← read_parameter log (some "Log filename is: ") x
      x ← read_parameter user (some "SQL database user name is: ") x
      x ← read_parameter passwd none x
      x ← read_parameter host (some "SQL database host name is: ") x
      x ← read_parameter port (some "SQL database port number is: ") x
      read_parameter dbname (some "SQL database name is: ") x

    -- The part after the early returns.
    unfoldable pub read_settings : Settings → Exec Console Configuration
    unfolding say read_files read_parameters
    read_settings x = do
      let is_builtin = if is_positive (boost.count vm "builtin") then true else default_is_builtin
      say ("The BOM should be built-in? " <> (if is_builtin then "yes" else "no"))
      x ← if is_builtin then pure x else read_files x
      x ← read_parameters x
      pure (record { status = 0; is_builtin = is_builtin; settings = x })

  -- The end: an early return after the text that is printed for it, or the settings.
  unfoldable pub conclude :
      Option String → boost.VariablesMap → Settings → Exec Console Configuration
  unfolding say read_settings
  conclude (some line) vm x = do
    say line
    pure (record { status = early_return_status; is_builtin = default_is_builtin; settings = x })
  conclude none vm x = read_settings vm x

  -- What the options of the command line and of the file `simcrs.cfg` amount to, the command line
  -- stored first, and the value of each option for its variable.
  unfoldable pub parse_options :
      Build
      → List String
      → Option String
      → Exec Console (boost.VariablesMap × (String → Option String))
  unfolding cmdline_options config_file_options
  parse_options build args file = do
    x ← lift (from_answer (boost.parse_command_line (cmdline_options build) "copyright" args))
    vm ← lift (from_answer (boost.store x boost.empty))
    y ← lift (from_answer (boost.parse_config_file (config_file_options build) file))
    vm ← lift (from_answer (boost.store y vm))
    values ← lift (from_answer (boost.notify vm))
    pure (vm, values)

  -- `readConfiguration`
  unfoldable pub read_configuration :
      Build → List String → Option String → Exec Console Configuration
  unfolding parse_options assign_all config_options early_output conclude
  read_configuration build args file = do
    (vm, values) ← parse_options build args file
    conclude (early_output build vm) vm (assign_all values (config_options build) unset)
