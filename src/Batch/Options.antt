-- ===== src/Batch/Options.antt =====
-- simcrs/batches/simcrs.cpp: the tables of options, and what the program uses of Boost program
-- options, which is a parameter. Help texts are left out.
use Prim.Native.String.{◌++◌ as ◌<>◌}
use text.Mathlib.Text.{◌==◌ as str_eq}
use simcrs.Base.{ℕ, String, Option, none, some, List, [], ◌∷◌, ◌++◌, ◌≡◌, if◌then◌else◌}
use simcrs.Calls.{Answer, replies}

-- What the build defines: STDAIR_SAMPLE_DIR, PACKAGE_NAME, PACKAGE_VERSION and PREFIXDIR.
pub record Build : Type 0 where
  pub sample_dir : String
  pub package_name : String
  pub package_version : String
  pub prefix_dir : String

-- The variables of `main` that the options set.
pub data Setting : Type 0 where
  schedule ond frat5 ff_disutility yield fare log user passwd host port dbname : Setting

-- The long name of the option that sets a variable.
abbrev pub name : Setting → String
name schedule = "schedule"
name ond = "ond"
name frat5 = "frat5"
name ff_disutility = "ff_disutility"
name yield = "yield"
name fare = "fare"
name log = "log"
name user = "user"
name passwd = "passwd"
name host = "host"
name port = "port"
name dbname = "dbname"

-- An option without a value, one whose value goes to a variable, and one with any number of values.
pub data Kind : Type 0 where
  switch texts : Kind
  value_of : Setting → (default_value : String) → Kind

pub record OptionSpec : Type 0 where
  pub long : String
  pub short : Option String
  pub kind : Kind

abbrev pub option : String → Option String → Kind → OptionSpec
option l s k = record { long = l; short = s; kind = k }

unfoldable pub generic_options : List OptionSpec
generic_options =
    option "prefix" none switch
    ∷ option "version" (some "v") switch
    ∷ option "help" (some "h") switch
    ∷ []

unfoldable pub hidden_options : List OptionSpec
hidden_options = option "copyright" none texts ∷ []

module _ (build : Build) where
  -- `K_SIMCRS_DEFAULT_…`
  abbrev pub default_value : Setting → String
  default_value schedule = build.sample_dir <> "/schedule01.csv"
  default_value ond = build.sample_dir <> "/ond01.csv"
  default_value frat5 = build.sample_dir <> "/frat5.csv"
  default_value ff_disutility = build.sample_dir <> "/ffDisutility.csv"
  default_value yield = build.sample_dir <> "/yieldstore01.csv"
  default_value fare = build.sample_dir <> "/fare01.csv"
  default_value log = "simcrs.log"
  default_value user = "dsim"
  default_value passwd = "dsim"
  default_value host = "localhost"
  default_value port = "3306"
  default_value dbname = "sim_dsim"

  unfoldable pub config_options : List OptionSpec
  config_options =
      option "builtin" (some "b") switch
      ∷ option "schedule" (some "s") (value_of schedule (default_value schedule))
      ∷ option "ond" (some "o") (value_of ond (default_value ond))
      ∷ option "frat5" (some "F") (value_of frat5 (default_value frat5))
      ∷ option "ff_disutility" (some "D") (value_of ff_disutility (default_value ff_disutility))
      ∷ option "yield" (some "y") (value_of yield (default_value yield))
      ∷ option "fare" (some "f") (value_of fare (default_value fare))
      ∷ option "log" (some "l") (value_of log (default_value log))
      ∷ option "user" (some "u") (value_of user (default_value user))
      ∷ option "passwd" (some "p") (value_of passwd (default_value passwd))
      ∷ option "host" (some "H") (value_of host (default_value host))
      ∷ option "port" (some "P") (value_of port (default_value port))
      ∷ option "dbname" (some "m") (value_of dbname (default_value dbname))
      ∷ []

  unfoldable pub cmdline_options : List OptionSpec
  unfolding generic_options config_options hidden_options
  cmdline_options = generic_options ++ (config_options ++ hidden_options)

  unfoldable pub config_file_options : List OptionSpec
  unfolding config_options hidden_options
  config_file_options = config_options ++ hidden_options

  unfoldable pub visible_options : List OptionSpec
  unfolding generic_options config_options
  visible_options = generic_options ++ config_options

-- The default value of an option that has one.
abbrev pub default_of : String → List OptionSpec → Option String
default_of n [] = none
default_of n (o ∷ os) =
    if str_eq n o.long then elim o.kind [ value_of s d ↦ some d | _ ↦ none ] else default_of n os

-- Boost program options, as far as the program calls it.
pub record ProgramOptions : Type 1 where
  pub Parsed : Type 0
  pub VariablesMap : Type 0
  pub parse_command_line : List OptionSpec → (positional : String) → List String → Answer Parsed
  -- the file's contents, or `none` where there is no such file
  pub parse_config_file : List OptionSpec → Option String → Answer Parsed
  pub empty : VariablesMap
  pub store : Parsed → VariablesMap → Answer VariablesMap
  -- for each option, the value that goes to its variable
  pub notify : VariablesMap → Answer (String → Option String)
  pub count : VariablesMap → String → ℕ
  pub as_string : VariablesMap → String → Answer String
  -- an options description on a stream
  pub print : List OptionSpec → String

-- An option's value in a map: given, or the default.
pub data Stored : Type 0 where
  given defaulted : String → Stored

abbrev pub stored_text : Stored → String
stored_text (given t) = t
stored_text (defaulted t) = t

-- "If the map already has a non-defaulted value of an option, that value is not changed."
abbrev pub store_option : Option Stored → Option String → String → Stored
store_option (some (given t)) new d = given t
store_option (some (defaulted t)) (some u) d = given u
store_option (some (defaulted t)) none d = defaulted t
store_option none (some u) d = given u
store_option none none d = defaulted d

-- What Boost documents of options with one text value and a default.
pub record IsDocumented (boost : ProgramOptions) : Type 0 where
  pub described : boost.Parsed → List OptionSpec
  pub values : boost.Parsed → String → Option String
  pub find : boost.VariablesMap → String → Option Stored
  pub described-parse_command_line :
      (os : List OptionSpec) (p : String) (args : List String) (x : boost.Parsed)
      → boost.parse_command_line os p args ≡ replies x
      → described x ≡ os
  pub described-parse_config_file :
      (os : List OptionSpec) (f : Option String) (x : boost.Parsed)
      → boost.parse_config_file os f ≡ replies x
      → described x ≡ os
  pub find-empty : (n : String) → find boost.empty n ≡ none
  pub find-store :
      (x : boost.Parsed) (m m' : boost.VariablesMap) (n d : String)
      → boost.store x m ≡ replies m'
      → default_of n (described x) ≡ some d
      → find m' n ≡ some (store_option (find m n) (values x n) d)
  pub count-find :
      (m : boost.VariablesMap) (n : String) (e : Stored) → find m n ≡ some e → boost.count m n ≡ 1
  pub as_string-find :
      (m : boost.VariablesMap) (n : String) (e : Stored)
      → find m n ≡ some e
      → boost.as_string m n ≡ replies (stored_text e)
  pub notify-find :
      (m : boost.VariablesMap) (v : String → Option String) (n : String) (e : Stored)
      → boost.notify m ≡ replies v
      → find m n ≡ some e
      → v n ≡ some (stored_text e)
