-- ===== src/Tests/Boost.antt =====
-- A small parser of options that keeps to what Boost documents: arguments alternate between long names
-- and values, and the configuration file is the value of `log`.
use simcrs.Base.{
  String, Option, some, none, List, [], ◌∷◌, ◌≡◌, refl, ap, ◌∙◌, is_some, if◌then◌else◌, sym,
}
use simcrs.Calls.{Answer, replies, raises}
use simcrs.Distribution.{find}
use simcrs.Batch.Options.{
  Build, OptionSpec, default_of, ProgramOptions, Stored, given, stored_text, store_option,
  IsDocumented,
}

pub record Words : Type 0 where
  pub specs : List OptionSpec
  pub given_values : String → Option String

abbrev pairs : List String → List (String × String)
pairs (n ∷ v ∷ rest) = (n, v) ∷ pairs rest
pairs _ = []

abbrev words : List OptionSpec → List String → Words
words os args = record { specs = os; given_values = λ n. find n (pairs args) }

abbrev file_words : Option String → List String
file_words none = []
file_words (some file) = "log" ∷ file ∷ []

abbrev Map : Type 0
Map = String → Option Stored

abbrev switch_value : Option String → Option Stored → Option Stored
switch_value (some t) e = some (given t)
switch_value none e = e

abbrev value_after : Option String → Option String → Option Stored → Option Stored
value_after (some d) v e = some (store_option e v d)
value_after none v e = switch_value v e

abbrev text_of : Option Stored → Answer String
text_of none = raises "no value"
text_of (some e) = replies (stored_text e)

abbrev note : Option Stored → Option String
note none = none
note (some e) = some (stored_text e)

abbrev pub parser : ProgramOptions
parser = record {
  Parsed = Words;
  VariablesMap = Map;
  parse_command_line = λ os p args. replies (words os args);
  parse_config_file = λ os file. replies (words os (file_words file));
  empty = λ n. none;
  store = λ x m. replies (λ n. value_after (default_of n x.specs) (x.given_values n) (m n));
  notify = λ m. replies (λ n. note (m n));
  count = λ m n. if is_some (m n) then 1 else 0;
  as_string = λ m n. text_of (m n);
  print = λ os. "Allowed options";
}

from_reply : {A : Type 0} → A → Answer A → A
from_reply d (replies x) = x
from_reply d (raises what) = d

unfoldable replies-inj : {A : Type 0} (x y : A) → ◌≡◌ {A = Answer A} (replies x) (replies y) → x ≡ y
unfolding from_reply
replies-inj x y e = ap (from_reply x) e

unfoldable pub parser-IsDocumented : IsDocumented parser
unfolding replies-inj
parser-IsDocumented = record {
  described = λ x. x.specs;
  values = λ x. x.given_values;
  find = λ m n. m n;
  described-parse_command_line =
      λ os p args x e. ap (λ (w : Words). w.specs) (sym (replies-inj _ _ e));
  described-parse_config_file =
      λ os file x e. ap (λ (w : Words). w.specs) (sym (replies-inj _ _ e));
  find-empty = λ n. refl;
  find-store = λ x m m' n d e f. ap (λ (g : Map). g n) (sym (replies-inj _ _ e)) ∙ rw f refl;
  count-find = λ m n e f. rw f refl;
  as_string-find = λ m n e f. rw f refl;
  notify-find =
      λ m v n e f g. ap (λ (k : String → Option String). k n) (sym (replies-inj _ _ f)) ∙ rw g refl;
}

abbrev pub build : Build
build = record {
  sample_dir = "/usr/share/stdair/samples";
  package_name = "simcrs";
  package_version = "1.01";
  prefix_dir = "/usr";
}
