-- ===== src/Batch/Precedence.antt =====
-- `readConfiguration` where Boost accepts the options: the value of each variable.
use simcrs.Base.{String, Option, none, some, List, [], ◌∷◌, ◌++◌, ◌≡◌, refl, ap, ◌∙◌, All}
use simcrs.Calls.{replies}
use simcrs.Exec.{ok, ◌>>=◌}
use simcrs.Batch.Assignment.{Notifies, assign_all-at, mentions-config_options}
use simcrs.Batch.Reading.{Holds, Configured, read_settings-Configured}
use simcrs.Batch.Options.{
  Build, Setting, schedule, ond, frat5, ff_disutility, yield, fare, log, user, passwd, host, port,
  dbname, name, default_value, default_of, config_options, cmdline_options, config_file_options,
  ProgramOptions, Stored, stored_text, store_option, IsDocumented,
}
use simcrs.Batch.Configuration.{
  Console, Settings, unset, assign_all, is_positive, early_return_status, default_is_builtin,
  early_output, parse_options, conclude, read_configuration,
}

-- Boost accepts the command line and the file.
pub record Accepted (boost : ProgramOptions) (build : Build) (args : List String)
    (file : Option String) : Type 0 where
  pub line : boost.Parsed
  pub config : boost.Parsed
  pub first : boost.VariablesMap
  pub vm : boost.VariablesMap
  pub notified : String → Option String
  pub line_parsed : boost.parse_command_line (cmdline_options build) "copyright" args ≡ replies line
  pub line_stored : boost.store line boost.empty ≡ replies first
  pub config_parsed : boost.parse_config_file (config_file_options build) file ≡ replies config
  pub config_stored : boost.store config first ≡ replies vm
  pub vm_notified : boost.notify vm ≡ replies notified

-- A value given to the option on the command line, or else in the file, or else the default.
abbrev pub effective :
    {boost : ProgramOptions} → IsDocumented boost → Build → boost.Parsed → boost.Parsed → Settings
effective doc build line config s = elim (doc.values line (name s)) [
  | some t ↦ t
  | none ↦ elim (doc.values config (name s)) [ some u ↦ u | none ↦ default_value build s ]
]

default_of-cmdline :
    (build : Build) (s : Setting)
    → default_of (name s) (cmdline_options build) ≡ some (default_value build s)
unfolding cmdline_options
default_of-cmdline build schedule = refl
default_of-cmdline build _ = refl

default_of-config_file :
    (build : Build) (s : Setting)
    → default_of (name s) (config_file_options build) ≡ some (default_value build s)
unfolding config_file_options
default_of-config_file build schedule = refl
default_of-config_file build _ = refl

stored_twice : (a b : Option String) (d : String) → Stored
stored_twice a b d = store_option (some (store_option none a d)) b d

stored_twice-text :
    (a b : Option String) (d : String)
    → stored_text (stored_twice a b d) ≡ (elim a as (λ _. String) [
      | some t ↦ t
      | none ↦ elim b as (λ _. String) [ some u ↦ u | none ↦ d ]
    ])
unfolding stored_twice
stored_twice-text (some t) b d = refl
stored_twice-text none (some u) d = refl
stored_twice-text none none d = refl

module _ {boost : ProgramOptions} (doc : IsDocumented boost) {build : Build} {args : List String}
    {file : Option String} (a : Accepted boost build args file) where
  abbrev final : Settings
  final = effective doc build a.line a.config

  find-stored :
      (s : Setting)
      → doc.find a.vm (name s)
        ≡ some (
            stored_twice
              (doc.values a.line (name s))
              (doc.values a.config (name s))
              (default_value build s))
  unfolding stored_twice
  find-stored s =
      let n = name s in
      let d = default_value build s in
      let one = doc.find-store a.line boost.empty a.first n d a.line_stored (
        rw (doc.described-parse_command_line _ _ _ _ a.line_parsed) (default_of-cmdline build s)) in
      let two = doc.find-store a.config a.first a.vm n d a.config_stored (
        rw (doc.described-parse_config_file _ _ _ a.config_parsed)
          (default_of-config_file build s)) in
      two ∙ rw (one, doc.find-empty n) refl

  stored-Holds : (s : Setting) → Holds boost final a.vm s
  stored-Holds s = record {
    counted = doc.count-find a.vm (name s) _ (find-stored s);
    valued =
        doc.as_string-find a.vm (name s) _ (find-stored s) ∙ ap replies (stored_twice-text _ _ _);
  }

  notified-final : (s : Setting) → a.notified (name s) ≡ some (final s)
  notified-final s =
      doc.notify-find a.vm a.notified (name s) _ a.vm_notified (find-stored s)
      ∙ ap some (stored_twice-text _ _ _)

  config_options-Notifies :
      All (λ o. Notifies final o.kind (a.notified o.long)) (config_options build)
  unfolding config_options
  config_options-Notifies = (
    tt,
    (
      notified-final schedule,
      (
        notified-final ond,
        (
          notified-final frat5,
          (
            notified-final ff_disutility,
            (
              notified-final yield,
              (
                notified-final fare,
                (
                  notified-final log,
                  (
                    notified-final user,
                    (
                      notified-final passwd,
                      (notified-final host, (notified-final port, (notified-final dbname, tt))),
                    ),
                  ),
                ),
              ),
            ),
          ),
        ),
      ),
    ),
  )

  notified-settled : (t : Setting) → assign_all a.notified (config_options build) unset t ≡ final t
  notified-settled t =
      assign_all-at a.notified final unset (config_options build) t config_options-Notifies
      ∙ rw (mentions-config_options build t) refl

  parse_options-Accepted :
      (k : Console) → parse_options boost build args file k ≡ (ok (a.vm, a.notified), k)
  unfolding parse_options ◌>>=◌
  parse_options-Accepted k =
      rw (a.line_parsed, a.line_stored, a.config_parsed, a.config_stored, a.vm_notified) refl

  read_configuration-conclude :
      (k : Console)
      → read_configuration boost build args file k
        ≡ conclude boost
            (early_output boost build a.vm)
            a.vm
            (assign_all a.notified (config_options build) unset)
            k
  unfolding read_configuration ◌>>=◌
  read_configuration-conclude k = rw (parse_options-Accepted k) refl

  -- Where Boost accepts the options and keeps to its documentation, and none of `--help`,
  -- `--version` and `--prefix` is there, `readConfiguration` returns 0. It takes the flag from
  -- `--builtin`, and each variable is the value given on the command line, or else in the file, or
  -- else the default. It writes out the flag, the input files unless the flag is set, and the other
  -- parameters without the password; the message that options must be specified is never written.
  pub read_configuration-Configured :
      (k : Console)
      → early_output boost build a.vm ≡ none
      → Configured
          (effective doc build a.line a.config)
          (is_positive (boost.count a.vm "builtin"))
          k
          (read_configuration boost build args file)
  read_configuration-Configured k e =
      rw (read_configuration-conclude k, e)
        (unfold conclude in
          read_settings-Configured boost final a.vm stored-Holds notified-settled k)

  -- Where Boost accepts the options and one of `--help`, `--version` and `--prefix` is there,
  -- `readConfiguration` writes one text and returns the status of an early return.
  pub read_configuration-early :
      (k : Console) (line : String)
      → early_output boost build a.vm ≡ some line
      → read_configuration boost build args file k ≡ (
        ok (record {
          status = early_return_status;
          is_builtin = default_is_builtin;
          settings = assign_all a.notified (config_options build) unset;
        }),
        record k { output = k.output ++ line ∷ [] },
      )
  read_configuration-early k line e =
      rw (read_configuration-conclude k, e) (unfold conclude ◌>>=◌ in refl)
