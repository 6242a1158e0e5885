-- ===== src/Batch/Whole.antt =====
-- `main` from the command line to its exit status.
use Prim.Native.String.{◌++◌ as ◌<>◌}
use simcrs.Base.{◌≤◌, arith, String, List, Option, some, none, [], ◌∷◌, ◌++◌, ◌≡◌, refl, pos}
use simcrs.Stdair.{Stdair}
use simcrs.Calls.{World}
use simcrs.Exec.{ok, ◌>>=◌}
use simcrs.Factory.Sound.{IsSound}
use simcrs.Batch.Options.{
  Build, generic_options, config_options, visible_options, ProgramOptions, IsDocumented,
}
use simcrs.Batch.Configuration.{early_output}
use simcrs.Batch.Reading.{written, report}
use simcrs.Batch.Precedence.{Accepted, read_configuration-early}
use simcrs.Batch.Run.{Process, on_console, run_unless_early, main}
use simcrs.Batch.Sold.{asked_builtin, asked_settings, asked_configuration, main-runs}
use simcrs.Batch.Faults.{Faults}
use simcrs.Batch.Ending.{Finished, Disappoints, run-Finished}

-- The text that the first of `--help`, `--version` and `--prefix` asks for.
pub data EarlyText (boost : ProgramOptions) (build : Build) (vm : boost.VariablesMap)
    : String → Type 0 where
  help :
      1 ≤ boost.count vm "help"
      → EarlyText boost build vm (boost.print (generic_options ++ config_options build))
  version :
      boost.count vm "help" ≡ 0
      → 1 ≤ boost.count vm "version"
      → EarlyText boost build vm (build.package_name <> ", version " <> build.package_version)
  prefix :
      boost.count vm "help" ≡ 0
      → boost.count vm "version" ≡ 0
      → 1 ≤ boost.count vm "prefix"
      → EarlyText boost build vm ("Installation prefix: " <> build.prefix_dir)

EarlyText-output :
    {boost : ProgramOptions} {build : Build} {vm : boost.VariablesMap} {line : String}
    → EarlyText boost build vm line
    → early_output boost build vm ≡ some line
unfolding early_output visible_options
EarlyText-output (help h) = ground (arith, h)
EarlyText-output (version e h) = ground (arith, e, h)
EarlyText-output (prefix e f h) = ground (arith, e, f, h)

module _ {S : Stdair} (world : World S) {boost : ProgramOptions} (doc : IsDocumented boost)
    {build : Build} {args : List String} {file : Option String} (a : Accepted boost build args file)
    (p : Process S) where
  -- Where Boost accepts the options and keeps to its documentation, none of `--help`, `--version`
  -- and `--prefix` is there and the factories are in order, `main` returns 0 or -1, and its service
  -- has let go of every component, or an exception of another component comes out. It fails an
  -- assertion or does something undefined only where, in this very run, SimFQT prices the solutions
  -- that were found so that there is none, or that the first has a fare option, but no segment or no
  -- class for a leg. The factories are in order at each of these ends. Only the report of the options
  -- is written, and nothing to the standard error.
  pub main-Finished :
      early_output boost build a.vm ≡ none
      → IsSound p.program.memory
      → Finished
          (Faults
            (Disappoints world (asked_builtin doc a) (asked_settings doc a) p.program.history))
          ((main world boost build args file p).0, (main world boost build args file p).1.program)
        × ((main world boost build args file p).1.console
            ≡ written p.console (report (asked_builtin doc a) (asked_settings doc a)))
  main-Finished e sound =
      let (c, same) = main-runs world doc a p e in
      rw same (run-Finished world (asked_configuration doc a c) p.program sound, refl)

  -- Where Boost accepts the options and keeps to its documentation, `main` writes one text if
  -- `--help`, `--version` or `--prefix` is there: for `--help` the description of the options that
  -- are not hidden, else for `--version` the package's name and version, else the installation
  -- prefix. It makes no service, calls no component, and returns 0.
  pub main-early :
      (line : String)
      → EarlyText boost build a.vm line
      → main world boost build args file p ≡ (
        ok (pos 0),
        record p {
          console = record { output = p.console.output ++ line ∷ []; errors = p.console.errors };
        },
      )
  unfolding main on_console run_unless_early ◌>>=◌
  main-early line h = rw (read_configuration-early doc a p.console line (EarlyText-output h)) refl
