-- ===== src/Batch/Rejected.antt =====
-- The batch program where Boost does not accept its options.
use simcrs.Base.{String, Option, List, ◌≡◌, refl}
use simcrs.Stdair.{Stdair}
use simcrs.Calls.{World, replies, raises}
use simcrs.Exec.{err, thrown, ◌>>=◌}
use simcrs.Batch.Options.{Build, ProgramOptions, cmdline_options, config_file_options}
use simcrs.Batch.Configuration.{parse_options, read_configuration}
use simcrs.Batch.Run.{Process, on_console, main}

module _ (boost : ProgramOptions) (build : Build) (args : List String) (file : Option String) where
  -- Boost raises an exception on the command line, where it stores that, on the file, where it stores
  -- that one, or where it gives the variables their values.
  pub data Rejected (what : String) : Type 0 where
    in_line :
        boost.parse_command_line (cmdline_options build) "copyright" args ≡ raises what
        → Rejected what
    in_store :
        (x : boost.Parsed)
        → boost.parse_command_line (cmdline_options build) "copyright" args ≡ replies x
        → boost.store x boost.empty ≡ raises what
        → Rejected what
    in_file :
        (x : boost.Parsed) (vm : boost.VariablesMap)
        → boost.parse_command_line (cmdline_options build) "copyright" args ≡ replies x
        → boost.store x boost.empty ≡ replies vm
        → boost.parse_config_file (config_file_options build) file ≡ raises what
        → Rejected what
    in_second_store :
        (x y : boost.Parsed) (vm : boost.VariablesMap)
        → boost.parse_command_line (cmdline_options build) "copyright" args ≡ replies x
        → boost.store x boost.empty ≡ replies vm
        → boost.parse_config_file (config_file_options build) file ≡ replies y
        → boost.store y vm ≡ raises what
        → Rejected what
    in_notify :
        (x y : boost.Parsed) (vm all : boost.VariablesMap)
        → boost.parse_command_line (cmdline_options build) "copyright" args ≡ replies x
        → boost.store x boost.empty ≡ replies vm
        → boost.parse_config_file (config_file_options build) file ≡ replies y
        → boost.store y vm ≡ replies all
        → boost.notify all ≡ raises what
        → Rejected what

  -- Where Boost raises an exception on the options, of the command line or of the file, it comes out
  -- of `main`: nothing is written, no service is made and no component is called.
  pub main-Rejected :
      {S : Stdair} (world : World S) (what : String) (p : Process S)
      → Rejected what
      → main world boost build args file p ≡ (err (thrown what), p)
  unfolding main on_console read_configuration parse_options ◌>>=◌
  main-Rejected world what p (in_line e) = rw e refl
  main-Rejected world what p (in_store x e₁ e) = rw (e₁, e) refl
  main-Rejected world what p (in_file x vm e₁ e₂ e) = rw (e₁, e₂, e) refl
  main-Rejected world what p (in_second_store x y vm e₁ e₂ e₃ e) = rw (e₁, e₂, e₃, e) refl
  main-Rejected world what p (in_notify x y vm all e₁ e₂ e₃ e₄ e) = rw (e₁, e₂, e₃, e₄, e) refl
