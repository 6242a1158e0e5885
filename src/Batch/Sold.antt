-- ===== src/Batch/Sold.antt =====
-- A whole run of the batch program that ends in a sale, call by call.
use mathlib.Core.Path.{fun_ext}
use simcrs.Base.{
  String, Bool, List, Option, ap, some, none, ◌++◌, ◌≡◌, refl, ◌∙◌, append_assoc, pos, ℤ,
}
use simcrs.Stdair.{Stdair}
use simcrs.Calls.{World}
use simcrs.Exec.{Result, ok, pure, ◌>>=◌}
use simcrs.Factory.Sound.{IsSound}
use simcrs.Memory.{Address, Store, at}
use simcrs.Program.{Program}
use simcrs.Program.Attempt.{Answered, called}
use simcrs.Service.Placement.{at_address}
use simcrs.Service.Making.{Makes, making, components, construct_owning-Made}
use simcrs.Service.Finalisation.{destroy-IsReleased}
use simcrs.Batch.Options.{Build, Setting, log, ProgramOptions, IsDocumented}
use simcrs.Batch.Configuration.{Configuration, is_positive, early_output}
use simcrs.Batch.Reading.{written, report}
use simcrs.Batch.Precedence.{Accepted, effective, read_configuration-Configured}
use simcrs.Batch.Run.{Process, on_console, on_program, run, run_unless_early, main}
use simcrs.Batch.Booked.{loaded, Leads, booking, serve-Leads}

pub at-some : {A : Type 0} (f : Store A) (a : Address) (x : A) → f a ≡ some x → at f (some a) ≡ ok x
at-some f a x e = rw (e, at) refl

module _ {S : Stdair} (world : World S) (c : Configuration) (s : Program S) where
  -- From factories in order, where each component can be made, each call that loads has a reply, and
  -- the other components lead to a sale, a run after the options returns 0, and its calls are exactly
  -- these: the four components are made, StdAir first, and AirInv without an event manager; they load
  -- or build; and the booking follows, for three seats, whatever AirInv answers. Nothing is called
  -- where the service ends.
  pub run-Leads :
      IsSound s.memory
      → (l : Makes world (S.debug_log (c.settings log)) none s.history)
      → Answered world (s.history ++ making l) (loaded (components l) c.is_builtin c.settings)
      → (r : Leads world
          (components l)
          ((s.history ++ making l) ++ loaded (components l) c.is_builtin c.settings))
      → ((run world c s).0 ≡ ok (pos 0))
        × ((run world c s).1.history
            ≡ s.history
              ++ (making l ++ (loaded (components l) c.is_builtin c.settings ++ booking r)))
  unfolding run ◌>>=◌
  run-Leads sound l v r =
      let (a, m, d, e, here, serves, sound') =
        construct_owning-Made world (S.debug_log (c.settings log)) none "1P" s sound l in
      let s₁ : Program S = record { memory = m; history = s.history ++ making l } in
      let served =
        serve-Leads world (at_address a) d (components l) c.is_builtin c.settings s₁
          (at-some m.contexts a d here) serves v r in
      let cs = loaded (components l) c.is_builtin c.settings in
      let s₂ = called world (called world s₁ cs) (booking r) in
      let (returned, context, same, sound'', others) = destroy-IsReleased a s₂ d here sound' in
      rw (e, served, returned)
        (unfold pure in
          (
            refl,
            same
                ∙ append_assoc (s.history ++ making l) cs (booking r)
                ∙ append_assoc s.history (making l) (cs ++ booking r),
          ))

module _ {boost : ProgramOptions} (doc : IsDocumented boost) {build : Build} {args : List String}
    {file : Option String} (a : Accepted boost build args file) where
  -- The flag and the variables that the options amount to.
  abbrev pub asked_builtin : Bool
  asked_builtin = is_positive (boost.count a.vm "builtin")

  abbrev pub asked_settings : Setting → String
  asked_settings = effective doc build a.line a.config

  abbrev pub asked_configuration : Configuration → Configuration
  asked_configuration c = record c { is_builtin = asked_builtin; settings = asked_settings }

  asked_configuration-same :
      (c : Configuration)
      → c.is_builtin ≡ asked_builtin
      → ((x : Setting) → c.settings x ≡ asked_settings x)
      → c ≡ asked_configuration c
  asked_configuration-same c b e =
      ap (λ b'. record c { is_builtin = b' }) b
      ∙ ap (λ x. record c { is_builtin = asked_builtin; settings = x }) (fun_ext e)

module _ {S : Stdair} (world : World S) {boost : ProgramOptions} (doc : IsDocumented boost)
    {build : Build} {args : List String} {file : Option String} (a : Accepted boost build args file)
    (p : Process S) where
  -- The run with the options, whose report is written.
  abbrev pub process_after : Result ℤ × Program S → Result ℤ × Process S
  process_after r = (
    r.0,
    record {
      program = r.1;
      console = written p.console (report (asked_builtin doc a) (asked_settings doc a));
    },
  )

  pub main-runs :
      early_output boost build a.vm ≡ none
      → (c : Configuration) × (main world boost build args file p
          ≡ process_after (run world (asked_configuration doc a c) p.program))
  unfolding main on_console on_program run_unless_early ◌>>=◌
  main-runs e =
      let (c, returned, zero_status, builtin, settings) =
        read_configuration-Configured doc a p.console e in
      (
        c,
        rw (returned, zero_status)
            (ap (λ c. process_after (run world c p.program))
              (asked_configuration-same doc a c builtin settings)),
      )

  -- Where Boost accepts the options and keeps to its documentation, none of `--help`, `--version`
  -- and `--prefix` is there, the factories are in order, each component can be made, each call that
  -- loads has a reply, and the other components lead to a sale, `main` returns 0. Its calls are
  -- exactly these: the four components are made, StdAir first, with the log file that the options
  -- name; they build their samples if `--builtin` is there, and else load the files that the options
  -- name; and the booking follows, for three seats, whatever AirInv answers. It writes the report of
  -- the options, and nothing else.
  pub main-Leads :
      early_output boost build a.vm ≡ none
      → IsSound p.program.memory
      → (l : Makes world (S.debug_log (asked_settings doc a log)) none p.program.history)
      → Answered world
          (p.program.history ++ making l)
          (loaded (components l) (asked_builtin doc a) (asked_settings doc a))
      → (r : Leads world (components l) (
          (p.program.history ++ making l)
          ++ loaded (components l) (asked_builtin doc a) (asked_settings doc a)))
      → ((main world boost build args file p).0 ≡ ok (pos 0))
        × ((main world boost build args file p).1.program.history
            ≡ p.program.history
              ++ (making l
                  ++ (loaded (components l) (asked_builtin doc a) (asked_settings doc a)
                      ++ booking r)))
        × ((main world boost build args file p).1.console
            ≡ written p.console (report (asked_builtin doc a) (asked_settings doc a)))
  main-Leads e sound l v r =
      let (c, same) = main-runs e in
      let (zero, calls) = run-Leads world (asked_configuration doc a c) p.program sound l v r in
      rw same (zero, calls, refl)
