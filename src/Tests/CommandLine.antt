-- ===== src/Tests/CommandLine.antt =====
-- The batch program from the command line to the sale, over the small inventory.
use simcrs.Base.{true, some, none, [], ◌∷◌, ◌++◌, ◌≡◌, ◌↔◌, refl, pos, negsuc}
use simcrs.Exec.{ok}
use simcrs.Distribution.{first_class, find}
use simcrs.Distribution.Plan.{by_class, done, leg}
use simcrs.Program.Attempt.{Answered}
use simcrs.Service.Making.{Makes, making, components}
use simcrs.Batch.Options.{log, cmdline_options, config_file_options}
use simcrs.Batch.Run.{main}
use simcrs.Batch.Reading.{written, report}
use simcrs.Batch.Booked.{loaded, Leads, booking}
use simcrs.Batch.Sold.{asked_builtin, asked_settings, main-Leads}
use simcrs.Batch.Status.{Succeeds, Ceases, main-exact}
use simcrs.Tests.{sample}
use simcrs.Tests.Boost.{parser, parser-IsDocumented, build}
use simcrs.Tests.Lifecycle.{empty_memory-IsSound}
use simcrs.Tests.Batch.{direct, obliging, arguments, accepted, accepted-goes_on, process}

abbrev made : Makes {S = sample} obliging (asked_settings parser-IsDocumented accepted log) none []
made = record {
  std = 0;
  fqt = 1;
  tsp = 2;
  inv = 3;
  stdair_made = refl;
  simfqt_made = refl;
  airtsp_made = refl;
  airinv_made = refl;
}

-- The files that the options name are loaded.
read : Answered obliging (making made) (
    loaded
      (components made)
      (asked_builtin parser-IsDocumented accepted)
      (asked_settings parser-IsDocumented accepted))
unfolding accepted find cmdline_options config_file_options
read = _

-- The one solution is found, priced and sold.
abbrev led : Leads obliging (components made) (
    making made
    ++ loaded
        (components made)
        (asked_builtin parser-IsDocumented accepted)
        (asked_settings parser-IsDocumented accepted))
unfolding first_class find
led = record {
  request = "SIN-BKK";
  solution = direct;
  solutions = [];
  priced_solution = direct;
  priced_solutions = [];
  fare_option = "Y" ∷ [];
  fare_options = [];
  key = "SV,5,2010-03-11";
  keys = [];
  sales = by_class 1 ∷ [];
  answers = true ∷ [];
  root = 0;
  dump = "root";
  requested = refl;
  found = refl;
  priced = refl;
  fared = refl;
  pathed = refl;
  planned = leg refl refl done;
  sold = (refl, tt);
  rooted = refl;
  displayed = refl;
}

main-Leads_example :
    ((main obliging parser build arguments (some "mine.log") process).0 ≡ ok (pos 0))
    × ((main obliging parser build arguments (some "mine.log") process).1.program.history
        ≡ making made
          ++ (loaded
                (components made)
                (asked_builtin parser-IsDocumented accepted)
                (asked_settings parser-IsDocumented accepted)
              ++ booking led))
    × ((main obliging parser build arguments (some "mine.log") process).1.console
        ≡ written process.console (
            report
              (asked_builtin parser-IsDocumented accepted)
              (asked_settings parser-IsDocumented accepted)))
main-Leads_example =
    main-Leads obliging parser-IsDocumented accepted process accepted-goes_on empty_memory-IsSound
      made read led

main-exact_example :
    (((main obliging parser build arguments (some "mine.log") process).0 ≡ ok (pos 0))
      ↔ Succeeds obliging
          (asked_builtin parser-IsDocumented accepted)
          (asked_settings parser-IsDocumented accepted)
          [])
    × (((main obliging parser build arguments (some "mine.log") process).0 ≡ ok (negsuc 0))
        ↔ Ceases obliging
            (asked_builtin parser-IsDocumented accepted)
            (asked_settings parser-IsDocumented accepted)
            [])
main-exact_example =
    main-exact obliging parser-IsDocumented accepted process accepted-goes_on empty_memory-IsSound
