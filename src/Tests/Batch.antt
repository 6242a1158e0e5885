-- ===== src/Tests/Batch.antt =====
-- The batch program over the small inventory and the small parser of options.
use simcrs.Base.{arith, String, Bool, true, false, some, none, List, [], ◌∷◌, ◌≡◌, refl, pos}
use simcrs.Calls.{
  World, replies, raises, stdair, airtsp, airinv, simfqt, make_stdair, StdairCall, AirtspCall,
  AirinvCall, SimfqtCall,
}
use simcrs.Exec.{ok, err, thrown}
use simcrs.Program.Traces.{Replying}
use simcrs.Distribution.{find}
use simcrs.Service.Placement.{at_address}
use simcrs.Service.Operation.{Operation, perform}
use simcrs.Service.Liveness.{perform-returns}
use simcrs.Batch.Options.{ProgramOptions, schedule, log, config_file_options, cmdline_options}
use simcrs.Batch.Configuration.{Console, read_configuration, early_output}
use simcrs.Batch.Reading.{Configured, written, report}
use simcrs.Batch.Precedence.{Accepted, effective, read_configuration-Configured}
use simcrs.Batch.Run.{Process, main}
use simcrs.Batch.Faults.{Faults}
use simcrs.Batch.Sold.{asked_builtin, asked_settings}
use simcrs.Batch.Ending.{Finished, Disappoints}
use simcrs.Batch.Whole.{EarlyText, help, main-Finished, main-early}
use simcrs.Batch.Rejected.{in_file, main-Rejected}
use simcrs.Tests.{Solution, sample, answers, start}
use simcrs.Tests.Boost.{parser, parser-IsDocumented, build}
use simcrs.Tests.Lifecycle.{
  empty_memory-IsSound, opened, opened_context, opened-at, opened_context-IsReady,
}
use simcrs.Tests.Selling.{half_full, half_full_sales, half_full-Plans}

-- One leg with seats, at one fare.
abbrev pub direct : Solution
direct = record {
  class_maps = (("Y", 1) ∷ []) ∷ [];
  segments = "SV,5,2010-03-11" ∷ [];
  fares = ("Y" ∷ []) ∷ [];
  chosen = [];
}

-- Components that find the one solution, price it, and sell in every class.
abbrev pub obliging : World sample
obliging h (airtsp _ (AirtspCall.build_segment_path_list _ _)) = replies (direct ∷ [])
obliging h (simfqt _ (SimfqtCall.quote_prices _ _)) = replies (direct ∷ [])
obliging h (airinv _ (AirinvCall.sell_class _ _)) = replies true
obliging h (airinv _ (AirinvCall.cancel _ _)) = replies true
obliging h c = answers h c

obliging-Replying : Replying obliging
obliging-Replying h (make_stdair _ _) = tt
obliging-Replying h (airtsp _ (AirtspCall.build_segment_path_list _ _)) = tt
obliging-Replying h (simfqt _ (SimfqtCall.quote_prices _ _)) = tt
obliging-Replying h (airinv _ (AirinvCall.sell_class _ _)) = tt
obliging-Replying h (stdair _ StdairCall.get_bom_root) = tt
obliging-Replying h _ = tt

-- The file has a log, the command line a schedule.
abbrev pub arguments : List String
arguments = "schedule" ∷ "mine.csv" ∷ []

unfoldable pub accepted : Accepted parser build arguments (some "mine.log")
accepted = record {
  line = _;
  config = _;
  first = _;
  vm = _;
  notified = _;
  line_parsed = refl;
  line_stored = refl;
  config_parsed = refl;
  config_stored = refl;
  vm_notified = refl;
}

effective-accepted :
    (effective parser-IsDocumented build accepted.line accepted.config schedule ≡ "mine.csv")
    × (effective parser-IsDocumented build accepted.line accepted.config log ≡ "mine.log")
unfolding accepted find parser-IsDocumented
effective-accepted = (refl, refl)

abbrev console : Console
console = record { output = []; errors = [] }

pub accepted-goes_on : early_output parser build accepted.vm ≡ none
unfolding accepted find early_output config_file_options cmdline_options
accepted-goes_on = refl

read_configuration-Configured_example :
    Configured
      (effective parser-IsDocumented build accepted.line accepted.config)
      false
      console
      (read_configuration parser build arguments (some "mine.log"))
unfolding accepted find config_file_options cmdline_options
read_configuration-Configured_example =
    read_configuration-Configured parser-IsDocumented accepted console accepted-goes_on

abbrev pub process : Process sample
process = record { console = console; program = start }

-- Someone asks for help, and there is no file.
abbrev help_wanted : Accepted parser build ("help" ∷ "" ∷ []) none
help_wanted = record {
  line = _;
  config = _;
  first = _;
  vm = _;
  notified = _;
  line_parsed = refl;
  line_stored = refl;
  config_parsed = refl;
  config_stored = refl;
  vm_notified = refl;
}

help_wanted-EarlyText : EarlyText parser build help_wanted.vm "Allowed options"
unfolding find config_file_options cmdline_options
help_wanted-EarlyText = help (omega arith)

main-early_example : main obliging parser build ("help" ∷ "" ∷ []) none process ≡ (
  ok (pos 0),
  record { console = record { output = "Allowed options" ∷ []; errors = [] }; program = start },
)
main-early_example =
    main-early obliging parser-IsDocumented help_wanted process "Allowed options"
      help_wanted-EarlyText

perform-returns_example :
    (r : Bool) × ((perform obliging (at_address 2) (Operation.sell half_full 2) opened).0 ≡ ok r)
perform-returns_example =
    perform-returns obliging (at_address 2) opened_context (Operation.sell half_full 2) opened
      obliging-Replying opened-at opened_context-IsReady (half_full_sales, half_full-Plans)

-- Components that find the one solution and drop it.
abbrev dropping : World sample
dropping h (airtsp _ (AirtspCall.build_segment_path_list _ _)) = replies (direct ∷ [])
dropping h (simfqt _ (SimfqtCall.quote_prices _ _)) = replies []
dropping h c = answers h c

main-Finished_example :
    Finished
      (Faults (
        Disappoints dropping
          (asked_builtin parser-IsDocumented accepted)
          (asked_settings parser-IsDocumented accepted)
          []))
      (
        (main dropping parser build arguments (some "mine.log") process).0,
        (main dropping parser build arguments (some "mine.log") process).1.program,
      )
    × ((main dropping parser build arguments (some "mine.log") process).1.console
        ≡ written console (
            report
              (asked_builtin parser-IsDocumented accepted)
              (asked_settings parser-IsDocumented accepted)))
main-Finished_example =
    main-Finished dropping parser-IsDocumented accepted process accepted-goes_on
      empty_memory-IsSound

-- A file with an option that the program does not know.
abbrev strict_parser : ProgramOptions
strict_parser = record parser { parse_config_file = λ os file. raises "unknown option" }

main-Rejected_example :
    main obliging strict_parser build arguments (some "color=red") process
    ≡ (err (thrown "unknown option"), process)
main-Rejected_example =
    main-Rejected strict_parser build arguments (some "color=red") obliging "unknown option" process
      (in_file _ _ refl refl refl)
