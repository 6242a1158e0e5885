-- ===== src/Batch/Run.antt =====
-- `main` of simcrs/batches/simcrs.cpp. Log lines are left out, what they read is not.
use simcrs.Base.{
  String, Bool, true, Option, none, List, [], ◌∷◌, ℤ, pos, negsuc, ◌==◌, if◌then◌else◌,
}
use simcrs.Stdair.{Stdair}
use simcrs.Calls.{World}
use simcrs.Exec.{Result, ok, err, undefined_behaviour, Exec, pure, lift, ◌>>=◌, ◌>>◌}
use simcrs.Program.{Program}
use simcrs.Service.{Service, construct_owning, destroy}
use simcrs.Service.Bom
use simcrs.Service.Booking
use simcrs.Service.Display
use simcrs.Batch.Options.{
  Build, schedule, ond, frat5, ff_disutility, yield, fare, log, ProgramOptions,
}
use simcrs.Batch.Configuration.{
  Console, Settings, Configuration, early_return_status, read_configuration,
}

-- A run of the batch program: its standard streams, and what it does to the library.
pub record Process (S : Stdair) : Type 0 where
  pub console : Console
  pub program : Program S

-- `front ()` of a list, which is undefined on the empty one.
abbrev pub front : {A : Type 0} → List A → Result A
front [] = err undefined_behaviour
front (x ∷ xs) = ok x

module _ {S : Stdair} where
  unfoldable pub on_console : {A : Type 0} → Exec Console A → Exec (Process S) A
  on_console m p = let (r, k) = m p.console in (r, record p { console = k })

  unfoldable pub on_program : {A : Type 0} → Exec (Program S) A → Exec (Process S) A
  on_program m p = let (r, s) = m p.program in (r, record p { program = s })

module _ {S : Stdair} (world : World S) where
  module _ (svc : Service) where
    -- The sample objects, or those of the input files.
    unfoldable pub load : Bool → Settings → Exec (Program S) (Unit {0})
    unfolding Bom.build_sample_bom Bom.parse_and_load
    load is_builtin x =
        if is_builtin
        then Bom.build_sample_bom world svc
        else Bom.parse_and_load world svc (record {
          schedule = x schedule;
          ond = x ond;
          frat5 = x frat5;
          ff_disutility = x ff_disutility;
          yield = x yield;
          fare = x fare;
        })

    -- The sale in the first fare option of the chosen travel solution, for a party of three.
    unfoldable pub sell_first_fare : S.TravelSolution → List S.FareOption → Exec (Program S) ℤ
    unfolding Booking.sell Display.csv_display
    sell_first_fare t [] = pure (negsuc 0)
    sell_first_fare t (f ∷ fs) = do
      let chosen = S.set_chosen_fare_option t f
      key ← lift (front (S.get_segment_path chosen))
      sold ← Booking.sell world svc chosen 3
      dump ← Display.csv_display world svc
      pure (pos 0)

    -- From the travel solutions on: prices, and a sale of the first solution.
    unfoldable pub book : S.BookingRequest → List S.TravelSolution → Exec (Program S) ℤ
    unfolding Booking.fare_quote sell_first_fare
    book request [] = pure (negsuc 0)
    book request (t ∷ ts) = do
      priced ← Booking.fare_quote world svc request (t ∷ ts)
      chosen ← lift (front priced)
      sell_first_fare chosen (S.get_fare_option_list chosen)

    -- What the program does with the service.
    unfoldable pub serve : Bool → Settings → Exec (Program S) ℤ
    unfolding load Bom.build_sample_booking_request Booking.calculate_segment_path_list book
    serve is_builtin x = do
      load is_builtin x
      request ← Bom.build_sample_booking_request world svc true
      solutions ← Booking.calculate_segment_path_list world svc request
      book request solutions

  -- After the options. The service is destroyed where `main` returns; nobody catches an exception, and
  -- the program ends without.
  unfoldable pub run : Configuration → Exec (Program S) ℤ
  unfolding construct_owning serve destroy
  run c = do
    svc ← construct_owning world (S.debug_log (c.settings log)) none "1P"
    status ← serve svc c.is_builtin c.settings
    destroy svc
    pure status

  unfoldable pub run_unless_early : Configuration → Exec (Process S) ℤ
  unfolding on_program run
  run_unless_early c = if c.status == early_return_status then pure (pos 0) else on_program (run c)

  -- `main`
  unfoldable pub main :
      ProgramOptions → Build → (args : List String) → (file : Option String) → Exec (Process S) ℤ
  unfolding on_console read_configuration run_unless_early
  main boost build args file = do
    c ← on_console (read_configuration boost build args file)
    run_unless_early c
