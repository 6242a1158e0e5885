-- ===== src/Service/Delegation.antt =====
-- What each public method of a service comes to.
use simcrs.Base.{[], ◌≡◌, arith}
use simcrs.Stdair.{Stdair}
use simcrs.Calls.{
  World, stdair, airtsp, airinv, simfqt, StdairCall, AirtspCall, AirinvCall, SimfqtCall,
}
use simcrs.Exec.{ok, Exec, ◌>>=◌}
use simcrs.Context.{
  Context, get_stdair_service, get_airtsp_service, get_airinv_service, get_simfqt_service,
}
use simcrs.Memory.{at}
use simcrs.Program.{Program, ask}
use simcrs.Distribution
use simcrs.Program.Attempt.{attempt}
use simcrs.Service.{Service, initialised_context}
use simcrs.Service.Bom
use simcrs.Service.Booking
use simcrs.Service.Display
use simcrs.Service.Building.{
  Components, Serves, cloning, building, loading, clone_persistent_bom-Traces,
  build_sample_bom-Traces, parse_and_load-Traces,
}
use simcrs.Service.Operation.{Operation, Returned, perform}

module _ {S : Stdair} (world : World S) (k : Components) where
  -- What each public method is for: one call, where the list of AirTSP starts empty, a loop of the
  -- distribution manager over AirInv, calls in a row up to the first exception, or the root's export.
  abbrev pub delegated : (op : Operation S) → Exec (Program S) (Returned op)
  delegated (Operation.build_sample_travel_solutions ts) =
      ask world (stdair k.std (StdairCall.build_sample_travel_solutions ts))
  delegated (Operation.build_sample_booking_request crs) =
      ask world (stdair k.std (StdairCall.build_sample_booking_request crs))
  delegated (Operation.init_snapshot_and_rm_events start end) =
      ask world (airinv k.inv (AirinvCall.init_snapshot_and_rm_events start end))
  delegated (Operation.calculate_segment_path_list r) =
      ask world (airtsp k.tsp (AirtspCall.build_segment_path_list [] r))
  delegated (Operation.fare_quote r ts) = ask world (simfqt k.fqt (SimfqtCall.quote_prices r ts))
  delegated (Operation.sell_segment key code n) =
      ask world (airinv k.inv (AirinvCall.sell_segment key code n))
  delegated (Operation.take_snapshots t) = ask world (airinv k.inv (AirinvCall.take_snapshots t))
  delegated (Operation.optimise e) = ask world (airinv k.inv (AirinvCall.optimise e))
  delegated (Operation.json_handler json) = ask world (airinv k.inv (AirinvCall.json_handler json))
  delegated (Operation.csv_display_solutions ts) =
      ask world (stdair k.std (StdairCall.csv_display_solutions ts))
  delegated (Operation.csv_display_flight a n d) =
      ask world (airinv k.inv (AirinvCall.csv_display a n d))
  delegated (Operation.list_flights a n) = ask world (airinv k.inv (AirinvCall.list_flights a n))
  delegated (Operation.calculate_availability ts) =
      Distribution.calculate_availability world k.inv ts
  delegated (Operation.sell t n) = Distribution.sell world k.inv t n
  delegated (Operation.play_cancellation x) = Distribution.play_cancellation world k.inv x
  delegated (Operation.parse_and_load files) = attempt world (loading k files)
  delegated Operation.build_sample_bom = attempt world (building k)
  delegated Operation.clone_persistent_bom = attempt world (cloning k)
  delegated Operation.csv_display = do
    root ← ask world (stdair k.std StdairCall.get_bom_root)
    ask world (stdair k.std (StdairCall.csv_display_root root))

  -- On a service whose context has the components `k`, each public method does what `delegated` says,
  -- whatever the components answer, and nothing else. Twelve are one call of one component; a sale, a
  -- cancellation and an availability are a loop of the distribution manager over the AirInv of `k`; to
  -- load, to build and to clone are calls in a row, up to the first that raises an exception, which
  -- comes out; the export is that of the root that StdAir returns.
  pub perform-delegated :
      (svc : Service) (c : Context) (op : Operation S) (s : Program S)
      → at s.memory.contexts svc.context ≡ ok c
      → Serves c k
      → perform world svc op s ≡ delegated op s
  unfolding perform Display.csv_display initialised_context get_stdair_service get_airtsp_service
      get_airinv_service get_simfqt_service ask ◌>>=◌ Bom.build_sample_travel_solutions
      Bom.build_sample_booking_request Booking.init_snapshot_and_rm_events
      Booking.calculate_segment_path_list Booking.fare_quote Booking.sell_segment Booking.sell
      Booking.play_cancellation Booking.calculate_availability Booking.take_snapshots
      Booking.optimise Display.json_handler Display.csv_display_solutions Display.csv_display_flight
      Display.list_flights
  perform-delegated svc c (Operation.parse_and_load files) s here has =
      (parse_and_load-Traces world svc c has files).run s here
  perform-delegated svc c Operation.build_sample_bom s here has =
      (build_sample_bom-Traces world svc c has).run s here
  perform-delegated svc c Operation.clone_persistent_bom s here has =
      (clone_persistent_bom-Traces world svc c has).run s here
  perform-delegated svc c _ s here has =
      ground (arith, here, has.stdair_there, has.airtsp_there, has.airinv_there, has.simfqt_there)
