-- ===== src/Service/Booking.antt =====
-- simcrs/service/SIMCRS_Service.cpp: travel solutions, fares, availability, sales, cancellations and
-- revenue-management events. Chronometers and log lines are left out.
use simcrs.Base.{ℕ, String, Bool, List, []}
use simcrs.Stdair.{Stdair}
use simcrs.Calls.{World, airtsp, airinv, simfqt, AirtspCall, AirinvCall, SimfqtCall}
use simcrs.Exec.{Exec, lift, ◌>>=◌}
use simcrs.Context.{get_airtsp_service, get_airinv_service, get_simfqt_service}
use simcrs.Program.{Program, ask}
use simcrs.Distribution
use simcrs.Service.{Service, initialised_context}

module _ {S : Stdair} (world : World S) (svc : Service) where
  -- `sell` on one segment and class
  unfoldable pub sell_segment : String → String → ℕ → Exec (Program S) Bool
  unfolding initialised_context ask get_airinv_service
  sell_segment key class_code party_size = do
    c ← initialised_context svc
    inv ← lift (get_airinv_service c)
    ask world (airinv inv (AirinvCall.sell_segment key class_code party_size))

  -- `sell` on a travel solution
  unfoldable pub sell : S.TravelSolution → ℕ → Exec (Program S) Bool
  unfolding initialised_context get_airinv_service
  sell solution party_size = do
    c ← initialised_context svc
    inv ← lift (get_airinv_service c)
    Distribution.sell world inv solution party_size

  -- `playCancellation`
  unfoldable pub play_cancellation : S.Cancellation → Exec (Program S) Bool
  unfolding initialised_context get_airinv_service
  play_cancellation cancellation = do
    c ← initialised_context svc
    inv ← lift (get_airinv_service c)
    Distribution.play_cancellation world inv cancellation

  -- `calculateAvailability`
  unfoldable pub calculate_availability :
      List S.TravelSolution → Exec (Program S) (List S.TravelSolution)
  unfolding initialised_context get_airinv_service
  calculate_availability solutions = do
    c ← initialised_context svc
    inv ← lift (get_airinv_service c)
    Distribution.calculate_availability world inv solutions

  -- `calculateSegmentPathList`
  unfoldable pub calculate_segment_path_list :
      S.BookingRequest → Exec (Program S) (List S.TravelSolution)
  unfolding initialised_context ask get_airtsp_service
  calculate_segment_path_list request = do
    c ← initialised_context svc
    tsp ← lift (get_airtsp_service c)
    ask world (airtsp tsp (AirtspCall.build_segment_path_list [] request))

  -- `fareQuote`; the list as it is left
  unfoldable pub fare_quote :
      S.BookingRequest → List S.TravelSolution → Exec (Program S) (List S.TravelSolution)
  unfolding initialised_context ask get_simfqt_service
  fare_quote request solutions = do
    c ← initialised_context svc
    fqt ← lift (get_simfqt_service c)
    ask world (simfqt fqt (SimfqtCall.quote_prices request solutions))

  -- `initSnapshotAndRMEvents`
  unfoldable pub init_snapshot_and_rm_events : S.Date → S.Date → Exec (Program S) (Unit {0})
  unfolding initialised_context ask get_airinv_service
  init_snapshot_and_rm_events start end = do
    c ← initialised_context svc
    inv ← lift (get_airinv_service c)
    ask world (airinv inv (AirinvCall.init_snapshot_and_rm_events start end))

  -- `takeSnapshots`
  unfoldable pub take_snapshots : S.Snapshot → Exec (Program S) (Unit {0})
  unfolding initialised_context ask get_airinv_service
  take_snapshots snapshot = do
    c ← initialised_context svc
    inv ← lift (get_airinv_service c)
    ask world (airinv inv (AirinvCall.take_snapshots snapshot))

  -- `optimise`
  unfoldable pub optimise : S.RmEvent → Exec (Program S) (Unit {0})
  unfolding initialised_context ask get_airinv_service
  optimise event = do
    c ← initialised_context svc
    inv ← lift (get_airinv_service c)
    ask world (airinv inv (AirinvCall.optimise event))
