-- ===== src/Service/Operation.antt =====
-- simcrs/SIMCRS_Service.hpp: the public methods behind the guard on the context, as a data type, so
-- that what holds of all of them is one statement.
use simcrs.Base.{ℕ, String, Bool, List}
use simcrs.Stdair.{Stdair}
use simcrs.Calls.{World}
use simcrs.Exec.{Exec}
use simcrs.Program.{Program}
use simcrs.Service.{Service}
use simcrs.Service.Bom
use simcrs.Service.Bom.{InputFiles}
use simcrs.Service.Booking
use simcrs.Service.Display

pub data Operation (S : Stdair) : Type 0 where
  parse_and_load : InputFiles → Operation S
  build_sample_bom clone_persistent_bom csv_display : Operation S
  build_sample_travel_solutions : List S.TravelSolution → Operation S
  build_sample_booking_request : Bool → Operation S
  init_snapshot_and_rm_events : S.Date → S.Date → Operation S
  calculate_segment_path_list : S.BookingRequest → Operation S
  fare_quote : S.BookingRequest → List S.TravelSolution → Operation S
  calculate_availability : List S.TravelSolution → Operation S
  sell : S.TravelSolution → ℕ → Operation S
  sell_segment : String → String → ℕ → Operation S
  play_cancellation : S.Cancellation → Operation S
  take_snapshots : S.Snapshot → Operation S
  optimise : S.RmEvent → Operation S
  json_handler : String → Operation S
  csv_display_solutions : List S.TravelSolution → Operation S
  csv_display_flight : String → ℕ → S.Date → Operation S
  list_flights : String → ℕ → Operation S

-- What each method returns, a list that it changes in place included.
abbrev pub Returned : {S : Stdair} → Operation S → Type 0
Returned {S} (build_sample_travel_solutions _) = List S.TravelSolution
Returned {S} (build_sample_booking_request _) = S.BookingRequest
Returned {S} (calculate_segment_path_list _) = List S.TravelSolution
Returned {S} (fare_quote _ _) = List S.TravelSolution
Returned {S} (calculate_availability _) = List S.TravelSolution
Returned {S} (sell _ _) = Bool
Returned {S} (sell_segment _ _ _) = Bool
Returned {S} (play_cancellation _) = Bool
Returned {S} (json_handler _) = String
Returned {S} csv_display = String
Returned {S} (csv_display_solutions _) = String
Returned {S} (csv_display_flight _ _ _) = String
Returned {S} (list_flights _ _) = String
Returned {S} _ = Unit {0}

module _ {S : Stdair} (world : World S) (svc : Service) where
  unfoldable pub perform : (op : Operation S) → Exec (Program S) (Returned op)
  perform (parse_and_load files) = Bom.parse_and_load world svc files
  perform build_sample_bom = Bom.build_sample_bom world svc
  perform clone_persistent_bom = Bom.clone_persistent_bom world svc
  perform (build_sample_travel_solutions ts) = Bom.build_sample_travel_solutions world svc ts
  perform (build_sample_booking_request crs) = Bom.build_sample_booking_request world svc crs
  perform (init_snapshot_and_rm_events start end) =
      Booking.init_snapshot_and_rm_events world svc start end
  perform (calculate_segment_path_list r) = Booking.calculate_segment_path_list world svc r
  perform (fare_quote r ts) = Booking.fare_quote world svc r ts
  perform (calculate_availability ts) = Booking.calculate_availability world svc ts
  perform (sell t n) = Booking.sell world svc t n
  perform (sell_segment key code n) = Booking.sell_segment world svc key code n
  perform (play_cancellation c) = Booking.play_cancellation world svc c
  perform (take_snapshots s) = Booking.take_snapshots world svc s
  perform (optimise e) = Booking.optimise world svc e
  perform (json_handler json) = Display.json_handler world svc json
  perform csv_display = Display.csv_display world svc
  perform (csv_display_solutions ts) = Display.csv_display_solutions world svc ts
  perform (csv_display_flight a n d) = Display.csv_display_flight world svc a n d
  perform (list_flights a n) = Display.list_flights world svc a n
