-- ===== src/Tests.antt =====
-- A small inventory that answers the calls of SimCRS; the children run the program over it.
pub mod Selling
pub mod Lifecycle
pub mod Phases
pub mod Unfinished
pub mod Whole
pub mod Interleaving
pub mod Building
pub mod Boost
pub mod Batch
pub mod CommandLine
pub mod Factories
pub mod Text
use simcrs.Base.{ℕ, String, Bool, true, List, [], ◌==◌, if◌then◌else◌, length}
use simcrs.Stdair.{Stdair}
use simcrs.Calls.{
  World, Answer, replies, raises, make_stdair, make_airtsp, make_airinv, make_simfqt, stdair,
  airtsp, airinv, simfqt, StdairCall, AirtspCall, AirinvCall, SimfqtCall,
}
use simcrs.Memory.{empty_memory}
use simcrs.Program.{Program}

-- A travel solution by its class maps, its segments, its fare options and the one that is chosen, each
-- by its class path.
pub record Solution : Type 0 where
  pub class_maps : List (List (String × ℕ))
  pub segments : List String
  pub fares : List (List String)
  pub chosen : List String

pub record Request : Type 0 where
  pub party_size : ℕ
  pub classes : List ℕ

abbrev pub sample : Stdair
sample = record {
  LogParams = String;
  DbParams = String;
  Date = ℕ;
  BomRoot = ℕ;
  BookingRequest = String;
  TravelSolution = Solution;
  FareOption = List String;
  Cancellation = Request;
  Snapshot = ℕ;
  RmEvent = ℕ;
  BookingClassId = ℕ;
  get_class_object_id_map_holder = λ t. t.class_maps;
  get_segment_path = λ t. t.segments;
  get_fare_option_list = λ t. t.fares;
  set_chosen_fare_option = λ t f. record t { chosen = f };
  get_chosen_fare_option = λ t. t.chosen;
  get_class_path = λ f. f;
  get_party_size = λ c. c.party_size;
  get_class_id_list = λ c. c.classes;
  debug_log = λ file. file;
}

-- Class 1 is for sale, class 9 has a broken inventory, and there are no seats in the others.
abbrev seats : ℕ → Answer Bool
seats id = if id == 9 then raises "inventory" else replies (id == 1)

abbrev pub answers : World sample
answers h (make_stdair _ _) = replies (length h)
answers h (make_airtsp _) = replies (length h)
answers h (make_airinv _ _) = replies (length h)
answers h (make_simfqt _) = replies (length h)
answers h (stdair _ StdairCall.get_bom_root) = replies 0
answers h (stdair _ StdairCall.get_persistent_bom_root) = replies 0
answers h (stdair _ StdairCall.build_sample_bom) = replies tt
answers h (stdair _ StdairCall.clone_persistent_bom) = replies tt
answers h (stdair _ (StdairCall.build_sample_travel_solutions ts)) = replies ts
answers h (stdair _ (StdairCall.build_sample_booking_request _)) = replies "SIN-BKK"
answers h (stdair _ (StdairCall.csv_display_root _)) = replies "root"
answers h (stdair _ (StdairCall.csv_display_solutions _)) = replies "solutions"
answers h (airtsp _ (AirtspCall.build_segment_path_list ts _)) = replies ts
answers h (airtsp _ (AirtspCall.parse_and_load _)) = replies tt
answers h (airtsp _ AirtspCall.build_sample_bom) = replies tt
answers h (airtsp _ AirtspCall.clone_persistent_bom) = replies tt
answers h (airinv _ (AirinvCall.parse_and_load _ _ _ _ _)) = replies tt
answers h (airinv _ AirinvCall.build_sample_bom) = replies tt
answers h (airinv _ AirinvCall.clone_persistent_bom) = replies tt
answers h (airinv _ (AirinvCall.sell_segment _ _ _)) = replies true
answers h (airinv _ (AirinvCall.sell_class id _)) = seats id
answers h (airinv _ (AirinvCall.cancel id _)) = seats id
answers h (airinv _ (AirinvCall.calculate_availability t)) = replies t
answers h (airinv _ (AirinvCall.json_handler _)) = replies "json"
answers h (airinv _ (AirinvCall.init_snapshot_and_rm_events _ _)) = replies tt
answers h (airinv _ (AirinvCall.list_flights _ _)) = replies "flights"
answers h (airinv _ (AirinvCall.csv_display _ _ _)) = replies "csv"
answers h (airinv _ (AirinvCall.take_snapshots _)) = replies tt
answers h (airinv _ (AirinvCall.optimise _)) = replies tt
answers h (simfqt _ (SimfqtCall.quote_prices _ ts)) = replies ts
answers h (simfqt _ (SimfqtCall.parse_and_load _)) = replies tt
answers h (simfqt _ SimfqtCall.build_sample_bom) = replies tt
answers h (simfqt _ SimfqtCall.clone_persistent_bom) = replies tt

-- A program that has just started.
abbrev pub start : Program sample
start = record { memory = empty_memory; history = [] }
