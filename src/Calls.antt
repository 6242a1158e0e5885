-- ===== src/Calls.antt =====
-- The calls that SimCRS makes of the other components (StdAir, AirTSP, AirInv, SimFQT), what each
-- hands back, and the components as a parameter: an answer for each call after each history.
use simcrs.Base.{ℕ, String, Bool, Option, List, ◌≡◌, refl, ◌⊎◌, inl, inr}
use simcrs.Stdair.{Stdair}

-- The identity of a service object that a smart pointer holds.
abbrev pub Handle : Type 0
Handle = ℕ

pub data StdairCall (S : Stdair) : Type 0 where
  get_bom_root get_persistent_bom_root : StdairCall S
  build_sample_bom clone_persistent_bom : StdairCall S
  build_sample_travel_solutions : List S.TravelSolution → StdairCall S
  build_sample_booking_request : (is_for_crs : Bool) → StdairCall S
  csv_display_root : S.BomRoot → StdairCall S
  csv_display_solutions : List S.TravelSolution → StdairCall S

pub data AirtspCall (S : Stdair) : Type 0 where
  parse_and_load : (schedule : String) → AirtspCall S
  build_sample_bom clone_persistent_bom : AirtspCall S
  build_segment_path_list : List S.TravelSolution → S.BookingRequest → AirtspCall S

pub data AirinvCall (S : Stdair) : Type 0 where
  parse_and_load : (schedule ond frat5 ff_disutility yield : String) → AirinvCall S
  build_sample_bom clone_persistent_bom : AirinvCall S
  sell_segment : (segment_date_key class_code : String) (party_size : ℕ) → AirinvCall S
  sell_class : S.BookingClassId → (party_size : ℕ) → AirinvCall S
  cancel : S.BookingClassId → (party_size : ℕ) → AirinvCall S
  calculate_availability : S.TravelSolution → AirinvCall S
  json_handler : String → AirinvCall S
  init_snapshot_and_rm_events : (start end : S.Date) → AirinvCall S
  list_flights : (airline_code : String) (flight_number : ℕ) → AirinvCall S
  csv_display : (airline_code : String) (flight_number : ℕ) → S.Date → AirinvCall S
  take_snapshots : S.Snapshot → AirinvCall S
  optimise : S.RmEvent → AirinvCall S

pub data SimfqtCall (S : Stdair) : Type 0 where
  parse_and_load : (fare : String) → SimfqtCall S
  build_sample_bom clone_persistent_bom : SimfqtCall S
  quote_prices : S.BookingRequest → List S.TravelSolution → SimfqtCall S

-- A call of a method on a service object, or a `boost::make_shared` of one.
pub data Call (S : Stdair) : Type 0 where
  make_stdair : S.LogParams → Option S.DbParams → Call S
  make_airtsp make_simfqt : (stdair_service : Option Handle) → Call S
  make_airinv : (stdair_service sevmgr_service : Option Handle) → Call S
  stdair : Handle → StdairCall S → Call S
  airtsp : Handle → AirtspCall S → Call S
  airinv : Handle → AirinvCall S → Call S
  simfqt : Handle → SimfqtCall S → Call S

abbrev StdairReply : {S : Stdair} → StdairCall S → Type 0
StdairReply {S} StdairCall.get_bom_root = S.BomRoot
StdairReply {S} StdairCall.get_persistent_bom_root = S.BomRoot
StdairReply {S} (StdairCall.build_sample_travel_solutions _) = List S.TravelSolution
StdairReply {S} (StdairCall.build_sample_booking_request _) = S.BookingRequest
StdairReply {S} (StdairCall.csv_display_root _) = String
StdairReply {S} (StdairCall.csv_display_solutions _) = String
StdairReply {S} _ = Unit {0}

-- A list that the method changes in place comes back as its reply.
abbrev AirtspReply : {S : Stdair} → AirtspCall S → Type 0
AirtspReply {S} (AirtspCall.build_segment_path_list _ _) = List S.TravelSolution
AirtspReply {S} _ = Unit {0}

abbrev AirinvReply : {S : Stdair} → AirinvCall S → Type 0
AirinvReply {S} (AirinvCall.sell_segment _ _ _) = Bool
AirinvReply {S} (AirinvCall.sell_class _ _) = Bool
AirinvReply {S} (AirinvCall.cancel _ _) = Bool
AirinvReply {S} (AirinvCall.calculate_availability _) = S.TravelSolution
AirinvReply {S} (AirinvCall.json_handler _) = String
AirinvReply {S} (AirinvCall.list_flights _ _) = String
AirinvReply {S} (AirinvCall.csv_display _ _ _) = String
AirinvReply {S} _ = Unit {0}

abbrev SimfqtReply : {S : Stdair} → SimfqtCall S → Type 0
SimfqtReply {S} (SimfqtCall.quote_prices _ _) = List S.TravelSolution
SimfqtReply {S} _ = Unit {0}

abbrev pub Reply : {S : Stdair} → Call S → Type 0
Reply (make_stdair _ _) = Handle
Reply (make_airtsp _) = Handle
Reply (make_simfqt _) = Handle
Reply (make_airinv _ _) = Handle
Reply (stdair _ c) = StdairReply c
Reply (airtsp _ c) = AirtspReply c
Reply (airinv _ c) = AirinvReply c
Reply (simfqt _ c) = SimfqtReply c

-- A component replies, or lets an exception out.
pub data Answer (A : Type 0) : Type 0 where
  replies : A → Answer A
  raises : (what : String) → Answer A

pub Answer-cases :
    {A : Type 0} (a : Answer A)
    → ((x : A) × (a ≡ replies x)) ⊎ ((what : String) × (a ≡ raises what))
Answer-cases (replies x) = inl (x, refl)
Answer-cases (raises what) = inr (what, refl)

-- The components. What one answers may depend on all the calls before.
abbrev pub World : Stdair → Type 0
World S = List (Call S) → (c : Call S) → Answer (Reply c)
