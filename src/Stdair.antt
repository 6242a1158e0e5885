-- ===== src/Stdair.antt =====
-- The types of the StdAir library that SimCRS handles, and the accessors that it calls on them.
-- StdAir is not part of the repository: all of this is a parameter of the model.
use simcrs.Base.{ℕ, String, List}

pub record Stdair : Type 1 where
  pub LogParams : Type 0
  pub DbParams : Type 0
  pub Date : Type 0
  pub BomRoot : Type 0
  pub BookingRequest : Type 0
  pub TravelSolution : Type 0
  pub FareOption : Type 0
  pub Cancellation : Type 0
  pub Snapshot : Type 0
  pub RmEvent : Type 0
  pub BookingClassId : Type 0
  -- `TravelSolutionStruct`; a `ClassObjectIDMap_T` is a `std::map` from class codes
  pub get_class_object_id_map_holder : TravelSolution → List (List (String × BookingClassId))
  pub get_segment_path : TravelSolution → List String
  pub get_fare_option_list : TravelSolution → List FareOption
  pub set_chosen_fare_option : TravelSolution → FareOption → TravelSolution
  pub get_chosen_fare_option : TravelSolution → FareOption
  -- `FareOptionStruct`
  pub get_class_path : FareOption → List String
  -- `CancellationStruct`
  pub get_party_size : Cancellation → ℕ
  pub get_class_id_list : Cancellation → List BookingClassId
  -- `BasLogParams (LOG::DEBUG, stream)`, the stream by its file name
  pub debug_log : String → LogParams
