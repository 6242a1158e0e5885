-- ===== src/Service/Bom.antt =====
-- simcrs/service/SIMCRS_Service.cpp: the operations that build, load and clone the business objects
-- of all components.
use simcrs.Base.{String, Bool, List}
use simcrs.Stdair.{Stdair}
use simcrs.Calls.{
  World, stdair, airtsp, airinv, simfqt, StdairCall, AirtspCall, AirinvCall, SimfqtCall,
}
use simcrs.Exec.{Exec, pure, lift, when, ◌>>=◌, ◌>>◌}
use simcrs.Context.{
  get_own_stdair_service_flag, get_stdair_service, get_airtsp_service, get_airinv_service,
  get_simfqt_service,
}
use simcrs.Program.{Program, ask}
use simcrs.Service.{Service, initialised_context}

-- The paths that `parseAndLoad` takes, in the order of its parameters.
pub record InputFiles : Type 0 where
  pub schedule : String
  pub ond : String
  pub frat5 : String
  pub ff_disutility : String
  pub yield : String
  pub fare : String

-- `buildComplementaryLinks`: nothing to do
unfoldable pub build_complementary_links : {S : Stdair} → S.BomRoot → Exec (Program S) (Unit {0})
build_complementary_links root = pure tt

module _ {S : Stdair} (world : World S) where
  -- `clonePersistentBom`
  unfoldable pub clone_persistent_bom : Service → Exec (Program S) (Unit {0})
  unfolding initialised_context ask build_complementary_links get_own_stdair_service_flag
      get_stdair_service get_airtsp_service get_airinv_service get_simfqt_service
  clone_persistent_bom svc = do
    c ← initialised_context svc
    owns ← lift (get_own_stdair_service_flag c)
    h ← lift (get_stdair_service c)
    when owns (ask world (stdair h StdairCall.clone_persistent_bom))
    tsp ← lift (get_airtsp_service c)
    ask world (airtsp tsp AirtspCall.clone_persistent_bom)
    inv ← lift (get_airinv_service c)
    ask world (airinv inv AirinvCall.clone_persistent_bom)
    fqt ← lift (get_simfqt_service c)
    ask world (simfqt fqt SimfqtCall.clone_persistent_bom)
    root ← ask world (stdair h StdairCall.get_bom_root)
    build_complementary_links root

  -- `parseAndLoad`
  unfoldable pub parse_and_load : Service → InputFiles → Exec (Program S) (Unit {0})
  unfolding clone_persistent_bom
  parse_and_load svc f = do
    c ← initialised_context svc
    owns ← lift (get_own_stdair_service_flag c)
    h ← lift (get_stdair_service c)
    root ← ask world (stdair h StdairCall.get_persistent_bom_root)
    tsp ← lift (get_airtsp_service c)
    ask world (airtsp tsp (AirtspCall.parse_and_load f.schedule))
    inv ← lift (get_airinv_service c)
    ask world
        (airinv inv (AirinvCall.parse_and_load f.schedule f.ond f.frat5 f.ff_disutility f.yield))
    fqt ← lift (get_simfqt_service c)
    ask world (simfqt fqt (SimfqtCall.parse_and_load f.fare))
    build_complementary_links root
    when owns (clone_persistent_bom svc)

  -- `buildSampleBom`
  unfoldable pub build_sample_bom : Service → Exec (Program S) (Unit {0})
  unfolding clone_persistent_bom
  build_sample_bom svc = do
    c ← initialised_context svc
    owns ← lift (get_own_stdair_service_flag c)
    h ← lift (get_stdair_service c)
    root ← ask world (stdair h StdairCall.get_persistent_bom_root)
    when owns (ask world (stdair h StdairCall.build_sample_bom))
    tsp ← lift (get_airtsp_service c)
    ask world (airtsp tsp AirtspCall.build_sample_bom)
    inv ← lift (get_airinv_service c)
    ask world (airinv inv AirinvCall.build_sample_bom)
    fqt ← lift (get_simfqt_service c)
    ask world (simfqt fqt SimfqtCall.build_sample_bom)
    build_complementary_links root
    when owns (clone_persistent_bom svc)

  -- `buildSampleTravelSolutions`; the list as it is left
  unfoldable pub build_sample_travel_solutions :
      Service → List S.TravelSolution → Exec (Program S) (List S.TravelSolution)
  unfolding initialised_context ask get_stdair_service
  build_sample_travel_solutions svc solutions = do
    c ← initialised_context svc
    h ← lift (get_stdair_service c)
    ask world (stdair h (StdairCall.build_sample_travel_solutions solutions))

  -- `buildSampleBookingRequest`
  unfoldable pub build_sample_booking_request : Service → Bool → Exec (Program S) S.BookingRequest
  unfolding initialised_context ask get_stdair_service
  build_sample_booking_request svc is_for_crs = do
    c ← initialised_context svc
    h ← lift (get_stdair_service c)
    ask world (stdair h (StdairCall.build_sample_booking_request is_for_crs))
