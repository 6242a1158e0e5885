-- ===== src/Service.antt =====
-- simcrs/service/SIMCRS_Service.cpp: the service that clients use. This file has its construction
-- and destruction; the children have its operations.
pub mod Bom
pub mod Booking
pub mod Display
pub mod Operation
pub mod Guard
pub mod Policy
pub mod Confined
pub mod Frame
pub mod Safety
pub mod Placement
pub mod Construction
pub mod Constructors
pub mod Finalisation
pub mod Building
pub mod Machine
pub mod Phases
pub mod Unfinished
pub mod Trying
pub mod Whole
pub mod Interleaving
pub mod Separation
pub mod Life
pub mod Equivalence
pub mod Refusal
pub mod Liveness
pub mod Installing
pub mod Making
pub mod Session
pub mod Delegation
use simcrs.Base.{String, Bool, true, false, Option, none, some, is_some, if◌then◌else◌}
use simcrs.Stdair.{Stdair}
use simcrs.Calls.{Handle, World, make_stdair, make_airtsp, make_airinv, make_simfqt}
use simcrs.Exec.{
  ok, err, non_initialised_service, assert, Exec, pure, lift, gets, reads, modify, ◌>>=◌, ◌>>◌,
}
use simcrs.Context.{
  Context, get_stdair_service_ptr, get_sevmgr_service_ptr, get_own_sevmgr_service_flag,
  set_stdair_service, set_sevmgr_service, set_airtsp_service, set_airinv_service,
  set_simfqt_service, reset,
}
use simcrs.Memory.{Memory, Ptr, update, at, live}
use simcrs.Factory.ServiceContext
use simcrs.Program.{Program, ask, in_memory}

-- `_simcrsServiceContext`
pub record Service : Type 0 where
  pub context : Ptr

-- A setter called on the context.
change_context_memory : Service → (Context → Context) → Exec Memory (Unit {0})
change_context_memory svc f = do
  c ← reads (λ m. at m.contexts svc.context)
  a ← reads (λ m. live m.contexts svc.context)
  modify (λ m. record m { contexts = update m.contexts a (some (f c)) })

module _ {S : Stdair} where
  -- The guard at the head of each operation: an exception where there is no context. A context that
  -- was deleted meanwhile is a dangling pointer.
  unfoldable pub initialised_context : Service → Exec (Program S) Context
  unfolding in_memory
  initialised_context svc = do
    lift (if is_some svc.context then ok tt else err non_initialised_service)
    in_memory (reads (λ m. at m.contexts svc.context))

  -- The guard at the head of each construction helper: an assertion.
  unfoldable pub asserted_context : Service → Exec (Program S) Context
  unfolding in_memory
  asserted_context svc = do
    lift (assert (is_some svc.context))
    in_memory (reads (λ m. at m.contexts svc.context))

  unfoldable pub change_context : Service → (Context → Context) → Exec (Program S) (Unit {0})
  unfolding in_memory change_context_memory
  change_context svc f = in_memory (change_context_memory svc f)

  -- `initServiceContext`
  unfoldable pub init_service_context : String → Exec (Program S) Service
  unfolding in_memory
  init_service_context crs_code = do
    factory ← in_memory ServiceContext.get_instance
    context ← in_memory (ServiceContext.create factory crs_code)
    pure (record { context = context })

  -- `addStdAirService`
  unfoldable pub add_stdair_service : Service → Option Handle → Bool → Exec (Program S) (Unit {0})
  unfolding asserted_context change_context set_stdair_service
  add_stdair_service svc h owns = do
    asserted_context svc
    change_context svc (set_stdair_service h owns)

  -- `addSEVMGRService`
  unfoldable pub add_sevmgr_service : Service → Option Handle → Bool → Exec (Program S) (Unit {0})
  unfolding asserted_context change_context set_sevmgr_service
  add_sevmgr_service svc h owns = do
    asserted_context svc
    change_context svc (set_sevmgr_service h owns)

  -- The default constructor and the copy constructor, which are not to be used.
  unfoldable construct_default : Exec (Program S) Service
  construct_default = do lift (assert false); pure (record { context = none })

  unfoldable construct_copy : Service → Exec (Program S) Service
  construct_copy other = do lift (assert false); pure (record { context = none })

  -- `finalise`, which is all that the destructor does
  unfoldable pub finalise : Service → Exec (Program S) (Unit {0})
  unfolding reset
  finalise svc = do asserted_context svc; change_context svc reset

  -- `~SIMCRS_Service`
  unfoldable pub destroy : Service → Exec (Program S) (Unit {0})
  unfolding finalise
  destroy svc = finalise svc

  module _ (world : World S) where
    -- `initStdAirService`, both overloads
    unfoldable pub init_stdair_service : S.LogParams → Option S.DbParams → Exec (Program S) Handle
    unfolding ask
    init_stdair_service log db = ask world (make_stdair log db)

    -- `initAIRTSPService`
    unfoldable pub init_airtsp_service : Service → Exec (Program S) (Unit {0})
    unfolding ask asserted_context change_context get_stdair_service_ptr set_airtsp_service
    init_airtsp_service svc = do
      c ← asserted_context svc
      h ← ask world (make_airtsp (get_stdair_service_ptr c))
      change_context svc (set_airtsp_service (some h))

    -- `initSIMFQTService`
    unfoldable pub init_simfqt_service : Service → Exec (Program S) (Unit {0})
    unfolding ask asserted_context change_context get_stdair_service_ptr set_simfqt_service
    init_simfqt_service svc = do
      c ← asserted_context svc
      h ← ask world (make_simfqt (get_stdair_service_ptr c))
      change_context svc (set_simfqt_service (some h))

    -- The service object that `initAIRINVService` makes, over the event manager unless the service
    -- owns that one.
    unfoldable pub make_airinv_service : Context → Exec (Program S) Handle
    unfolding ask get_stdair_service_ptr get_sevmgr_service_ptr get_own_sevmgr_service_flag
    make_airinv_service c =
        if get_own_sevmgr_service_flag c
        then ask world (make_airinv (get_stdair_service_ptr c) none)
        else do
          lift (assert (is_some (get_sevmgr_service_ptr c)))
          ask world (make_airinv (get_stdair_service_ptr c) (get_sevmgr_service_ptr c))

    -- `initAIRINVService`
    unfoldable pub init_airinv_service : Service → Exec (Program S) (Unit {0})
    unfolding make_airinv_service asserted_context change_context set_airinv_service
    init_airinv_service svc = do
      c ← asserted_context svc
      h ← make_airinv_service c
      change_context svc (set_airinv_service (some h))

    -- The three components that each constructor makes in turn; `initSimcrsService` does nothing.
    unfoldable pub init_components : Service → Exec (Program S) Service
    unfolding init_simfqt_service init_airtsp_service init_airinv_service
    init_components svc = do
      init_simfqt_service svc
      init_airtsp_service svc
      init_airinv_service svc
      pure svc

    -- The constructors with log parameters, with a database and without: StdAir is made and owned.
    unfoldable pub construct_owning :
        S.LogParams → Option S.DbParams → String → Exec (Program S) Service
    unfolding init_stdair_service init_service_context add_stdair_service init_components
    construct_owning log db crs_code = do
      h ← init_stdair_service log db
      svc ← init_service_context crs_code
      add_stdair_service svc (some h) true
      init_components svc

    -- The constructor over a StdAir and a SEvMgr service of someone else's.
    unfoldable pub construct_borrowing :
        Option Handle → Option Handle → String → Exec (Program S) Service
    unfolding init_service_context add_stdair_service add_sevmgr_service init_components
    construct_borrowing stdair_service sevmgr_service crs_code = do
      svc ← init_service_context crs_code
      add_stdair_service svc stdair_service false
      add_sevmgr_service svc sevmgr_service false
      init_components svc
