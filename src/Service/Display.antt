-- ===== src/Service/Display.antt =====
-- simcrs/service/SIMCRS_Service.cpp: the operations that export or display what a component holds.
use simcrs.Base.{ℕ, String, List}
use simcrs.Stdair.{Stdair}
use simcrs.Calls.{World, stdair, airinv, StdairCall, AirinvCall}
use simcrs.Exec.{Exec, lift, ◌>>=◌}
use simcrs.Context.{get_stdair_service, get_airinv_service}
use simcrs.Program.{Program, ask}
use simcrs.Service.{Service, initialised_context}

module _ {S : Stdair} (world : World S) (svc : Service) where
  -- `jsonHandler`
  unfoldable pub json_handler : String → Exec (Program S) String
  unfolding initialised_context ask get_airinv_service
  json_handler json = do
    c ← initialised_context svc
    inv ← lift (get_airinv_service c)
    ask world (airinv inv (AirinvCall.json_handler json))

  -- `csvDisplay` of the whole tree
  unfoldable pub csv_display : Exec (Program S) String
  unfolding initialised_context ask get_stdair_service
  csv_display = do
    c ← initialised_context svc
    h ← lift (get_stdair_service c)
    root ← ask world (stdair h StdairCall.get_bom_root)
    ask world (stdair h (StdairCall.csv_display_root root))

  -- `csvDisplay` of travel solutions
  unfoldable pub csv_display_solutions : List S.TravelSolution → Exec (Program S) String
  unfolding initialised_context ask get_stdair_service
  csv_display_solutions solutions = do
    c ← initialised_context svc
    h ← lift (get_stdair_service c)
    ask world (stdair h (StdairCall.csv_display_solutions solutions))

  -- `csvDisplay` of one flight-date
  unfoldable pub csv_display_flight : String → ℕ → S.Date → Exec (Program S) String
  unfolding initialised_context ask get_airinv_service
  csv_display_flight airline flight date = do
    c ← initialised_context svc
    inv ← lift (get_airinv_service c)
    ask world (airinv inv (AirinvCall.csv_display airline flight date))

  -- `list`
  unfoldable pub list_flights : String → ℕ → Exec (Program S) String
  unfolding initialised_context ask get_airinv_service
  list_flights airline flight = do
    c ← initialised_context svc
    inv ← lift (get_airinv_service c)
    ask world (airinv inv (AirinvCall.list_flights airline flight))
