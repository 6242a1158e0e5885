-- ===== src/Context.antt =====
-- simcrs/service/SIMCRS_ServiceContext.hpp and .cpp: the context of a service, which holds a smart
-- pointer on each component. `none` is the NULL pointer.
use Prim.Native.String.{◌++◌ as ◌<>◌}
use simcrs.Base.{String, Bool, true, false, Option, none, some, if◌then◌else◌}
use simcrs.Calls.{Handle}
use simcrs.Exec.{Result, ok, err, assertion_failed, undefined_behaviour}

pub record Context : Type 0 where
  pub stdair_service : Option Handle
  -- `none` where the constructor leaves the member uninitialised
  pub own_stdair_service : Option Bool
  pub sevmgr_service : Option Handle
  pub own_sevmgr_service : Bool
  pub airtsp_service : Option Handle
  pub airinv_service : Option Handle
  pub simfqt_service : Option Handle
  pub crs_code : String

abbrev pub default_crs_code : String
default_crs_code = "1S"

-- The main constructor, which does not initialise `_ownStdairService`.
unfoldable pub new_context : String → Context
new_context crs_code = record {
  stdair_service = none;
  own_stdair_service = none;
  sevmgr_service = none;
  own_sevmgr_service = true;
  airtsp_service = none;
  airinv_service = none;
  simfqt_service = none;
  crs_code = crs_code;
}

-- The default constructor and the copy constructor, "not to be used". The copy is of nothing.
unfoldable pub default_context : Context
unfolding new_context
default_context = record (new_context default_crs_code) { own_stdair_service = some false }

unfoldable pub copy_context : Context → Context
unfolding new_context
copy_context _ = record (new_context "") { own_stdair_service = some false }

-- A pointer that is dereferenced behind `assert (p != NULL)`.
abbrev not_null : {A : Type 0} → Option A → Result A
not_null none = err assertion_failed
not_null (some a) = ok a

-- A member that is read; to read an uninitialised one is undefined.
abbrev initialised : Option Bool → Result Bool
initialised none = err undefined_behaviour
initialised (some b) = ok b

module _ (c : Context) where
  unfoldable pub get_crs_code : String
  get_crs_code = c.crs_code

  unfoldable pub get_stdair_service_ptr : Option Handle
  get_stdair_service_ptr = c.stdair_service

  unfoldable pub get_stdair_service : Result Handle
  get_stdair_service = not_null c.stdair_service

  unfoldable pub get_own_stdair_service_flag : Result Bool
  get_own_stdair_service_flag = initialised c.own_stdair_service

  unfoldable pub get_sevmgr_service_ptr : Option Handle
  get_sevmgr_service_ptr = c.sevmgr_service

  unfoldable pub get_sevmgr_service : Result Handle
  get_sevmgr_service = not_null c.sevmgr_service

  unfoldable pub get_own_sevmgr_service_flag : Bool
  get_own_sevmgr_service_flag = c.own_sevmgr_service

  unfoldable pub get_airinv_service : Result Handle
  get_airinv_service = not_null c.airinv_service

  unfoldable pub get_airtsp_service : Result Handle
  get_airtsp_service = not_null c.airtsp_service

  unfoldable pub get_simfqt_service : Result Handle
  get_simfqt_service = not_null c.simfqt_service

unfoldable pub set_crs_code : String → Context → Context
set_crs_code code c = record c { crs_code = code }

unfoldable pub set_stdair_service : Option Handle → Bool → Context → Context
set_stdair_service h owns c = record c { stdair_service = h; own_stdair_service = some owns }

unfoldable pub set_sevmgr_service : Option Handle → Bool → Context → Context
set_sevmgr_service h owns c = record c { sevmgr_service = h; own_sevmgr_service = owns }

unfoldable pub set_airinv_service : Option Handle → Context → Context
set_airinv_service h c = record c { airinv_service = h }

unfoldable pub set_airtsp_service : Option Handle → Context → Context
set_airtsp_service h c = record c { airtsp_service = h }

unfoldable pub set_simfqt_service : Option Handle → Context → Context
set_simfqt_service h c = record c { simfqt_service = h }

-- `shortDisplay`; a `bool` is written as a digit
short_display : Context → Result String
short_display c = elim (initialised c.own_stdair_service) [
  | ok owns ↦ ok (
      "SIMCRS_ServiceContext ["
      <> c.crs_code
      <> "] - Owns StdAir service: "
      <> (if owns then "1" else "0"))
  | err e ↦ err e
]

unfoldable pub display : Context → Result String
unfolding short_display
display c = short_display c

unfoldable pub describe : Context → Result String
unfolding short_display
describe c = short_display c

-- Each smart pointer lets go of its object.
unfoldable pub reset : Context → Context
reset c = record c {
  stdair_service = none;
  simfqt_service = none;
  airtsp_service = none;
  airinv_service = none;
  sevmgr_service = none;
}
