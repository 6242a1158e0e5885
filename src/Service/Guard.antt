-- ===== src/Service/Guard.antt =====
-- The guard at the head of every public method of simcrs/SIMCRS_Service.hpp.
use simcrs.Stdair.{Stdair}
use simcrs.Program.{Program}
use simcrs.Service.Bom
use simcrs.Service.Booking
use simcrs.Service.Display
use simcrs.Service.Operation.{Operation}
