-- ===== src/Tests/Phases.antt =====
-- Phases of a context over the small inventory.
use simcrs.Base.{none}
use simcrs.Service.{destroy}
use simcrs.Service.Placement.{at_address}
use simcrs.Service.Life.{Reachable, started, then_step, make_owning, end_service}
use simcrs.Service.Machine.{phase, Advances, ending}
use simcrs.Service.Phases.{Step-Advances}
use simcrs.Tests.{answers}
use simcrs.Tests.Lifecycle.{opened}

pub opened-Reachable : Reachable answers opened
opened-Reachable = then_step started (make_owning "simcrs.log" none "1S")

-- The service of the address 2 ends.
Step-Advances_example :
    Advances ending (phase opened.memory 2) (phase (destroy (at_address 2) opened).1.memory 2)
Step-Advances_example = Step-Advances answers 2 opened-Reachable (end_service (at_address 2))
