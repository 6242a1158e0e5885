-- ===== src/Tests/Interleaving.antt =====
-- A service among others over the small inventory.
use simcrs.Base.{some, ◌≡◌}
use simcrs.Program.{Program}
use simcrs.Service.{construct_borrowing, destroy}
use simcrs.Service.Operation.{Operation, perform}
use simcrs.Service.Placement.{at_address}
use simcrs.Service.Delegation.{delegated}
use simcrs.Service.Life.{make_borrowing, use_service, end_service}
use simcrs.Service.Interleaving.{nothing, and_then, Meanwhile-delegated}
use simcrs.Tests.{sample, answers}
use simcrs.Tests.Selling.{half_full}
use simcrs.Tests.Lifecycle.{opened, opened-contexts}
use simcrs.Tests.Building.{made, opened_context-Serves}
use simcrs.Tests.Phases.{opened-Reachable}

-- A second service is made over the StdAir of the first, sells, and ends.
abbrev crowded : Program sample
crowded = (construct_borrowing answers (some 0) (some 4) "2S" opened).1

abbrev sold : Program sample
sold = (perform answers (at_address 3) (Operation.sell half_full 2) crowded).1

abbrev alone : Program sample
alone = (destroy (at_address 3) sold).1

Meanwhile-delegated_example :
    perform answers (at_address 2) (Operation.sell half_full 2) alone
    ≡ delegated answers made (Operation.sell half_full 2) alone
Meanwhile-delegated_example =
    Meanwhile-delegated answers 2 made (Operation.sell half_full 2) opened-Reachable opened-contexts
      opened_context-Serves
      (and_then
        (and_then (and_then nothing (make_borrowing (some 0) (some 4) "2S") tt)
          (use_service (at_address 3) (Operation.sell half_full 2)) tt)
        (end_service (at_address 3)) tt)
