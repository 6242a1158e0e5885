-- ===== src/Tests/Unfinished.antt =====
-- A service over an inventory that cannot be made.
use simcrs.Base.{ℕ, some, none, ◌≤◌}
use simcrs.Calls.{World, raises, make_airinv}
use simcrs.Service.{construct_owning, construct_borrowing}
use simcrs.Service.Trying.{Ended}
use simcrs.Service.Unfinished.{Attempted, rest, construct-Attempted}
use simcrs.Tests.{sample, answers, start}
use simcrs.Tests.Lifecycle.{empty_memory-IsSound}

abbrev no_inventory : World sample
no_inventory h (make_airinv _ _) = raises "inventory"
no_inventory h c = answers h c

construct-Attempted_example :
    Attempted no_inventory "1S" start "simcrs.log" none
      (construct_owning no_inventory "simcrs.log" none "1S" start)
    × ((a : ℕ) × (0 ≤ a)
        × Ended no_inventory
            (rest (some 3) (some 4))
            (some 3)
            a
            start
            (construct_borrowing no_inventory (some 3) (some 4) "1S" start))
construct-Attempted_example =
    construct-Attempted no_inventory "1S" start "simcrs.log" none (some 3) 4 empty_memory-IsSound
