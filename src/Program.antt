-- ===== src/Program.antt =====
-- The state of a run: SimCRS's own objects, and the calls made of the other components so far. A
-- component's own state shows only in its answers, which may depend on all the calls before.
pub mod Only
pub mod Attempt
pub mod Traces
pub mod Keeps
pub mod Returning
pub mod Rounds
use simcrs.Base.{List, [], ◌∷◌, ◌++◌}
use simcrs.Stdair.{Stdair}
use simcrs.Calls.{Call, Reply, World}
use simcrs.Exec.{from_answer, Exec}
use simcrs.Memory.{Memory}

pub record Program (S : Stdair) : Type 0 where
  pub memory : Memory
  pub history : List (Call S)

-- A call of another component, whose exceptions nobody catches here.
unfoldable pub ask : {S : Stdair} → World S → (c : Call S) → Exec (Program S) (Reply c)
ask world c s = (from_answer (world s.history c), record s { history = s.history ++ (c ∷ []) })

-- A function that touches SimCRS's own objects alone.
unfoldable pub in_memory : {S : Stdair} {A : Type 0} → Exec Memory A → Exec (Program S) A
in_memory m s = let (r, memory) = m s.memory in (r, record s { memory = memory })
