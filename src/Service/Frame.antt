-- ===== src/Service/Frame.antt =====
-- The public methods and the objects of SimCRS, in any state of the service.
use simcrs.Base.{List, ◌++◌, ◌≡◌, inl}
use simcrs.Stdair.{Stdair}
use simcrs.Calls.{Call, World}
use simcrs.Exec.{Result, ok, err}
use simcrs.Program.{Program}
use simcrs.Program.Only.{Ends, Any}
use simcrs.Service.{Service}
use simcrs.Service.Operation.{Operation, perform}
use simcrs.Service.Policy.{Policy, Accepts}
use simcrs.Service.Confined.{perform-Only}

Ends-Any : {A : Type 0} (r : Result A) → Ends Any Any r
Ends-Any (ok a) = tt
Ends-Any (err e) = tt

anything : {S : Stdair} (world : World S) (svc : Service) → Policy world svc Any Any Any Any
anything world svc = record {
  raise = λ h c what r. tt;
  guard = Ends-Any _;
  context = λ m q. Ends-Any _;
  flag = λ c r. Ends-Any _;
  stdair_there = λ c r. Ends-Any _;
  airtsp_there = λ c r. Ends-Any _;
  airinv_there = λ c r. Ends-Any _;
  simfqt_there = λ c r. Ends-Any _;
  stdair_reads = λ c h x r e b. tt;
  stdair_builds = λ c h x r e o. tt;
  airtsp_calls = λ c h x r e. tt;
  airinv_calls = λ c h x r e. tt;
  simfqt_calls = λ c h x r e. tt;
}

Accepts-Any : {S : Stdair} (op : Operation S) → Accepts Any op
Accepts-Any (Operation.sell t n) = inl (tt, tt)
Accepts-Any _ = tt

-- No public method, however it ends, changes an object of SimCRS: the service context, the factories
-- and the supervisor stay, and what was asked of the other components before stays in the history.
pub perform-memory :
    {S : Stdair} (world : World S) (svc : Service) (op : Operation S) (s : Program S)
    → ((perform world svc op s).1.memory ≡ s.memory)
      × (cs : List (Call S)) × ((perform world svc op s).1.history ≡ s.history ++ cs)
perform-memory world svc op s =
    let all = (perform-Only world (anything world svc) op (Accepts-Any op)).at s tt in
    (all.0, all.1, all.3)
