-- ===== src/Service/Liveness.antt =====
-- The public methods where each call of another component has a reply.
use simcrs.Base.{◌≡◌, refl}
use simcrs.Stdair.{Stdair}
use simcrs.Calls.{World}
use simcrs.Exec.{Result, ok, err}
use simcrs.Context.{Context}
use simcrs.Memory.{at}
use simcrs.Program.{Program}
use simcrs.Program.Only.{Ends, Any}
use simcrs.Program.Traces.{Replying, Replying-Raises}
use simcrs.Service.{Service}
use simcrs.Service.Operation.{Operation, Returned, perform}
use simcrs.Service.Confined.{perform-Only}
use simcrs.Service.Safety.{IsReady, IsWellFormed, Accepts-IsWellFormed, confined}

returned : {A : Type 0} (r : Result A) → Ends (λ e. ⊥) (λ (a : A). Any a) r → (a : A) × (r ≡ ok a)
returned (ok a) h = (a, refl)
returned (err e) h = absurd h

-- Where each call of another component has a reply, a public method of a service whose context is
-- ready, with a class for each leg where it sells, returns.
pub perform-returns :
    {S : Stdair} (world : World S) (svc : Service) (c : Context) (op : Operation S) (s : Program S)
    → Replying world
    → at s.memory.contexts svc.context ≡ ok c
    → IsReady c
    → IsWellFormed op
    → (r : Returned op) × ((perform world svc op s).0 ≡ ok r)
perform-returns world svc c op s replying here ready fits =
    returned (perform world svc op s).0
      ((perform-Only world
          (confined world svc c (λ e. ⊥) s.memory (Replying-Raises world replying) here ready) op
          (Accepts-IsWellFormed (λ e. ⊥) op fits)).at
        s here).4
