-- ===== src/Service/Safety.antt =====
-- The public methods of a service whose construction has ended.
use simcrs.Base.{
  true, false, some, is_some, List, ◌++◌, ◌≡◌, refl, ◌⊎◌, inl, inr, if◌then◌else◌, All, arith,
}
use simcrs.Stdair.{Stdair}
use simcrs.Calls.{
  Call, World, make_stdair, make_airtsp, make_airinv, make_simfqt, stdair, airtsp, airinv, simfqt,
}
use simcrs.Exec.{Fault, non_initialised_service, thrown, ok, err}
use simcrs.Context.{
  Context, get_own_stdair_service_flag, get_stdair_service, get_airtsp_service, get_airinv_service,
  get_simfqt_service,
}
use simcrs.Memory.{Memory, at}
use simcrs.Program.{Program}
use simcrs.Program.Only.{Raises, Ends, Any}
use simcrs.Distribution.Plan.{Sale, Plans}
use simcrs.Service.{Service}
use simcrs.Service.Operation.{Operation, perform}
use simcrs.Service.Policy.{Policy, is_building, Accepts}
use simcrs.Service.Confined.{perform-Only}

-- The four components are there, and it is settled whether StdAir is owned.
pub record IsReady (c : Context) : Type 0 where
  pub stdair_there : is_some c.stdair_service ≡ true
  pub flag_there : is_some c.own_stdair_service ≡ true
  pub airtsp_there : is_some c.airtsp_service ≡ true
  pub airinv_there : is_some c.airinv_service ≡ true
  pub simfqt_there : is_some c.simfqt_service ≡ true

-- A call of a component of the context. No component is made, and the business objects of StdAir
-- are built or cloned only if StdAir is owned.
abbrev pub IsOwn : {S : Stdair} → Context → Call S → Type 0
IsOwn c (make_stdair log db) = ⊥
IsOwn c (make_airtsp h) = ⊥
IsOwn c (make_airinv h e) = ⊥
IsOwn c (make_simfqt h) = ⊥
IsOwn c (stdair h x) =
    (c.stdair_service ≡ some h) × ((is_building x ≡ false) ⊎ (c.own_stdair_service ≡ some true))
IsOwn c (airtsp h x) = c.airtsp_service ≡ some h
IsOwn c (airinv h x) = c.airinv_service ≡ some h
IsOwn c (simfqt h x) = c.simfqt_service ≡ some h

-- An exception of another component.
abbrev pub IsThrown : Fault → Type 0
IsThrown (thrown what) = Unit {0}
IsThrown _ = ⊥

-- A sale has, in its chosen fare option, a class for each leg.
abbrev pub IsWellFormed : {S : Stdair} → Operation S → Type 0
IsWellFormed {S} (Operation.sell t n) = (xs : List (Sale S)) × Plans t xs
IsWellFormed _ = Unit {0}

pub Accepts-IsWellFormed :
    {S : Stdair} (E : Fault → Type 0) (op : Operation S) → IsWellFormed op → Accepts E op
Accepts-IsWellFormed E (Operation.sell t n) h = inr h
Accepts-IsWellFormed E _ h = tt

module _ (svc : Service) (c : Context) where
  abbrev pub Holds : Memory → Type 0
  Holds m = at m.contexts svc.context ≡ ok c

  guard-Holds :
      (E : Fault → Type 0) (m : Memory)
      → Holds m
      → Ends E Any (if is_some svc.context then ok tt else err non_initialised_service)
  guard-Holds E m h = ground arith

pub confined :
    {S : Stdair} (world : World S) (svc : Service) (c : Context) (E : Fault → Type 0) (m : Memory)
    → Raises world E
    → Holds svc c m
    → IsReady c
    → Policy world svc (IsOwn c) E (Holds svc c) (λ d. d ≡ c)
unfolding get_own_stdair_service_flag get_stdair_service get_airtsp_service get_airinv_service
    get_simfqt_service
confined world svc c E m raise here ready = record {
  raise = raise;
  guard = guard-Holds svc c E m here;
  context = λ n q. rw q refl;
  flag = λ d r. rw r (ground (arith, ready.flag_there));
  stdair_there = λ d r. rw r (ground (arith, ready.stdair_there));
  airtsp_there = λ d r. rw r (ground (arith, ready.airtsp_there));
  airinv_there = λ d r. rw r (ground (arith, ready.airinv_there));
  simfqt_there = λ d r. rw r (ground (arith, ready.simfqt_there));
  stdair_reads = λ d h x r e b. (ground (arith, r, e), inl b);
  stdair_builds = λ d h x r e o. (ground (arith, r, e), inr (ground (arith, r, o)));
  airtsp_calls = λ d h x r e. ground (arith, r, e);
  airinv_calls = λ d h x r e. ground (arith, r, e);
  simfqt_calls = λ d h x r e. ground (arith, r, e);
}

-- A public method of a service whose context is ready, with a class for each leg where it sells,
-- meets no failed assertion, no undefined behaviour and no missing context: it returns, or lets out
-- an exception of another component. It calls the components of its context alone, and has StdAir
-- build or clone business objects only if the service owns StdAir.
pub perform-IsOwn :
    {S : Stdair} (world : World S) (svc : Service) (c : Context) (op : Operation S) (s : Program S)
    → at s.memory.contexts svc.context ≡ ok c
    → IsReady c
    → IsWellFormed op
    → Ends IsThrown Any (perform world svc op s).0
      × (cs : List (Call S)) × All (IsOwn c) cs
      × ((perform world svc op s).1.history ≡ s.history ++ cs)
perform-IsOwn world svc c op s here ready fits =
    let all =
      (perform-Only world (confined world svc c IsThrown s.memory (λ h c what r. tt) here ready) op
          (Accepts-IsWellFormed IsThrown op fits)).at
        s here in
    (all.4, all.1, all.2, all.3)
