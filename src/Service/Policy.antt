-- ===== src/Service/Policy.antt =====
-- The public methods under a policy: what the context may be, which calls it may lead to, and which
-- faults may come out of it. One proof serves each policy.
use simcrs.Base.{Bool, true, false, is_some, subst, List, ◌≡◌, if◌then◌else◌}
use simcrs.Stdair.{Stdair}
use simcrs.Calls.{
  Handle, Call, Reply, World, stdair, airtsp, airinv, simfqt, StdairCall, AirtspCall, AirinvCall,
  SimfqtCall,
}
use simcrs.Exec.{Fault, non_initialised_service, ok, err, Exec, lift, ◌>>=◌}
use simcrs.Context.{
  Context, get_own_stdair_service_flag, get_stdair_service, get_airtsp_service, get_airinv_service,
  get_simfqt_service,
}
use simcrs.Memory.{Memory, at}
use simcrs.Program.{Program, ask}
use simcrs.Program.Only.{
  Only, Raises, Ends, Any, Only-lift, Only-reads, Only-known, Only-call, Only-bind,
}
use simcrs.Distribution.Confined.{Tolerates}
use simcrs.Distribution.Plan.{Sale, Plans}
use simcrs.Service.{Service, initialised_context}
use simcrs.Service.Operation.{Operation}

-- The StdAir calls that change the persistent business objects.
abbrev pub is_building : {S : Stdair} → StdairCall S → Bool
is_building StdairCall.build_sample_bom = true
is_building StdairCall.clone_persistent_bom = true
is_building _ = false

pub record Policy {S : Stdair} (world : World S) (svc : Service) (P : Call S → Type 0)
    (E : Fault → Type 0) (Q : Memory → Type 0) (R : Context → Type 0) : Type 0 where
  pub raise : Raises world E
  pub guard : Ends E Any (if is_some svc.context then ok tt else err non_initialised_service)
  pub context : (m : Memory) → Q m → Ends E R (at m.contexts svc.context)
  pub flag : (c : Context) → R c → Ends E Any (get_own_stdair_service_flag c)
  pub stdair_there : (c : Context) → R c → Ends E Any (get_stdair_service c)
  pub airtsp_there : (c : Context) → R c → Ends E Any (get_airtsp_service c)
  pub airinv_there : (c : Context) → R c → Ends E Any (get_airinv_service c)
  pub simfqt_there : (c : Context) → R c → Ends E Any (get_simfqt_service c)
  pub stdair_reads :
      (c : Context) (h : Handle) (x : StdairCall S)
      → R c
      → get_stdair_service c ≡ ok h
      → is_building x ≡ false
      → P (stdair h x)
  pub stdair_builds :
      (c : Context) (h : Handle) (x : StdairCall S)
      → R c
      → get_stdair_service c ≡ ok h
      → get_own_stdair_service_flag c ≡ ok true
      → P (stdair h x)
  pub airtsp_calls :
      (c : Context) (h : Handle) (x : AirtspCall S)
      → R c
      → get_airtsp_service c ≡ ok h
      → P (airtsp h x)
  pub airinv_calls :
      (c : Context) (h : Handle) (x : AirinvCall S)
      → R c
      → get_airinv_service c ≡ ok h
      → P (airinv h x)
  pub simfqt_calls :
      (c : Context) (h : Handle) (x : SimfqtCall S)
      → R c
      → get_simfqt_service c ≡ ok h
      → P (simfqt h x)

-- What a method asks of its arguments, unless malformed travel solutions are tolerated.
abbrev pub Accepts : {S : Stdair} → (Fault → Type 0) → Operation S → Type 0
Accepts {S} E (Operation.sell t n) = Tolerates E ((xs : List (Sale S)) × Plans t xs)
Accepts E _ = Unit {0}

module _ {S : Stdair} {P : Call S → Type 0} {E : Fault → Type 0} {Q : Memory → Type 0}
    {R : Context → Type 0} (world : World S) {svc : Service} (p : Policy world svc P E Q R) where
  pub initialised_context-Only : Only P E Q R (initialised_context svc)
  unfolding initialised_context
  initialised_context-Only = Only-bind {R = Any} (Only-lift _ p.guard) λ _ _. Only-reads _ p.context

  module _ {B : Type 0} {T : B → Type 0} {f : Handle → Exec (Program S) B} where
    -- The head of a method that works through one component.
    pub through_airinv :
        ((h : Handle) → ((x : AirinvCall S) → P (airinv h x)) → Only P E Q T (f h))
        → Only P E Q T (initialised_context svc >>= λ c. lift (get_airinv_service c) >>= f)
    through_airinv k = Only-bind initialised_context-Only λ c r.
        Only-bind (Only-known _ (p.airinv_there c r)) λ h e. k h (λ x. p.airinv_calls c h x r e)

    pub through_airtsp :
        ((h : Handle) → ((x : AirtspCall S) → P (airtsp h x)) → Only P E Q T (f h))
        → Only P E Q T (initialised_context svc >>= λ c. lift (get_airtsp_service c) >>= f)
    through_airtsp k = Only-bind initialised_context-Only λ c r.
        Only-bind (Only-known _ (p.airtsp_there c r)) λ h e. k h (λ x. p.airtsp_calls c h x r e)

    pub through_simfqt :
        ((h : Handle) → ((x : SimfqtCall S) → P (simfqt h x)) → Only P E Q T (f h))
        → Only P E Q T (initialised_context svc >>= λ c. lift (get_simfqt_service c) >>= f)
    through_simfqt k = Only-bind initialised_context-Only λ c r.
        Only-bind (Only-known _ (p.simfqt_there c r)) λ h e. k h (λ x. p.simfqt_calls c h x r e)

    -- The same, and through StdAir for what changes nothing.
    pub through_stdair :
        ((h : Handle)
          → ((x : StdairCall S) → is_building x ≡ false → P (stdair h x))
          → Only P E Q T (f h))
        → Only P E Q T (initialised_context svc >>= λ c. lift (get_stdair_service c) >>= f)
    through_stdair k = Only-bind initialised_context-Only λ c r.
        Only-bind (Only-known _ (p.stdair_there c r)) λ h e. k h (λ x b. p.stdair_reads c h x r e b)

  module _ {B : Type 0} {T : B → Type 0} (c : Context) (r : R c) where
    -- A call of a component in the midst of a method, and the rest.
    pub then_airtsp :
        (x : AirtspCall S) {g : (h : Handle) → Reply (airtsp h x) → Exec (Program S) B}
        → ((h : Handle) (a : Reply (airtsp h x)) → Only P E Q T (g h a))
        → Only P E Q T (lift (get_airtsp_service c) >>= λ h. ask world (airtsp h x) >>= g h)
    then_airtsp x k =
        Only-bind (Only-known _ (p.airtsp_there c r))
          λ h e. Only-call world _ p.raise (p.airtsp_calls c h x r e) (k h)

    pub then_airinv :
        (x : AirinvCall S) {g : (h : Handle) → Reply (airinv h x) → Exec (Program S) B}
        → ((h : Handle) (a : Reply (airinv h x)) → Only P E Q T (g h a))
        → Only P E Q T (lift (get_airinv_service c) >>= λ h. ask world (airinv h x) >>= g h)
    then_airinv x k =
        Only-bind (Only-known _ (p.airinv_there c r))
          λ h e. Only-call world _ p.raise (p.airinv_calls c h x r e) (k h)

    pub then_simfqt :
        (x : SimfqtCall S) {g : (h : Handle) → Reply (simfqt h x) → Exec (Program S) B}
        → ((h : Handle) (a : Reply (simfqt h x)) → Only P E Q T (g h a))
        → Only P E Q T (lift (get_simfqt_service c) >>= λ h. ask world (simfqt h x) >>= g h)
    then_simfqt x k =
        Only-bind (Only-known _ (p.simfqt_there c r))
          λ h e. Only-call world _ p.raise (p.simfqt_calls c h x r e) (k h)

  -- The head of a method that asks whether the service owns StdAir.
  pub owner_head :
      {B : Type 0} {T : B → Type 0} {f : Context → Bool → Handle → Exec (Program S) B}
      → ((c : Context) (owns : Bool) (h : Handle)
          → R c
          → ((x : StdairCall S) → is_building x ≡ false → P (stdair h x))
          → ((x : StdairCall S) → owns ≡ true → P (stdair h x))
          → Only P E Q T (f c owns h))
      → Only P E Q T (
          initialised_context svc >>= λ c.
          lift (get_own_stdair_service_flag c) >>= λ owns. lift (get_stdair_service c) >>= f c owns)
  owner_head k = Only-bind initialised_context-Only λ c r.
      Only-bind (Only-known _ (p.flag c r)) λ owns eo.
        Only-bind (Only-known _ (p.stdair_there c r)) λ h eh.
          k c owns h r (λ x b. p.stdair_reads c h x r eh b)
            (λ x t.
              p.stdair_builds c h x r eh (subst (λ b. get_own_stdair_service_flag c ≡ ok b) t eo))
