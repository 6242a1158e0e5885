-- ===== src/Factory/Supervisor.antt =====
-- simcrs/factory/FacSupervisor.cpp: the singleton with which the factories register, and which
-- deletes them all.
use simcrs.Base.{none, some, [], ◌∷◌, ◌++◌, is_some}
use simcrs.Exec.{Exec, pure, gets, reads, modify, when, ◌>>=◌, ◌>>◌}
use simcrs.Memory.{Memory, Ptr, Supervisor, update, at, live, allocate}
use simcrs.Factory.Service.{delete_all}
use simcrs.Factory.Service
use simcrs.Factory.Bom

-- The members of the supervisor that `this` points at, written.
put : Ptr → Supervisor → Exec Memory (Unit {0})
put this s = do
  a ← reads (λ m. live m.supervisors this)
  modify (λ m. record m { supervisors = update m.supervisors a (some s) })

-- `new FacSupervisor()`, stored in `_instance`.
unfoldable pub new_instance : Exec Memory Ptr
unfolding allocate
new_instance = do
  a ← allocate
  modify (λ m. record m {
    supervisors = update m.supervisors a (some (record { bom_pool = []; svc_pool = [] }));
    supervisor_instance = some a;
  })
  pure (some a)

-- `FacSupervisor::instance`
unfoldable pub get_instance : Exec Memory Ptr
unfolding new_instance
get_instance = do
  p ← gets (λ m. m.supervisor_instance)
  elim p [ none ↦ new_instance | some s ↦ pure (some s) ]

-- `FacSupervisor::registerBomFactory`
unfoldable pub register_bom_factory : Ptr → Ptr → Exec Memory (Unit {0})
unfolding put
register_bom_factory this f = do
  s ← reads (λ m. at m.supervisors this)
  put this (record s { bom_pool = s.bom_pool ++ (f ∷ []) })

-- `FacSupervisor::registerServiceFactory`
unfoldable pub register_service_factory : Ptr → Ptr → Exec Memory (Unit {0})
unfolding put
register_service_factory this f = do
  s ← reads (λ m. at m.supervisors this)
  put this (record s { svc_pool = s.svc_pool ++ (f ∷ []) })

-- `FacSupervisor::cleanBomLayer`
unfoldable pub clean_bom_layer : Ptr → Exec Memory (Unit {0})
unfolding put
clean_bom_layer this = do
  s ← reads (λ m. at m.supervisors this)
  delete_all Bom.delete_factory s.bom_pool
  t ← reads (λ m. at m.supervisors this)
  put this (record t { bom_pool = [] })

-- `FacSupervisor::cleanServiceLayer`
unfoldable pub clean_service_layer : Ptr → Exec Memory (Unit {0})
unfolding put
clean_service_layer this = do
  s ← reads (λ m. at m.supervisors this)
  delete_all Service.delete_factory s.svc_pool
  t ← reads (λ m. at m.supervisors this)
  put this (record t { svc_pool = [] })

-- `FacSupervisor::~FacSupervisor`
unfoldable pub destroy : Ptr → Exec Memory (Unit {0})
destroy this = clean_bom_layer this >> clean_service_layer this

-- `delete` of a `FacSupervisor`.
unfoldable pub delete_supervisor : Ptr → Exec Memory (Unit {0})
delete_supervisor none = pure tt
delete_supervisor (some s) = do
  a ← reads (λ m. live m.supervisors (some s))
  destroy (some s)
  modify (λ m. record m { supervisors = update m.supervisors a none })

-- `FacSupervisor::cleanFactory`
unfoldable pub clean_factory : Exec Memory (Unit {0})
clean_factory = do
  p ← gets (λ m. m.supervisor_instance)
  when (is_some p) (clean_bom_layer p >> clean_service_layer p)
  delete_supervisor p
  modify (λ m. record m { supervisor_instance = none })
