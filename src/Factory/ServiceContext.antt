-- ===== src/Factory/ServiceContext.antt =====
-- simcrs/factory/FacSimcrsServiceContext.cpp: the singleton that makes the service contexts.
use simcrs.Base.{String, none, some, [], ◌∷◌, ◌++◌}
use simcrs.Exec.{Exec, pure, gets, reads, modify, ◌>>=◌, ◌>>◌}
use simcrs.Context.{new_context}
use simcrs.Memory.{Memory, Ptr, update, at, live, allocate}
use simcrs.Factory.Supervisor

-- `new FacSimcrsServiceContext()`, stored in `_instance` and registered with the supervisor.
unfoldable pub new_instance : Exec Memory Ptr
unfolding allocate Supervisor.get_instance Supervisor.register_service_factory
new_instance = do
  f ← allocate
  modify (λ m. record m {
    service_factories = update m.service_factories f (some []);
    context_factory_instance = some f;
  })
  s ← Supervisor.get_instance
  Supervisor.register_service_factory s (some f)
  pure (some f)

-- `FacSimcrsServiceContext::instance`
unfoldable pub get_instance : Exec Memory Ptr
unfolding new_instance
get_instance = do
  p ← gets (λ m. m.context_factory_instance)
  elim p [ none ↦ new_instance | some f ↦ pure (some f) ]

-- `FacSimcrsServiceContext::create`
unfoldable pub create : Ptr → String → Exec Memory Ptr
unfolding allocate new_context
create this crs_code = do
  c ← allocate
  modify (λ m. record m { contexts = update m.contexts c (some (new_context crs_code)) })
  pool ← reads (λ m. at m.service_factories this)
  f ← reads (λ m. live m.service_factories this)
  modify (λ m. record m {
    service_factories = update m.service_factories f (some (pool ++ (some c ∷ [])));
  })
  pure (some c)
