-- ===== src/Factory/Service.antt =====
-- simcrs/factory/FacServiceAbstract.cpp, and the destructor of its one concrete class in
-- simcrs/factory/FacSimcrsServiceContext.cpp. A factory owns the service contexts of its pool.
use simcrs.Base.{none, some, List, [], ◌∷◌, is_some}
use simcrs.Exec.{Exec, pure, lift, reads, modify, assert, ◌>>=◌, ◌>>◌}
use simcrs.Memory.{Memory, Ptr, update, at, live}

-- The loop of `clean` over a pool, with the `delete` of an object of that pool.
unfoldable pub delete_all : (Ptr → Exec Memory (Unit {0})) → List Ptr → Exec Memory (Unit {0})
delete_all del [] = pure tt
delete_all del (p ∷ ps) = do lift (assert (is_some p)); del p; delete_all del ps

-- `delete` of a `SIMCRS_ServiceContext`; of NULL it does nothing.
unfoldable pub delete_context : Ptr → Exec Memory (Unit {0})
delete_context none = pure tt
delete_context (some a) = do
  a' ← reads (λ m. live m.contexts (some a))
  modify (λ m. record m { contexts = update m.contexts a' none })

-- `FacServiceAbstract::clean`
unfoldable pub clean : Ptr → Exec Memory (Unit {0})
clean f = do
  pool ← reads (λ m. at m.service_factories f)
  delete_all delete_context pool
  a ← reads (λ m. live m.service_factories f)
  modify (λ m. record m { service_factories = update m.service_factories a (some []) })

-- `FacServiceAbstract::~FacServiceAbstract`
unfoldable pub destroy : Ptr → Exec Memory (Unit {0})
destroy f = clean f

-- `FacSimcrsServiceContext::~FacSimcrsServiceContext`, and then the base class's destructor.
unfoldable pub destroy_context_factory : Ptr → Exec Memory (Unit {0})
destroy_context_factory f = modify (λ m. record m { context_factory_instance = none }) >> destroy f

-- `delete` of a `FacServiceAbstract`, whose destructor is virtual.
unfoldable pub delete_factory : Ptr → Exec Memory (Unit {0})
delete_factory none = pure tt
delete_factory (some f) = do
  a ← reads (λ m. live m.service_factories (some f))
  destroy_context_factory (some f)
  modify (λ m. record m { service_factories = update m.service_factories a none })
