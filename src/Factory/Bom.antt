-- ===== src/Factory/Bom.antt =====
-- simcrs/factory/FacBomAbstract.cpp: the base class of the factories of business objects. SimCRS has
-- no concrete class of it. The identities of objects are in Factory/Identity.antt.
use simcrs.Base.{none, some, []}
use simcrs.Exec.{Exec, pure, reads, modify, ◌>>=◌, ◌>>◌}
use simcrs.Memory.{Memory, Ptr, update, at, live}
use simcrs.Factory.Service.{delete_all}

-- `delete` of a `BomAbstract`.
unfoldable pub delete_bom : Ptr → Exec Memory (Unit {0})
delete_bom none = pure tt
delete_bom (some a) = do
  a' ← reads (λ m. live m.boms (some a))
  modify (λ m. record m { boms = update m.boms a' none })

-- `FacBomAbstract::clean`
unfoldable pub clean : Ptr → Exec Memory (Unit {0})
clean f = do
  pool ← reads (λ m. at m.bom_factories f)
  delete_all delete_bom pool
  a ← reads (λ m. live m.bom_factories f)
  modify (λ m. record m { bom_factories = update m.bom_factories a (some []) })

-- `FacBomAbstract::~FacBomAbstract`
unfoldable pub destroy : Ptr → Exec Memory (Unit {0})
destroy f = clean f

-- `delete` of a `FacBomAbstract`.
unfoldable pub delete_factory : Ptr → Exec Memory (Unit {0})
delete_factory none = pure tt
delete_factory (some f) = do
  a ← reads (λ m. live m.bom_factories (some f))
  destroy (some f)
  modify (λ m. record m { bom_factories = update m.bom_factories a none })
