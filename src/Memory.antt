-- ===== src/Memory.antt =====
-- The objects that SimCRS makes with `new`, by class, and the two static instance pointers. An
-- object that was deleted, or never made, is `none`; a pointer is `none` when it is NULL.
use simcrs.Base.{ℕ, suc, Option, none, some, List, ◌==◌, if◌then◌else◌}
use simcrs.Exec.{Result, ok, err, undefined_behaviour, Exec}
use simcrs.Context.{Context}

abbrev pub Address : Type 0
Address = ℕ

abbrev pub Ptr : Type 0
Ptr = Option Address

-- `FacSupervisor`: its two pools of registered factories.
pub record Supervisor : Type 0 where
  pub bom_pool : List Ptr
  pub svc_pool : List Ptr

abbrev pub Store : Type 0 → Type 0
Store A = Address → Option A

abbrev pub update : {A : Type 0} → Store A → Address → Option A → Store A
update f a v b = if a == b then v else f b

pub record Memory : Type 0 where
  pub next : Address
  pub contexts : Store Context
  -- `FacServiceAbstract` and `FacBomAbstract`: the pool of each factory
  pub service_factories : Store (List Ptr)
  pub bom_factories : Store (List Ptr)
  -- `BomAbstract`, of which the program reads nothing
  pub boms : Store (Unit {0})
  pub supervisors : Store Supervisor
  -- `FacSupervisor::_instance` and `FacSimcrsServiceContext::_instance`
  pub supervisor_instance : Ptr
  pub context_factory_instance : Ptr

-- A program that has just started.
abbrev pub empty_memory : Memory
empty_memory = record {
  next = 0;
  contexts = λ _. none;
  service_factories = λ _. none;
  bom_factories = λ _. none;
  boms = λ _. none;
  supervisors = λ _. none;
  supervisor_instance = none;
  context_factory_instance = none;
}

-- The object at a pointer. To read through NULL or a dangling pointer is undefined.
abbrev pub at : {A : Type 0} → Store A → Ptr → Result A
at f none = err undefined_behaviour
at f (some a) = elim (f a) [ none ↦ err undefined_behaviour | some x ↦ ok x ]

-- The address of a live object, for a write or a `delete` through the pointer.
abbrev pub live : {A : Type 0} → Store A → Ptr → Result Address
live f none = err undefined_behaviour
live f (some a) = elim (f a) [ none ↦ err undefined_behaviour | some x ↦ ok a ]

-- The next free address.
unfoldable pub allocate : Exec Memory Address
allocate m = (ok m.next, record m { next = suc m.next })
