-- ===== src/Factory/Sweep.antt =====
-- `FacSupervisor::cleanFactory` over both layers, with any number of factories of business objects.
use simcrs.Base.{◌∷◌, some, none, List, [], ◌≡◌, ap, ◌∙◌, arith}
use mathlib.Core.Path.{fun_ext}
use simcrs.Exec.{Result, ok, ◌>>=◌}
use simcrs.Memory.{Memory, Address, Ptr, Store, Supervisor, update}
use simcrs.Factory.Service.{delete_all}
use simcrs.Factory.Supervisor.{clean_bom_layer, clean_factory}
use simcrs.Factory.Sound.{Owns, IsSound, idle, supervised, managed}
use simcrs.Factory.Pool.{without}
use simcrs.Factory.Layer.{objects, IsLayer, clean_bom_layer-IsLayer}
use simcrs.Factory.Cleaning.{clean_factory-Cleaned}

-- The memory with other business objects.
abbrev with_boms : Memory → Store (Unit {0}) → Store (List Ptr) → Memory
with_boms m b f = record m { boms = b; bom_factories = f }

-- The layer of services knows nothing of them.
module _ {m : Memory} (b : Store (Unit {0})) (f : Store (List Ptr)) where
  Owns-with_boms : {pool : List Ptr} → Owns m pool → Owns (with_boms m b f) pool
  Owns-with_boms o = record { distinct = o.distinct; live = o.live; bounded = o.bounded }

  IsSound-with_boms : IsSound m → IsSound (with_boms m b f)
  IsSound-with_boms (idle es ef o) = idle es ef (Owns-with_boms o)
  IsSound-with_boms (supervised s es es' ef o) = supervised s es es' ef (Owns-with_boms o)
  IsSound-with_boms (managed g pool v) = managed g pool (record {
    supervisor = v.supervisor;
    instance_there = v.instance_there;
    supervisor_there = v.supervisor_there;
    factory_instance = v.factory_instance;
    factory_there = v.factory_there;
    owns = Owns-with_boms v.owns;
  })

update-again :
    {A : Type 0} (f : Store A) (a : Address) (x : A)
    → update (update f a (some x)) a (some x) ≡ update f a (some x)
update-again f a x = fun_ext λ b. ground arith

module _ (s : Address) (pools : Supervisor) (m : Memory) where
  -- The supervisor with no factory of business objects.
  abbrev pub set_aside : Memory
  set_aside = record m {
    supervisors = update m.supervisors s (some (record pools { bom_pool = [] }));
  }

  abbrev swept : Memory
  swept =
      with_boms set_aside (without (objects m.bom_factories pools.bom_pool) m.boms)
        (without pools.bom_pool m.bom_factories)

  supervisor_swept : swept.supervisors s ≡ some (record pools { bom_pool = [] })
  supervisor_swept = ground arith

  -- Nothing is left to do in the layer of business objects.
  clean_bom_layer-again : clean_bom_layer (some s) swept ≡ (ok tt, swept)
  unfolding clean_bom_layer delete_all ◌>>=◌
  clean_bom_layer-again =
      ground (arith, supervisor_swept)
      ∙ ap (λ f. (ok tt, record swept { supervisors = f }))
          (update-again m.supervisors s (record pools { bom_pool = [] }))

  -- To set aside and then delete is to delete.
  without-set_aside :
      m.supervisor_instance ≡ some s
      → (a : Address)
      → without (swept.supervisor_instance ∷ []) swept.supervisors a
        ≡ without (m.supervisor_instance ∷ []) m.supervisors a
  unfolding without
  without-set_aside e a = ground (arith, e)

  clean_factory-swept :
      m.supervisor_instance ≡ some s
      → m.supervisors s ≡ some pools
      → IsLayer m pools.bom_pool
      → clean_factory m ≡ clean_factory swept
  unfolding clean_factory ◌>>=◌
  clean_factory-swept e there l =
      ground (arith, e, clean_bom_layer-IsLayer s pools m there l, clean_bom_layer-again)

  -- What `cleanFactory` leaves where factories of business objects are registered.
  pub record Swept (r : Result (Unit {0}) × Memory) : Type 0 where
    pub returned : r.0 ≡ ok tt
    pub supervisor : r.1.supervisor_instance ≡ none
    pub factory : r.1.context_factory_instance ≡ none
    pub contexts : (a : Address) → r.1.contexts a ≡ none
    pub supervisors :
        (a : Address) → r.1.supervisors a ≡ without (m.supervisor_instance ∷ []) m.supervisors a
    pub service_factories :
        (a : Address)
        → r.1.service_factories a ≡ without (m.context_factory_instance ∷ []) m.service_factories a
    pub boms : r.1.boms ≡ without (objects m.bom_factories pools.bom_pool) m.boms
    pub bom_factories : r.1.bom_factories ≡ without pools.bom_pool m.bom_factories

  -- Where the supervisor's factories of business objects and their objects are live, each of them is
  -- in its pool once, and the factories are in order but for them, `cleanFactory` returns: it deletes
  -- these factories and their objects, the context factory and the supervisor, each once, and no
  -- other of their classes; it leaves no instance and no service context.
  pub clean_factory-Swept :
      m.supervisor_instance ≡ some s
      → m.supervisors s ≡ some pools
      → IsLayer m pools.bom_pool
      → IsSound set_aside
      → Swept (clean_factory m)
  clean_factory-Swept e there l sound =
      let c = clean_factory-Cleaned (IsSound-with_boms swept.boms swept.bom_factories sound) in
      let same = clean_factory-swept e there l in
      rw same (record {
        returned = c.returned;
        supervisor = c.supervisor;
        factory = c.factory;
        contexts = c.contexts;
        supervisors = λ a. c.supervisors a ∙ without-set_aside e a;
        service_factories = c.service_factories;
        boms = c.boms;
        bom_factories = c.bom_factories;
      })
