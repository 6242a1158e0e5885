-- ===== src/Factory/Cleaning.antt =====
-- `FacSupervisor::cleanFactory` on factories in order.
use simcrs.Base.{true, Option, none, some, List, [], ◌∷◌, ◌≡◌, refl, arith, is_some, ◌∙◌}
use simcrs.Exec.{ok, ◌>>=◌}
use simcrs.Context.{Context}
use simcrs.Memory.{Memory, Address, Ptr, Supervisor, update}
use simcrs.Factory.Service.{
  delete_all, delete_context, clean, destroy, destroy_context_factory, delete_factory,
}
use simcrs.Factory.Pool.{without, Part, Deletes, delete_all-without}
use simcrs.Factory.Supervisor.{
  clean_bom_layer, clean_service_layer, delete_supervisor, clean_factory,
  destroy as destroy_supervisor,
}
use simcrs.Factory.Sound.{member, Distinct, Owns, Managed, IsSound, idle, supervised, managed}

contexts_part : Part Context
contexts_part = record {
  get = λ m. m.contexts;
  put = λ m f. record m { contexts = f };
  get-put = λ m f. refl;
  put-put = λ m f g. refl;
  put-get = λ m. refl;
}

delete_context-Deletes : Deletes contexts_part delete_context
unfolding contexts_part delete_context ◌>>=◌
delete_context-Deletes c m x e = ground (arith, e)

-- The loop over a pool of live contexts, each there once.
delete_all-contexts :
    (ps : List Ptr) (m : Memory)
    → Distinct ps
    → ((a : Address) → member a ps ≡ true → is_some (m.contexts a) ≡ true)
    → delete_all delete_context ps m ≡ (ok tt, record m { contexts = without ps m.contexts })
unfolding contexts_part
delete_all-contexts = delete_all-without contexts_part delete_context delete_context-Deletes

module _ {m : Memory} {pool : List Ptr} (o : Owns m pool) where
  Owns-live : (a : Address) → member a pool ≡ true → is_some (m.contexts a) ≡ true
  Owns-live a h = o.live a ∙ h

  without-pool : (a : Address) → without pool m.contexts a ≡ none
  unfolding without
  without-pool a = ground (arith, o.live a)

  -- `clean` of the context factory, from the inside of its destructor or not.
  clean-Owns :
      (f : Address)
      → m.service_factories f ≡ some pool
      → clean (some f) m ≡ (
        ok tt,
        record m {
          contexts = without pool m.contexts;
          service_factories = update m.service_factories f (some []);
        },
      )
  unfolding clean ◌>>=◌
  clean-Owns f there = ground (arith, delete_all-contexts pool m o.distinct Owns-live)

-- `delete` of the factory: its destructor resets `_instance` and cleans, and the object goes.
delete_factory-Owns :
    {m : Memory} {pool : List Ptr} (f : Address)
    → Owns m pool
    → m.service_factories f ≡ some pool
    → delete_factory (some f) m ≡ (
      ok tt,
      record m {
        contexts = without pool m.contexts;
        service_factories = update (update m.service_factories f (some [])) f none;
        context_factory_instance = none;
      },
    )
unfolding delete_factory destroy_context_factory destroy ◌>>=◌
delete_factory-Owns {m} {pool} f o there = ground (
  arith,
  there,
  clean-Owns {m = record m { context_factory_instance = none }}
      (record { distinct = o.distinct; live = o.live; bounded = o.bounded }) f there,
)

abbrev pools : List Ptr → Option Supervisor
pools ps = some (record { bom_pool = []; svc_pool = ps })

module _ (s : Address) where
  abbrev with_pool : Memory → List Ptr → Memory
  with_pool m ps = record m { supervisors = update m.supervisors s (pools ps) }

  -- With no factory of business objects there is nothing to do in their layer.
  clean_bom_layer-nil :
      (m : Memory) (ps : List Ptr)
      → m.supervisors s ≡ pools ps
      → clean_bom_layer (some s) m ≡ (ok tt, with_pool m ps)
  unfolding clean_bom_layer delete_all ◌>>=◌
  clean_bom_layer-nil m ps e = ground arith

  clean_service_layer-nil :
      (m : Memory)
      → m.supervisors s ≡ pools []
      → clean_service_layer (some s) m ≡ (ok tt, with_pool m [])
  unfolding clean_service_layer delete_all ◌>>=◌
  clean_service_layer-nil m e = ground arith

  -- The service layer with its one factory.
  clean_service_layer-one :
      (m : Memory) (f : Address) {pool : List Ptr}
      → m.supervisors s ≡ pools (some f ∷ [])
      → Owns m pool
      → m.service_factories f ≡ some pool
      → clean_service_layer (some s) m ≡ (
        ok tt,
        record m {
          contexts = without pool m.contexts;
          service_factories = update (update m.service_factories f (some [])) f none;
          context_factory_instance = none;
          supervisors = update m.supervisors s (pools []);
        },
      )
  unfolding clean_service_layer delete_all ◌>>=◌
  clean_service_layer-one m f {pool} e o there = ground (arith, delete_factory-Owns f o there)

  delete_supervisor-nil :
      (m : Memory)
      → m.supervisors s ≡ pools []
      → delete_supervisor (some s) m ≡ (
        ok tt,
        record m {
          supervisors = update (update (update m.supervisors s (pools [])) s (pools [])) s none;
        },
      )
  unfolding delete_supervisor destroy_supervisor ◌>>=◌
  delete_supervisor-nil m e =
      ground
        (arith, clean_bom_layer-nil m [] e, clean_service_layer-nil (with_pool m []) (ground arith))

-- What `cleanFactory` leaves: the supervisor and the context factory are deleted, with no other of
-- their classes, and so are all the contexts. The business objects stay.
pub record Cleaned (m : Memory) : Type 0 where
  pub returned : (clean_factory m).0 ≡ ok tt
  pub supervisor : (clean_factory m).1.supervisor_instance ≡ none
  pub factory : (clean_factory m).1.context_factory_instance ≡ none
  pub contexts : (a : Address) → (clean_factory m).1.contexts a ≡ none
  pub supervisors :
      (a : Address)
      → (clean_factory m).1.supervisors a ≡ without (m.supervisor_instance ∷ []) m.supervisors a
  pub service_factories :
      (a : Address)
      → (clean_factory m).1.service_factories a
        ≡ without (m.context_factory_instance ∷ []) m.service_factories a
  pub next : (clean_factory m).1.next ≡ m.next
  pub boms : (clean_factory m).1.boms ≡ m.boms
  pub bom_factories : (clean_factory m).1.bom_factories ≡ m.bom_factories

clean_factory-idle :
    {m : Memory}
    → m.supervisor_instance ≡ none
    → m.context_factory_instance ≡ none
    → Owns m []
    → Cleaned m
unfolding clean_factory delete_supervisor ◌>>=◌
clean_factory-idle {m} es ef o = record {
  returned = ground arith;
  supervisor = ground arith;
  factory = ground arith;
  contexts = λ a. ground (arith, o.live a);
  supervisors = λ a. unfold without in ground arith;
  service_factories = λ a. unfold without in ground arith;
  next = ground arith;
  boms = ground arith;
  bom_factories = ground arith;
}

clean_factory-supervised :
    {m : Memory} (s : Address)
    → m.supervisor_instance ≡ some s
    → m.supervisors s ≡ pools []
    → m.context_factory_instance ≡ none
    → Owns m []
    → Cleaned m
unfolding clean_factory ◌>>=◌
clean_factory-supervised {m} s es es' ef o =
    let a = clean_bom_layer-nil s m [] es' in
    let b = clean_service_layer-nil s (with_pool s m []) (ground arith) in
    let c = delete_supervisor-nil s (with_pool s (with_pool s m []) []) (ground arith) in
    record {
      returned = ground (arith, a, b, c);
      supervisor = ground (arith, a, b, c);
      factory = ground (arith, a, b, c);
      contexts = λ x. ground (arith, a, b, c, o.live x);
      supervisors = λ x. unfold without in ground (arith, a, b, c);
      service_factories = λ x. unfold without in ground (arith, a, b, c);
      next = ground (arith, a, b, c);
      boms = ground (arith, a, b, c);
      bom_factories = ground (arith, a, b, c);
    }

clean_factory-Managed : {m : Memory} {f : Address} {pool : List Ptr} → Managed m f pool → Cleaned m
unfolding clean_factory ◌>>=◌
clean_factory-Managed {m} {f} {pool} v =
    let s = v.supervisor in
    let m' = with_pool s m (some f ∷ []) in
    let o' : Owns m' pool = record {
      distinct = v.owns.distinct;
      live = v.owns.live;
      bounded = v.owns.bounded;
    } in
    let a = clean_bom_layer-nil s m (some f ∷ []) v.supervisor_there in
    let b = clean_service_layer-one s m' f (ground arith) o' v.factory_there in
    let c = delete_supervisor-nil s (clean_service_layer (some s) m').1 (ground (arith, b)) in
    record {
      returned = ground (arith, a, b, c, v.instance_there);
      supervisor = ground (arith, a, b, c, v.instance_there);
      factory = ground (arith, a, b, c, v.instance_there);
      contexts = λ x. ground (arith, a, b, c, v.instance_there, without-pool v.owns x);
      supervisors = λ x. unfold without in ground (arith, a, b, c, v.instance_there);
      service_factories =
          λ x. unfold without in ground (arith, a, b, c, v.instance_there, v.factory_instance);
      next = ground (arith, a, b, c, v.instance_there);
      boms = ground (arith, a, b, c, v.instance_there);
      bom_factories = ground (arith, a, b, c, v.instance_there);
    }

-- From any memory in order, `cleanFactory` returns: nothing is deleted twice and nothing is read
-- after it is deleted. It deletes the supervisor and the context factory, no other object of their
-- classes, and every service context, and leaves no instance. The business objects and their
-- factories, none of which is registered, stay as they were.
pub clean_factory-Cleaned : {m : Memory} → IsSound m → Cleaned m
clean_factory-Cleaned (idle es ef o) = clean_factory-idle es ef o
clean_factory-Cleaned (supervised s es es' ef o) = clean_factory-supervised s es es' ef o
clean_factory-Cleaned (managed f pool v) = clean_factory-Managed v
