-- ===== src/Tests/Factories.antt =====
-- Factories of business objects, which are registered and cleaned.
use simcrs.Base.{some, [], ◌∷◌, ◌≡◌, refl, arith}
use simcrs.Exec.{ok}
use simcrs.Memory.{Memory, Supervisor, empty_memory, update}
use simcrs.Context.{new_context}
use simcrs.Factory.Supervisor.{clean_factory, register_bom_factory}
use simcrs.Factory.Sound.{IsSound, managed}
use simcrs.Factory.Sweep.{set_aside, Swept, clean_factory-Swept}
use simcrs.Factory.Layer.{objects, IsLayer}
use simcrs.Factory.Registration.{registered, register_bom_factory-IsLayer}

-- A supervisor at 0, and two factories with three objects.
abbrev two_factories : Supervisor
two_factories = record { bom_pool = some 1 ∷ some 2 ∷ []; svc_pool = [] }

abbrev stocked : Memory
stocked = record empty_memory {
  next = 6;
  supervisors = update empty_memory.supervisors 0 (some two_factories);
  bom_factories =
      update (update empty_memory.bom_factories 1 (some (some 3 ∷ some 4 ∷ []))) 2
        (some (some 5 ∷ []));
  boms = update (update (update empty_memory.boms 3 (some tt)) 4 (some tt)) 5 (some tt);
}

stocked-IsLayer : IsLayer stocked (some 1 ∷ some 2 ∷ [])
unfolding objects
stocked-IsLayer = record {
  factories_distinct = (refl, (refl, tt));
  factories_live = λ f h. ground (arith, h);
  objects_distinct = (refl, (refl, (refl, tt)));
  objects_live = λ a h. ground (arith, h);
}

-- Beside them the context factory at 6, with one context at 7.
abbrev registered_factories : Supervisor
registered_factories = record two_factories { svc_pool = some 6 ∷ [] }

abbrev furnished : Memory
furnished = record stocked {
  next = 8;
  supervisors = update empty_memory.supervisors 0 (some registered_factories);
  service_factories = update empty_memory.service_factories 6 (some (some 7 ∷ []));
  contexts = update empty_memory.contexts 7 (some (new_context "1P"));
  supervisor_instance = some 0;
  context_factory_instance = some 6;
}

furnished-IsSound : IsSound (set_aside 0 registered_factories furnished)
furnished-IsSound = managed 6 (some 7 ∷ []) (record {
  supervisor = 0;
  instance_there = refl;
  supervisor_there = refl;
  factory_instance = refl;
  factory_there = refl;
  owns = record {
    distinct = (refl, tt);
    live = λ a. ground arith;
    bounded = λ a h. ground (arith, h);
  };
})

clean_factory-Swept_example : Swept 0 registered_factories furnished (clean_factory furnished)
clean_factory-Swept_example =
    clean_factory-Swept 0 registered_factories furnished refl refl
      (record {
        factories_distinct = stocked-IsLayer.factories_distinct;
        factories_live = stocked-IsLayer.factories_live;
        objects_distinct = stocked-IsLayer.objects_distinct;
        objects_live = stocked-IsLayer.objects_live;
      })
      furnished-IsSound

-- A third factory has just been made, at 6.
abbrev grown : Memory
grown = record stocked { bom_factories = update stocked.bom_factories 6 (some []) }

grown-IsLayer : IsLayer grown (some 1 ∷ some 2 ∷ [])
unfolding objects
grown-IsLayer = record {
  factories_distinct = (refl, (refl, tt));
  factories_live = λ f h. ground (arith, h);
  objects_distinct = (refl, (refl, (refl, tt)));
  objects_live = λ a h. ground (arith, h);
}

register_bom_factory-IsLayer_example :
    (register_bom_factory (some 0) (some 6) grown ≡ (ok tt, registered 0 6 two_factories grown))
    × IsLayer (registered 0 6 two_factories grown) (some 1 ∷ some 2 ∷ some 6 ∷ [])
register_bom_factory-IsLayer_example =
    register_bom_factory-IsLayer 0 6 two_factories grown refl grown-IsLayer refl refl
