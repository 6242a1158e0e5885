-- ===== src/Factory/Registration.antt =====
-- `FacSupervisor::registerBomFactory`.
use simcrs.Base.{false, none, some, List, [], ◌∷◌, ◌++◌, ◌≡◌, refl, arith, ap, sym}
use simcrs.Exec.{ok, ◌>>=◌}
use simcrs.Memory.{Memory, Address, Ptr, Store, Supervisor, update}
use simcrs.Factory.Supervisor.{register_bom_factory}
use simcrs.Factory.Sound.{member}
use simcrs.Factory.Pool.{member-append, Distinct-snoc}
use simcrs.Factory.Layer.{objects, IsLayer}

-- A factory without objects adds none.
objects-last :
    (f : Address) (fs : List Ptr) (fac : Store (List Ptr))
    → fac f ≡ some []
    → objects fac (fs ++ some f ∷ []) ≡ objects fac fs
unfolding objects
objects-last f [] fac e = rw e refl
objects-last f (none ∷ fs) fac e = objects-last f fs fac e
objects-last f (some g ∷ fs) fac e =
    ap (λ os. (elim (fac g) [ none ↦ [] | some ps ↦ ps ]) ++ os) (objects-last f fs fac e)

module _ (s f : Address) (pools : Supervisor) (m : Memory) where
  abbrev pub registered : Memory
  registered = record m {
    supervisors =
        update m.supervisors s (some (record pools { bom_pool = pools.bom_pool ++ some f ∷ [] }));
  }

  -- A factory of business objects that is live, without objects and not in the pool, is registered
  -- behind the others, and nothing else changes. Where the factories of the pool and their objects
  -- are live, and each of them is in its pool once, that is so afterwards, with the new factory.
  pub register_bom_factory-IsLayer :
      m.supervisors s ≡ some pools
      → IsLayer m pools.bom_pool
      → m.bom_factories f ≡ some []
      → member f pools.bom_pool ≡ false
      → (register_bom_factory (some s) (some f) m ≡ (ok tt, registered))
        × IsLayer registered (pools.bom_pool ++ some f ∷ [])
  unfolding register_bom_factory ◌>>=◌
  register_bom_factory-IsLayer there l live fresh = (
    ground (arith, there),
    record {
      factories_distinct = Distinct-snoc f pools.bom_pool l.factories_distinct fresh;
      factories_live = λ g h.
          ground (arith, l.factories_live g, live, h, member-append g pools.bom_pool (some f ∷ []));
      objects_distinct = rw (objects-last f pools.bom_pool m.bom_factories live) l.objects_distinct;
      objects_live =
          λ a h. l.objects_live a (rw (sym (objects-last f pools.bom_pool m.bom_factories live)) h);
    },
  )
