-- ===== src/Factory/Layer.antt =====
-- `FacSupervisor::cleanBomLayer`, over any number of factories of business objects.
use simcrs.Base.{
  true, false, none, some, List, [], ◌∷◌, ◌++◌, ◌≡◌, refl, arith, is_some, Option-cases, inl, inr,
  ◌∙◌, subst,
}
use mathlib.Core.Path.{fun_ext}
use simcrs.Exec.{ok, ◌>>=◌}
use simcrs.Memory.{Memory, Address, Ptr, Store, Supervisor, update}
use simcrs.Factory.Service.{delete_all}
use simcrs.Factory.Bom.{delete_bom, clean, destroy, delete_factory}
use simcrs.Factory.Supervisor.{clean_bom_layer}
use simcrs.Factory.Sound.{member, Distinct}
use simcrs.Factory.Pool.{
  without, member-append, without-append, without-outside, Apart, Distinct-append, Part, Deletes,
  delete_all-without,
}

-- The objects of some factories, by their pools.
unfoldable pub objects : Store (List Ptr) → List Ptr → List Ptr
objects fac [] = []
objects fac (none ∷ fs) = objects fac fs
objects fac (some f ∷ fs) = (elim (fac f) [ none ↦ [] | some ps ↦ ps ]) ++ objects fac fs

-- The factories and their objects are live, and each is there once.
pub record IsLayer (m : Memory) (fs : List Ptr) : Type 0 where
  pub factories_distinct : Distinct fs
  pub factories_live : (f : Address) → member f fs ≡ true → is_some (m.bom_factories f) ≡ true
  pub objects_distinct : Distinct (objects m.bom_factories fs)
  pub objects_live :
      (a : Address) → member a (objects m.bom_factories fs) ≡ true → is_some (m.boms a) ≡ true

boms_part : Part (Unit {0})
boms_part = record {
  get = λ m. m.boms;
  put = λ m f. record m { boms = f };
  get-put = λ m f. refl;
  put-put = λ m f g. refl;
  put-get = λ m. refl;
}

delete_bom-Deletes : Deletes boms_part delete_bom
unfolding boms_part delete_bom ◌>>=◌
delete_bom-Deletes c m x e = ground (arith, e)

delete_all-boms :
    (ps : List Ptr) (m : Memory)
    → Distinct ps
    → ((a : Address) → member a ps ≡ true → is_some (m.boms a) ≡ true)
    → delete_all delete_bom ps m ≡ (ok tt, record m { boms = without ps m.boms })
unfolding boms_part
delete_all-boms = delete_all-without boms_part delete_bom delete_bom-Deletes

-- A factory that goes is cleaned before.
abbrev removed : Store (List Ptr) → Address → Store (List Ptr)
removed fac f = update (update fac f (some [])) f none

removed-without :
    (f : Address) (fs : List Ptr) (fac : Store (List Ptr))
    → without fs (removed fac f) ≡ without (some f ∷ fs) fac
unfolding without
removed-without f fs fac = fun_ext λ a. ground arith

objects-removed :
    (f : Address) (fs : List Ptr) (fac : Store (List Ptr))
    → member f fs ≡ false
    → objects (removed fac f) fs ≡ objects fac fs
unfolding objects
objects-removed f [] fac h = refl
objects-removed f (none ∷ fs) fac h = objects-removed f fs fac h
objects-removed f (some g ∷ fs) fac h = ground (arith, objects-removed f fs fac)

-- `delete` of a factory deletes its objects, and then itself.
delete_factory-removed :
    (f : Address) (ps : List Ptr) (m : Memory)
    → m.bom_factories f ≡ some ps
    → Distinct ps
    → ((a : Address) → member a ps ≡ true → is_some (m.boms a) ≡ true)
    → delete_factory (some f) m
      ≡ (ok tt, record m { boms = without ps m.boms; bom_factories = removed m.bom_factories f })
unfolding delete_factory destroy clean ◌>>=◌
delete_factory-removed f ps m there d live = ground (arith, delete_all-boms ps m d live)

module _ (f : Address) (fs ps : List Ptr) (m : Memory) (there : m.bom_factories f ≡ some ps) where
  abbrev next_memory : Memory
  next_memory = record m { boms = without ps m.boms; bom_factories = removed m.bom_factories f }

  objects-there : objects m.bom_factories (some f ∷ fs) ≡ ps ++ objects m.bom_factories fs
  unfolding objects
  objects-there = rw there refl

  module _ (l : IsLayer m (some f ∷ fs)) where
    -- The first factory's pool, beside the objects of the others.
    IsLayer-Apart : Apart ps (objects m.bom_factories fs)
    IsLayer-Apart =
        Distinct-append ps (objects m.bom_factories fs)
          (subst Distinct objects-there l.objects_distinct)

    objects-live :
        (a : Address)
        → member a (ps ++ objects m.bom_factories fs) ≡ true
        → is_some (m.boms a) ≡ true
    objects-live a h = l.objects_live a (rw objects-there h)

    -- The other factories are a layer still.
    IsLayer-rest : IsLayer next_memory fs
    IsLayer-rest =
        let same = objects-removed f fs m.bom_factories l.factories_distinct.0 in
        record {
          factories_distinct = l.factories_distinct.1;
          factories_live = λ g h. ground (arith, l.factories_live g, l.factories_distinct.0);
          objects_distinct = rw same IsLayer-Apart.right;
          objects_live = λ a h.
              let h' : member a (objects m.bom_factories fs) ≡ true =
                subst (λ os. member a os ≡ true) same h in
              rw (without-outside a ps m.boms (IsLayer-Apart.disjoint a h')) (
                objects-live a
                  (ground (arith, h', member-append a ps (objects m.bom_factories fs))));
        }

    first-live : (a : Address) → member a ps ≡ true → is_some (m.boms a) ≡ true
    first-live a h =
        objects-live a (ground (arith, h, member-append a ps (objects m.bom_factories fs)))

-- The loop of `cleanBomLayer`.
delete_all-IsLayer :
    (fs : List Ptr) (m : Memory)
    → IsLayer m fs
    → delete_all delete_factory fs m ≡ (
      ok tt,
      record m {
        boms = without (objects m.bom_factories fs) m.boms;
        bom_factories = without fs m.bom_factories;
      },
    )
unfolding delete_all ◌>>=◌
delete_all-IsLayer [] m l = unfold without objects in refl
delete_all-IsLayer (none ∷ fs) m l = absurd l.factories_distinct
delete_all-IsLayer (some f ∷ fs) m l = elim (Option-cases (m.bom_factories f)) [
  | inl e ↦ absurd (ground (arith, l.factories_live f))
  | inr (ps, e) ↦
      rw
        (delete_factory-removed f ps m e (IsLayer-Apart f fs ps m e l).left
          (first-live f fs ps m e l))
        (delete_all-IsLayer fs (next_memory f fs ps m e) (IsLayer-rest f fs ps m e l)
          ∙ rw
              (
                objects-there f fs ps m e,
                objects-removed f fs m.bom_factories l.factories_distinct.0,
                removed-without f fs m.bom_factories,
                without-append ps (objects m.bom_factories fs) m.boms,
              )
              refl)
]

module _ (s : Address) (pools : Supervisor) (m : Memory) where
  -- Where the factories of the supervisor's pool and their objects are live, and each of them is in
  -- its pool once, `cleanBomLayer` returns: it deletes all of them, each once, empties the pool, and
  -- changes nothing else.
  pub clean_bom_layer-IsLayer :
      m.supervisors s ≡ some pools
      → IsLayer m pools.bom_pool
      → clean_bom_layer (some s) m ≡ (
        ok tt,
        record m {
          boms = without (objects m.bom_factories pools.bom_pool) m.boms;
          bom_factories = without pools.bom_pool m.bom_factories;
          supervisors = update m.supervisors s (some (record pools { bom_pool = [] }));
        },
      )
  unfolding clean_bom_layer ◌>>=◌
  clean_bom_layer-IsLayer there l = ground (arith, there, delete_all-IsLayer pools.bom_pool m l)
