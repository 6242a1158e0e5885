-- ===== src/Factory/Making.antt =====
-- `FacSimcrsServiceContext::instance` and `create` on factories in order.
use simcrs.Base.{
  ◌≤◌, suc, String, false, none, some, List, [], ◌∷◌, ◌++◌, ◌≡◌, refl, arith, ◌==◌, if◌then◌else◌,
  Bool-cases, inl, inr,
}
use simcrs.Exec.{ok, ◌>>=◌}
use simcrs.Context.{new_context}
use simcrs.Memory.{Memory, Address, Ptr}
use simcrs.Factory.ServiceContext.{get_instance, create}
use simcrs.Factory.Pool.{member-snoc, Distinct-snoc}
use simcrs.Factory.Sound.{member, Owns, Managed, IsSound, idle, supervised, managed}

-- What `FacSimcrsServiceContext::instance` leaves: the factory that it returns is registered, and
-- the contexts are those of before.
record Made (m : Memory) (f : Address) (pool : List Ptr) : Type 0 where
  returned : (get_instance m).0 ≡ ok (some f)
  in_order : Managed (get_instance m).1 f pool
  contexts : (get_instance m).1.contexts ≡ m.contexts
  grown : m.next ≤ (get_instance m).1.next

get_instance-Made_idle :
    {m : Memory}
    → m.supervisor_instance ≡ none
    → m.context_factory_instance ≡ none
    → Owns m []
    → Made m m.next []
unfolding get_instance ◌>>=◌
get_instance-Made_idle {m} es ef o = record {
  returned = ground arith;
  in_order = record {
    supervisor = suc m.next;
    instance_there = ground arith;
    supervisor_there = ground arith;
    factory_instance = ground arith;
    factory_there = ground arith;
    owns = record { distinct = tt; live = λ a. ground (arith, o.live a); bounded = λ a h. cc };
  };
  contexts = ground arith;
  grown = ground arith;
}

get_instance-Made_supervised :
    {m : Memory} (s : Address)
    → m.supervisor_instance ≡ some s
    → m.supervisors s ≡ some (record { bom_pool = []; svc_pool = [] })
    → m.context_factory_instance ≡ none
    → Owns m []
    → Made m m.next []
unfolding get_instance ◌>>=◌
get_instance-Made_supervised {m} s es es' ef o = record {
  returned = ground arith;
  in_order = record {
    supervisor = s;
    instance_there = ground arith;
    supervisor_there = ground arith;
    factory_instance = ground arith;
    factory_there = ground arith;
    owns = record { distinct = tt; live = λ a. ground (arith, o.live a); bounded = λ a h. cc };
  };
  contexts = ground arith;
  grown = ground arith;
}

get_instance-again :
    {m : Memory} {f : Address} {pool : List Ptr}
    → Managed m f pool
    → get_instance m ≡ (ok (some f), m)
unfolding get_instance ◌>>=◌
get_instance-again v = rw v.factory_instance refl

get_instance-Made_again :
    {m : Memory} {f : Address} {pool : List Ptr} → Managed m f pool → Made m f pool
get_instance-Made_again {m} {f} {pool} v =
    let e = get_instance-again v in
    record {
      returned = rw e refl;
      in_order = rw e v;
      contexts = rw e refl;
      grown = rw e (omega arith);
    }

get_instance-Made : {m : Memory} → IsSound m → (f : Address) × (pool : List Ptr) × Made m f pool
get_instance-Made {m} (idle es ef o) = (m.next, [], get_instance-Made_idle es ef o)
get_instance-Made {m} (supervised s es es' ef o) =
    (m.next, [], get_instance-Made_supervised s es es' ef o)
get_instance-Made (managed f pool v) = (f, pool, get_instance-Made_again v)

-- From factories in order, `FacSimcrsServiceContext::instance` returns the one registered factory,
-- made if it was not there; the contexts stay. When it is called again, it returns the same and
-- changes nothing.
pub get_instance-Managed :
    {m : Memory}
    → IsSound m
    → (f : Address) × (pool : List Ptr) × ((get_instance m).0 ≡ ok (some f))
      × Managed (get_instance m).1 f pool
      × ((get_instance m).1.contexts ≡ m.contexts)
      × (get_instance (get_instance m).1 ≡ (ok (some f), (get_instance m).1))
get_instance-Managed sound =
    let (f, pool, made) = get_instance-Made sound in
    (f, pool, made.returned, made.in_order, made.contexts, get_instance-again made.in_order)

-- No address is given back.
pub get_instance-next : {m : Memory} → IsSound m → m.next ≤ (get_instance m).1.next
get_instance-next sound = (get_instance-Made sound).2.grown

not-member-next : {m : Memory} (pool : List Ptr) → Owns m pool → member m.next pool ≡ false
not-member-next {m} pool o = elim (Bool-cases (member m.next pool)) [
  | inl h ↦ absurd (omega (arith, o.bounded m.next h))
  | inr h ↦ h
]

module _ {m : Memory} {f : Address} {pool : List Ptr} (code : String) (v : Managed m f pool) where
  pub create-returned : (create (some f) code m).0 ≡ ok (some m.next)
  unfolding create ◌>>=◌
  create-returned = ground (arith, v.factory_there)

  -- Only the new context differs, and it is as its constructor leaves it.
  pub create-contexts :
      (a : Address)
      → (create (some f) code m).1.contexts a
        ≡ (if m.next == a then some (new_context code) else m.contexts a)
  unfolding create ◌>>=◌
  create-contexts a = ground (arith, v.factory_there)

  pub create-next : (create (some f) code m).1.next ≡ suc m.next
  unfolding create ◌>>=◌
  create-next = ground (arith, v.factory_there)

  create-Owns : Owns (create (some f) code m).1 (pool ++ some m.next ∷ [])
  create-Owns = record {
    distinct = Distinct-snoc m.next pool v.owns.distinct (not-member-next pool v.owns);
    live = λ a. ground (arith, create-contexts a, member-snoc a m.next pool, v.owns.live a);
    bounded = λ a h. ground (arith, create-next, member-snoc a m.next pool, v.owns.bounded a);
  }

  -- `FacSimcrsServiceContext::create` adds the new context to the factory's pool.
  pub create-Managed : Managed (create (some f) code m).1 f (pool ++ some m.next ∷ [])
  unfolding create ◌>>=◌
  create-Managed = record {
    supervisor = v.supervisor;
    instance_there = ground (arith, v.factory_there, v.instance_there);
    supervisor_there = ground (arith, v.factory_there, v.supervisor_there);
    factory_instance = ground (arith, v.factory_there, v.factory_instance);
    factory_there = ground (arith, v.factory_there);
    owns = create-Owns;
  }
