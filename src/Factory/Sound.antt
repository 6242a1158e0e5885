-- ===== src/Factory/Sound.antt =====
-- What holds of the factories and their objects while only SimCRS works on them.
use simcrs.Base.{
  ◌<◌, Bool, true, false, none, some, List, [], ◌∷◌, ◌≡◌, ◌==◌, if◌then◌else◌, is_some, arith,
}
use simcrs.Context.{Context}
use simcrs.Memory.{Memory, Address, Ptr}

-- Whether an address is in a pool.
abbrev pub member : Address → List Ptr → Bool
member a [] = false
member a (none ∷ ps) = member a ps
member a (some b ∷ ps) = if b == a then true else member a ps

-- No NULL and no address twice.
abbrev pub Distinct : List Ptr → Type 0
Distinct [] = Unit {0}
Distinct (none ∷ ps) = ⊥
Distinct (some a ∷ ps) = (member a ps ≡ false) × Distinct ps

-- The pool holds each live service context once, and nothing else.
pub record Owns (m : Memory) (pool : List Ptr) : Type 0 where
  pub distinct : Distinct pool
  pub live : (a : Address) → is_some (m.contexts a) ≡ member a pool
  pub bounded : (a : Address) → member a pool ≡ true → a < m.next

-- `f` is the one context factory, registered once with the one supervisor.
pub record Managed (m : Memory) (f : Address) (pool : List Ptr) : Type 0 where
  pub supervisor : Address
  pub instance_there : m.supervisor_instance ≡ some supervisor
  pub supervisor_there :
      m.supervisors supervisor ≡ some (record { bom_pool = []; svc_pool = some f ∷ [] })
  pub factory_instance : m.context_factory_instance ≡ some f
  pub factory_there : m.service_factories f ≡ some pool
  pub owns : Owns m pool

-- No factory yet, or none any more; the supervisor is there or not.
pub data IsSound (m : Memory) : Type 0 where
  idle : m.supervisor_instance ≡ none → m.context_factory_instance ≡ none → Owns m [] → IsSound m
  supervised :
      (s : Address)
      → m.supervisor_instance ≡ some s
      → m.supervisors s ≡ some (record { bom_pool = []; svc_pool = [] })
      → m.context_factory_instance ≡ none
      → Owns m []
      → IsSound m
  managed : (f : Address) (pool : List Ptr) → Managed m f pool → IsSound m

module _ {m : Memory} where
  Owns-bounded :
      {pool : List Ptr} (a : Address) (c : Context)
      → Owns m pool
      → m.contexts a ≡ some c
      → a < m.next
  Owns-bounded a c o e = o.bounded a (ground (arith, e, o.live a))

  -- A live context stands at an address that has been given out.
  pub IsSound-bounded : IsSound m → (a : Address) (c : Context) → m.contexts a ≡ some c → a < m.next
  IsSound-bounded (idle es ef o) a c e = Owns-bounded a c o e
  IsSound-bounded (supervised s es es' ef o) a c e = Owns-bounded a c o e
  IsSound-bounded (managed f pool v) a c e = Owns-bounded a c v.owns e
