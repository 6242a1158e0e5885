-- ===== src/Service/Placement.antt =====
-- A context of the factories, read, written and made by the helpers of SIMCRS_Service.
use simcrs.Base.{◌≤◌, String, some, List, ◌≡◌, refl, ◌∙◌, arith}
use simcrs.Stdair.{Stdair}
use simcrs.Exec.{ok, ◌>>=◌}
use simcrs.Context.{Context, new_context}
use simcrs.Memory.{Memory, Address, Ptr, update}
use simcrs.Factory.Sound.{Owns, IsSound, idle, supervised, managed}
use simcrs.Factory.ServiceContext.{get_instance, create}
use simcrs.Factory.Promise.{Gives, create-Gives}
use simcrs.Program.{Program}
use simcrs.Service.{Service, asserted_context, change_context, init_service_context}

abbrev pub with_context : Memory → Address → Context → Memory
with_context m a c = record m { contexts = update m.contexts a (some c) }

-- A live context that is written leaves the factories in order.
with_context-Owns :
    {m : Memory} {pool : List Ptr} (a : Address) {c : Context} (d : Context)
    → m.contexts a ≡ some c
    → Owns m pool
    → Owns (with_context m a d) pool
with_context-Owns a d e o = record {
  distinct = o.distinct;
  live = λ b. ground (arith, o.live b, o.live a);
  bounded = o.bounded;
}

pub with_context-IsSound :
    {m : Memory} (a : Address) {c : Context} (d : Context)
    → m.contexts a ≡ some c
    → IsSound m
    → IsSound (with_context m a d)
with_context-IsSound a d e (idle es ef o) = idle es ef (with_context-Owns a d e o)
with_context-IsSound a d e (supervised s es es' ef o) =
    supervised s es es' ef (with_context-Owns a d e o)
with_context-IsSound a d e (managed f pool v) = managed f pool (record {
  supervisor = v.supervisor;
  instance_there = v.instance_there;
  supervisor_there = v.supervisor_there;
  factory_instance = v.factory_instance;
  factory_there = v.factory_there;
  owns = with_context-Owns a d e v.owns;
})

-- The context at `a` is `c`, and the factories are in order.
pub record Has {S : Stdair} (s : Program S) (a : Address) (c : Context) : Type 0 where
  pub context : s.memory.contexts a ≡ some c
  pub sound : IsSound s.memory

abbrev pub at_address : Address → Service
at_address a = record { context = some a }

module _ {S : Stdair} (a : Address) where
  -- Reading the context changes nothing.
  pub asserted_context-Has :
      {s : Program S} {c : Context} → Has s a c → asserted_context (at_address a) s ≡ (ok c, s)
  unfolding asserted_context ◌>>=◌
  asserted_context-Has has = rw has.context refl

  pub change_context-Has :
      {s : Program S} {c : Context} (f : Context → Context)
      → Has s a c
      → change_context (at_address a) f s
        ≡ (ok tt, record s { memory = with_context s.memory a (f c) })
  unfolding change_context ◌>>=◌
  change_context-Has f has = ground (arith, has.context)

-- The program after `initServiceContext`, by what the factories gave.
abbrev pub placed : {S : Stdair} {code : String} (s : Program S) → Gives code s.memory → Program S
placed {code = code} s g = record s {
  memory = (create (some g.factory) code (get_instance s.memory).1).1;
}

module _ {S : Stdair} (code : String) (s : Program S) where
  pub init_service_context-placed :
      (g : Gives code s.memory)
      → init_service_context code s ≡ (ok (at_address g.address), placed s g)
  unfolding init_service_context ◌>>=◌
  init_service_context-placed g = rw (g.instance, g.returned) refl

  -- The new context stands there, as its constructor leaves it.
  pub placed-Has : (g : Gives code s.memory) → Has (placed s g) g.address (new_context code)
  placed-Has g = record { context = g.contexts g.address ∙ ground arith; sound = g.sound }

  pub init_service_context-Placed :
      IsSound s.memory
      → (a : Address) × (m : Memory) × (init_service_context code s
          ≡ (ok (at_address a), record s { memory = m }))
        × Has (record s { memory = m }) a (new_context code)
        × (s.memory.next ≤ a)
  init_service_context-Placed sound =
      let g = create-Gives code sound in
      (g.address, (placed s g).memory, init_service_context-placed g, placed-Has g, g.fresh)

  pub init_service_context-Has :
      IsSound s.memory
      → (a : Address) × (s' : Program S) × (init_service_context code s ≡ (ok (at_address a), s'))
        × Has s' a (new_context code)
  init_service_context-Has sound =
      let g = create-Gives code sound in
      (g.address, placed s g, init_service_context-placed g, placed-Has g)
