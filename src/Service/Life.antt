-- ===== src/Service/Life.antt =====
-- The lives of any number of services, as a step relation on the program.
use simcrs.Base.{
  Bool, arith, [], String, true, Option, none, some, refl, sym, subst, Option-cases, inl, inr,
}
use simcrs.Stdair.{Stdair}
use simcrs.Calls.{Handle, World}
use simcrs.Exec.{Result, ok, err, ◌>>=◌}
use simcrs.Memory.{Memory, empty_memory}
use simcrs.Factory.Sound.{IsSound, idle}
use simcrs.Factory.Supervisor.{clean_factory}
use simcrs.Factory.Cleaning.{clean_factory-Cleaned}
use simcrs.Program.{Program, in_memory}
use simcrs.Service.{
  Service, asserted_context, finalise, destroy, construct_owning, construct_borrowing,
}
use simcrs.Service.Operation.{Operation, perform}
use simcrs.Service.Safety.{IsThrown}
use simcrs.Service.Constructors.{Built, construct_owning-Built, construct_borrowing-IsSound}
use simcrs.Service.Refusal.{construct_borrowing-Refuses, Refuses-IsSound}
use simcrs.Service.Finalisation.{destroy-IsReleased}
use simcrs.Service.Frame.{perform-memory}

module _ {S : Stdair} (world : World S) where
  -- What a client does: it makes a service, uses one, destroys one, or cleans the factories, each
  -- of them whether it succeeds or not.
  pub data Step (s : Program S) : Program S → Type 0 where
    make_owning :
        (log : S.LogParams) (db : Option S.DbParams) (code : String)
        → Step s (construct_owning world log db code s).1
    make_borrowing :
        (h g : Option Handle) (code : String) → Step s (construct_borrowing world h g code s).1
    use_service : (svc : Service) (op : Operation S) → Step s (perform world svc op s).1
    end_service : (svc : Service) → Step s (destroy svc s).1
    clean : Step s (in_memory clean_factory s).1

  -- A program that its steps lead to, from one that has just started.
  pub data Reachable : Program S → Type 0 where
    started : Reachable (record { memory = empty_memory; history = [] })
    then_step : {s t : Program S} → Reachable s → Step s t → Reachable t

Built-IsSound :
    {S : Stdair} (own : Bool) (code : String) (p : Result Service × Program S)
    → Built IsThrown own code p
    → IsSound p.1.memory
Built-IsSound own code (ok svc, s) b = b.5
Built-IsSound own code (err e, s) b = b.1

clean_factory-IsSound : {m : Memory} → IsSound m → IsSound (clean_factory m).1
clean_factory-IsSound sound =
    let c = clean_factory-Cleaned sound in
    idle c.supervisor c.factory (record {
      distinct = tt;
      live = λ a. rw (c.contexts a) refl;
      bounded = λ a h. ground (arith, h);
    })

destroy-IsSound :
    {S : Stdair} (svc : Service) (s : Program S)
    → IsSound s.memory
    → IsSound (destroy svc s).1.memory
destroy-IsSound svc s sound = elim (Option-cases svc.context) [
  | inl e ↦ unfold destroy finalise asserted_context ◌>>=◌ in rw e sound
  | inr (a, e) ↦ elim (Option-cases (s.memory.contexts a)) [
    | inl gone ↦ unfold destroy finalise asserted_context ◌>>=◌ in rw (e, gone) sound
    | inr (c, there) ↦
        subst (λ p. IsSound (destroy (record { context = p }) s).1.memory) (sym e)
          ((destroy-IsReleased a s c there sound).3)
  ]
]

module _ {S : Stdair} (world : World S) where
  pub Step-IsSound : {s t : Program S} → Step world s t → IsSound s.memory → IsSound t.memory
  Step-IsSound {s} (make_owning log db code) sound =
      Built-IsSound true code _ (construct_owning-Built world code log db s sound)
  Step-IsSound {s} (make_borrowing h none code) sound =
      Refuses-IsSound (construct_borrowing-Refuses world h code s sound)
  Step-IsSound {s} (make_borrowing h (some g) code) sound =
      construct_borrowing-IsSound IsThrown world (λ h c what r. tt) code h g s sound
  Step-IsSound {s} (use_service svc op) sound =
      subst IsSound (sym (perform-memory world svc op s).0) sound
  Step-IsSound {s} (end_service svc) sound = destroy-IsSound svc s sound
  Step-IsSound clean sound = unfold in_memory in clean_factory-IsSound sound

  -- In every program that steps lead to, the factories are in order: there is no context factory and
  -- no live context, or one context factory, registered once, whose pool has each live context once.
  pub Reachable-IsSound : {s : Program S} → Reachable world s → IsSound s.memory
  Reachable-IsSound started =
      idle refl refl
        (record { distinct = tt; live = λ a. refl; bounded = λ a h. ground (arith, h) })
  Reachable-IsSound (then_step r t) = Step-IsSound t (Reachable-IsSound r)
