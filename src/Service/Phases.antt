-- ===== src/Service/Phases.antt =====
-- The program as a refinement of the abstract machine of Machine.antt, address by address.
use simcrs.Base.{◌≡◌, refl, ap, Option-cases, inl, inr}
use simcrs.Stdair.{Stdair}
use simcrs.Calls.{World}
use simcrs.Exec.{◌>>=◌}
use simcrs.Memory.{Address}
use simcrs.Factory.Sound.{IsSound}
use simcrs.Program.{Program, in_memory}
use simcrs.Service.{
  Service, asserted_context, finalise, destroy, construct_owning, construct_borrowing,
}
use simcrs.Service.Finalisation.{finalise-Has}
use simcrs.Service.Separation.{construct_owning-Fixed, construct_borrowing-Fixed}
use simcrs.Service.Frame.{perform-memory}
use simcrs.Service.Life.{
  Step, make_owning, make_borrowing, use_service, end_service, clean, Reachable, Reachable-IsSound,
}
use simcrs.Service.Machine.{
  phase, next, Event, making, untouched, cleaning, end_at, Advances, follows-next, Advances-made,
  reset-phase, end-gone, clean_factory-phase,
}

module _ {S : Stdair} where
  destroy-phase :
      (svc : Service) (s : Program S) (a : Address)
      → IsSound s.memory
      → phase (destroy svc s).1.memory a ≡ next (end_at svc.context a) (phase s.memory a)
  destroy-phase svc s a sound = elim (Option-cases svc.context) [
    | inl e ↦ unfold destroy finalise asserted_context ◌>>=◌ in rw e refl
    | inr (b, e) ↦ elim (Option-cases (s.memory.contexts b)) [
      | inl out ↦
          unfold destroy finalise asserted_context ◌>>=◌ in rw (e, out) (end-gone s.memory a b out)
      | inr (c, there) ↦ rw e (
          unfold destroy in
          rw (finalise-Has b {s = s} (record { context = there; sound = sound }))
            (reset-phase s.memory a b c there))
    ]
  ]

  module _ (world : World S) where
    -- What a step does about the address `a`.
    abbrev pub event : {s t : Program S} → Step world s t → Address → Event
    event (make_owning log db code) a = making
    event (make_borrowing h g code) a = making
    event (use_service svc op) a = untouched
    event (end_service svc) a = end_at svc.context a
    event clean a = cleaning

    -- From any program that steps lead to, each step of a client takes each address along the abstract
    -- machine: the end of a service empties the context of that service and changes no other, to clean
    -- the factories deletes every context, to make a service gives out new addresses only, and to use
    -- one changes nothing.
    pub Step-Advances :
        {s t : Program S} (a : Address)
        → Reachable world s
        → (step : Step world s t) → Advances (event step a) (phase s.memory a) (phase t.memory a)
    unfolding in_memory
    Step-Advances {s} a r (make_owning log db code) =
        let sound = Reachable-IsSound world r in
        Advances-made (construct_owning world log db code s).1.memory a sound λ given.
          construct_owning-Fixed a (s.memory.contexts a) world code s sound log db (refl, given)
    Step-Advances {s} a r (make_borrowing h g code) =
        let sound = Reachable-IsSound world r in
        Advances-made (construct_borrowing world h g code s).1.memory a sound λ given.
          construct_borrowing-Fixed a (s.memory.contexts a) world code s sound h g (refl, given)
    Step-Advances {s} a r (use_service svc op) =
        follows-next untouched (phase s.memory a)
          (ap (λ m. phase m a) (perform-memory world svc op s).0)
    Step-Advances {s} a r (end_service svc) =
        follows-next (end_at svc.context a) (phase s.memory a)
          (destroy-phase svc s a (Reachable-IsSound world r))
    Step-Advances {s} a r clean =
        follows-next cleaning (phase s.memory a) (clean_factory-phase a (Reachable-IsSound world r))
