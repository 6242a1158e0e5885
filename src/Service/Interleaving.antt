-- ===== src/Service/Interleaving.antt =====
-- One service among others: the steps of a client on several services, in any order.
use simcrs.Base.{some, ◌≡◌, refl, subst, ◌∙◌, ap, arith, ◌==◌, Bool-cases, Option-cases, inl, inr}
use simcrs.Stdair.{Stdair}
use simcrs.Calls.{World}
use simcrs.Exec.{◌>>=◌}
use simcrs.Context.{Context}
use simcrs.Memory.{Address, at}
use simcrs.Factory.Sound.{IsSound, IsSound-bounded}
use simcrs.Program.{Program}
use simcrs.Service.{Service, asserted_context, finalise, destroy}
use simcrs.Service.Operation.{Operation, perform}
use simcrs.Service.Building.{Components, Serves}
use simcrs.Service.Delegation.{delegated, perform-delegated}
use simcrs.Service.Placement.{at_address}
use simcrs.Service.Finalisation.{destroy-IsReleased}
use simcrs.Service.Separation.{construct_owning-Fixed, construct_borrowing-Fixed}
use simcrs.Service.Frame.{perform-memory}
use simcrs.Service.Machine.{Event, making, untouched, ending, cleaning, end_at}
use simcrs.Service.Phases.{event}
use simcrs.Service.Life.{
  Step, make_owning, make_borrowing, use_service, end_service, clean, Reachable, then_step,
  Reachable-IsSound,
}

-- The event neither ends the service there nor cleans the factories.
abbrev pub Spares : Event → Type 0
Spares making = Unit {0}
Spares untouched = Unit {0}
Spares ending = ⊥
Spares cleaning = ⊥

module _ {S : Stdair} where
  -- The end of another service.
  destroy-others :
      (svc : Service) (s : Program S) (a : Address)
      → IsSound s.memory
      → Spares (end_at svc.context a)
      → (destroy svc s).1.memory.contexts a ≡ s.memory.contexts a
  destroy-others svc s a sound spares = elim (Option-cases svc.context) [
    | inl e ↦ unfold destroy finalise asserted_context ◌>>=◌ in rw e refl
    | inr (b, e) ↦ elim (Option-cases (s.memory.contexts b)) [
      | inl out ↦ unfold destroy finalise asserted_context ◌>>=◌ in rw (e, out) refl
      | inr (c, there) ↦ elim (Bool-cases (b == a)) [
        | inl same ↦
            let here : end_at svc.context a ≡ ending = rw (e, same) refl in
            absurd (subst Spares here spares)
        | inr apart ↦ rw e ((destroy-IsReleased b s c there sound).4 a (ground (arith, apart)))
      ]
    ]
  ]

  module _ (world : World S) (a : Address) where
    -- A context stays as it is through the steps that spare it.
    Step-context :
        {s t : Program S} {c : Context}
        → IsSound s.memory
        → s.memory.contexts a ≡ some c
        → (step : Step world s t) → Spares (event world step a)
        → t.memory.contexts a ≡ some c
    Step-context {s} {c = c} sound there (make_owning log db code) spares =
        (construct_owning-Fixed a (some c) world code s sound log db
          (there, IsSound-bounded sound a c there)).0
    Step-context {s} {c = c} sound there (make_borrowing h g code) spares =
        (construct_borrowing-Fixed a (some c) world code s sound h g
          (there, IsSound-bounded sound a c there)).0
    Step-context {s} sound there (use_service svc op) spares =
        ap (λ m. m.contexts a) (perform-memory world svc op s).0 ∙ there
    Step-context {s} sound there (end_service svc) spares =
        destroy-others svc s a sound spares ∙ there
    Step-context sound there clean spares = absurd spares

    -- Steps, each of which spares the service at `a`.
    pub data Meanwhile (s : Program S) : Program S → Type 0 where
      nothing : Meanwhile s s
      and_then :
          {t u : Program S}
          → Meanwhile s t
          → (step : Step world t u) → Spares (event world step a)
          → Meanwhile s u

    Meanwhile-context :
        {s t : Program S} {c : Context}
        → Reachable world s
        → s.memory.contexts a ≡ some c
        → Meanwhile s t
        → Reachable world t × (t.memory.contexts a ≡ some c)
    Meanwhile-context r there nothing = (r, there)
    Meanwhile-context r there (and_then ss step spares) =
        let (r', there') = Meanwhile-context r there ss in
        (then_step r' step, Step-context (Reachable-IsSound world r') there' step spares)

    -- In a program that steps lead to, take a service whose context has the components `k`. Whatever
    -- services are made, used and destroyed meanwhile, in any order, itself used but not destroyed and the
    -- factories not cleaned, each of its public methods still does what `delegated` says with `k`.
    pub Meanwhile-delegated :
        {s t : Program S} {c : Context} (k : Components) (op : Operation S)
        → Reachable world s
        → s.memory.contexts a ≡ some c
        → Serves c k
        → Meanwhile s t
        → perform world (at_address a) op t ≡ delegated world k op t
    Meanwhile-delegated {t = t} {c = c} k op r there has ss =
        perform-delegated world k (at_address a) c op t
          (rw ((Meanwhile-context r there ss).1, at) refl) has
