-- ===== src/Service/Machine.antt =====
-- What becomes of an address in a service's life: a small abstract machine, and the objects of SimCRS
-- as its states.
use simcrs.Base.{
  ◌<◌, Bool, true, false, Option, none, some, is_some, ◌≡◌, refl, sym, subst, ap, ◌∙◌, arith, ltb,
  ◌==◌, ◌||◌, if◌then◌else◌, Bool-cases, Option-cases, inl, inr,
}
use simcrs.Context.{Context, reset}
use simcrs.Memory.{Memory, Address}
use simcrs.Factory.Sound.{IsSound, IsSound-bounded}
use simcrs.Factory.Supervisor.{clean_factory}
use simcrs.Factory.Cleaning.{clean_factory-Cleaned}
use simcrs.Service.Placement.{with_context}
use simcrs.Service.Separation.{Fixed}

-- An address that was not given out yet, a context that holds a component, one that holds none, and
-- an address without a context any more.
pub data Phase : Type 0 where
  unborn : Phase
  holding : Phase
  emptied : Phase
  gone : Phase

-- Whether a context holds a component.
abbrev holds : Context → Bool
holds c =
    is_some c.stdair_service
    || is_some c.sevmgr_service
    || is_some c.airtsp_service
    || is_some c.airinv_service
    || is_some c.simfqt_service

abbrev context_phase : Option Context → Bool → Phase
context_phase (some c) given = if holds c then holding else emptied
context_phase none given = if given then gone else unborn

abbrev pub phase : Memory → Address → Phase
phase m a = context_phase (m.contexts a) (ltb a m.next)

-- What a step does about an address: it makes a service, leaves the address alone, ends the service
-- there, or cleans the factories.
pub data Event : Type 0 where
  making : Event
  untouched : Event
  ending : Event
  cleaning : Event

abbrev pub next : Event → Phase → Phase
next making p = p
next untouched p = p
next ending unborn = unborn
next ending holding = emptied
next ending emptied = emptied
next ending gone = gone
next cleaning unborn = unborn
next cleaning holding = gone
next cleaning emptied = gone
next cleaning gone = gone

-- The abstract machine: each event has one outcome, but for an address that is given out while a
-- service is made. A context is emptied once, and nothing fills it again.
pub data Advances : Event → Phase → Phase → Type 0 where
  follows : (e : Event) (p : Phase) → Advances e p (next e p)
  born : (q : Phase) → Advances making unborn q

pub follows-next : (e : Event) (p : Phase) {q : Phase} → q ≡ next e p → Advances e p q
follows-next e p same = subst (Advances e p) (sym same) (follows e p)

next-given : (o : Option Context) → next cleaning (context_phase o true) ≡ gone
next-given none = refl
next-given (some c) = elim (Bool-cases (holds c)) [ inl h ↦ rw h refl | inr h ↦ rw h refl ]

phase-unborn : {m : Memory} (a : Address) → IsSound m → ltb a m.next ≡ false → phase m a ≡ unborn
phase-unborn {m} a sound fresh = elim (Option-cases (m.contexts a)) [
  | inl e ↦ rw (e, fresh) refl
  | inr (c, e) ↦ absurd (ground (arith, fresh, IsSound-bounded sound a c e))
]

-- A step that makes at most new contexts.
pub Advances-made :
    {m : Memory} (m' : Memory) (a : Address)
    → IsSound m
    → (a < m.next → Fixed a (m.contexts a) m')
    → Advances making (phase m a) (phase m' a)
Advances-made {m} m' a sound fixed = elim (Bool-cases (ltb a m.next)) [
  | inl given ↦
      let q = fixed (ground (arith, given)) in
      follows-next making (phase m a) (
        ap (λ o. context_phase o (ltb a m'.next)) q.0
        ∙ ap (context_phase (m.contexts a)) (ground (arith, given, q.1)))
  | inr fresh ↦ rw (phase-unborn a sound fresh) (born (phase m' a))
]

-- The service at `b` ends.
abbrev pub end_at : Option Address → Address → Event
end_at none a = untouched
end_at (some b) a = if b == a then ending else untouched

-- One context lets go of what it holds.
pub reset-phase :
    (m : Memory) (a b : Address) (c : Context)
    → m.contexts b ≡ some c
    → phase (with_context m b (reset c)) a ≡ next (end_at (some b) a) (phase m a)
unfolding reset
reset-phase m a b c there = elim (Bool-cases (b == a)) [
  | inl same ↦
      let e : m.contexts a ≡ some c = ground (arith, same, there) in
      elim (Bool-cases (holds c)) [ inl h ↦ rw (e, same, h) refl | inr h ↦ rw (e, same, h) refl ]
  | inr apart ↦ rw apart refl
]

-- A service whose context is not there does not change.
pub end-gone :
    (m : Memory) (a b : Address)
    → m.contexts b ≡ none
    → phase m a ≡ next (end_at (some b) a) (phase m a)
end-gone m a b out = elim (Bool-cases (b == a)) [
  | inl same ↦
      let e : m.contexts a ≡ none = ground (arith, same, out) in
      elim (Bool-cases (ltb a m.next)) [
        | inl h ↦ rw (e, same, h) refl
        | inr h ↦ rw (e, same, h) refl
      ]
  | inr apart ↦ rw apart refl
]

pub clean_factory-phase :
    {m : Memory} (a : Address) → IsSound m → phase (clean_factory m).1 a ≡ next cleaning (phase m a)
clean_factory-phase {m} a sound =
    let c = clean_factory-Cleaned sound in
    elim (Bool-cases (ltb a m.next)) [
      | inl given ↦ rw (c.contexts a, c.next, given) (sym (next-given (m.contexts a)))
      | inr fresh ↦ rw (phase-unborn a sound fresh) (rw (c.contexts a, c.next, fresh) refl)
    ]
