-- ===== src/Service/Session.antt =====
-- Any number of public methods on one service, one after the other.
use simcrs.Base.{
  List, [], ◌∷◌, ◌++◌, ◌≡◌, sym, ap, ◌∙◌, subst, append_assoc, append-nil, All, All-append,
}
use simcrs.Stdair.{Stdair}
use simcrs.Calls.{Call, World}
use simcrs.Exec.{ok}
use simcrs.Context.{Context}
use simcrs.Memory.{Memory, at}
use simcrs.Program.{Program}
use simcrs.Program.Only.{Ends, Any}
use simcrs.Program.Attempt.{called}
use simcrs.Service.{Service}
use simcrs.Service.Operation.{Operation, perform}
use simcrs.Service.Safety.{IsReady, IsOwn, IsThrown, IsWellFormed, perform-IsOwn}
use simcrs.Service.Frame.{perform-memory}

same_program :
    {S : Stdair} {m n : Memory} {h k : List (Call S)}
    → m ≡ n
    → h ≡ k
    → ◌≡◌ {A = Program S} (record { memory = m; history = h }) (record { memory = n; history = k })
same_program {n} {h} e f =
    ap (λ m. record { memory = m; history = h }) e ∙ ap (λ h. record { memory = n; history = h }) f

module _ {S : Stdair} (world : World S) (svc : Service) where
  -- The client goes on after each, whether it returned or not.
  unfoldable pub session : List (Operation S) → Program S → Program S
  unfolding perform
  session [] s = s
  session (op ∷ ops) s = session ops (perform world svc op s).1

  -- Each of the methods returns, or lets out an exception of another component.
  abbrev pub Usable : List (Operation S) → Program S → Type 0
  Usable [] s = Unit {0}
  Usable (op ∷ ops) s =
      Ends IsThrown Any (perform world svc op s).0 × Usable ops (perform world svc op s).1

  -- From `s` to `t`, no object changes and the calls are of the components of `c`.
  abbrev pub Owned : Context → Program S → Program S → Type 0
  Owned c s t = (cs : List (Call S)) × All (IsOwn c) cs × (t ≡ called world s cs)

  Owned-then : (c : Context) (s t u : Program S) → Owned c s t → Owned c t u → Owned c s u
  Owned-then c s t u (cs, p, e) (ds, q, f) = (
    cs ++ ds,
    All-append (IsOwn c) cs ds p q,
    f ∙ rw e (ap (λ h. record s { history = h }) (append_assoc s.history cs ds)),
  )

  module _ (c : Context) (ready : IsReady c) where
    perform-Owned :
        (op : Operation S) (s : Program S)
        → at s.memory.contexts svc.context ≡ ok c
        → IsWellFormed op
        → Owned c s (perform world svc op s).1
    perform-Owned op s here fits =
        let (ends, cs, own, grown) = perform-IsOwn world svc c op s here ready fits in
        (cs, own, same_program (perform-memory world svc op s).0 grown)

    -- After any methods of a service whose context is ready, with a class for each leg where they
    -- sell, each further one returns or lets out an exception of another component, also after one
    -- that did not return: the service's context is as it was, no object changes, and all the calls
    -- are of its own components, StdAir building or cloning only if it is owned.
    pub session-Usable :
        (ops : List (Operation S)) (s : Program S)
        → at s.memory.contexts svc.context ≡ ok c
        → All IsWellFormed ops
        → Usable ops s × Owned c s (session ops s)
    unfolding session
    session-Usable [] s here fits =
        (tt, ([], tt, ap (λ h. record s { history = h }) (sym (append-nil s.history))))
    session-Usable (op ∷ ops) s here fits =
        let t = (perform world svc op s).1 in
        let here' =
          subst (λ m. at m.contexts svc.context ≡ ok c) (sym (perform-memory world svc op s).0)
            here in
        let (usable, owned) = session-Usable ops t here' fits.1 in
        (
          ((perform-IsOwn world svc c op s here ready fits.0).0, usable),
          Owned-then c s t _ (perform-Owned op s here fits.0) owned,
        )
