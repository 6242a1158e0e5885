-- ===== src/Service/Whole.antt =====
-- The whole life of a service: it is made, used by any number of methods, and destroyed.
use simcrs.Base.{String, Option, some, List, [], ◌∷◌, ◌++◌, ◌≡◌, refl, sym, ap, ◌∙◌, subst}
use simcrs.Stdair.{Stdair}
use simcrs.Calls.{World}
use simcrs.Exec.{Result, ok, Exec, pure, ◌>>=◌, ◌>>◌}
use simcrs.Context.{Context}
use simcrs.Memory.{Memory, Address, at}
use simcrs.Factory.Sound.{IsSound}
use simcrs.Program.{Program}
use simcrs.Service.{Service, construct_owning, destroy}
use simcrs.Service.Operation.{Operation, Returned, perform}
use simcrs.Service.Building.{Components, Serves}
use simcrs.Service.Delegation.{delegated, perform-delegated}
use simcrs.Service.Frame.{perform-memory}
use simcrs.Service.Placement.{at_address}
use simcrs.Service.Finalisation.{IsReleased, destroy-IsReleased}
use simcrs.Service.Making.{Makes, making, components, construct_owning-Made}

-- A method with what it returned or let out.
abbrev pub Outcome : Stdair → Type 0
Outcome S = (op : Operation S) × Result (Returned op)

module _ {S : Stdair} where
  -- Each of the methods in turn, whether those before it returned or not.
  abbrev pub use_all :
      ((op : Operation S) → Exec (Program S) (Returned op))
      → List (Operation S)
      → Program S
      → List (Outcome S) × Program S
  use_all run [] s = ([], s)
  use_all run (op ∷ ops) s =
      let p = run op s in let q = use_all run ops p.1 in ((op, p.0) ∷ q.0, q.1)

  module _ (world : World S) where
    -- A client makes a service that owns StdAir, uses it, and ends it.
    unfoldable pub whole_life :
        S.LogParams
        → Option S.DbParams
        → String
        → List (Operation S)
        → Exec (Program S) (List (Outcome S))
    unfolding construct_owning destroy perform
    whole_life log db code ops = do
      svc ← construct_owning world log db code
      outcomes ← λ s. let q = use_all (perform world svc) ops s in (ok q.0, q.1)
      destroy svc
      pure outcomes

    module _ (svc : Service) (c : Context) (k : Components) (has : Serves c k) where
      use_all-delegated :
          (ops : List (Operation S)) (s : Program S)
          → at s.memory.contexts svc.context ≡ ok c
          → (use_all (perform world svc) ops s ≡ use_all (delegated world k) ops s)
            × ((use_all (perform world svc) ops s).1.memory ≡ s.memory)
      use_all-delegated [] s here = (refl, refl)
      use_all-delegated (op ∷ ops) s here =
          let t = (perform world svc op s).1 in
          let same : t.memory ≡ s.memory = (perform-memory world svc op s).0 in
          let one = perform-delegated world k svc c op s here has in
          let (rest, kept) =
            use_all-delegated ops t
              (subst (λ m. at m.contexts svc.context ≡ ok c) (sym same) here) in
          (
            ap (λ q. ((op, (perform world svc op s).0) ∷ q.0, q.1)) rest
                ∙ ap (λ p. let q = use_all (delegated world k) ops p.1 in ((op, p.0) ∷ q.0, q.1))
                    one,
            kept ∙ same,
          )

    module _ (log : S.LogParams) (db : Option S.DbParams) (code : String) (ops : List (Operation S))
        (s : Program S) (l : Makes world log db s.history) where
      -- What the components of `l` make of the methods.
      abbrev expected : Memory → List (Outcome S) × Program S
      expected m =
          use_all (delegated world (components l)) ops
            (record { memory = m; history = s.history ++ making l })

      -- The life of a service over the components of `l`, by what `delegated` says of each method.
      pub record Lived : Type 0 where
        pub address : Address
        pub made_memory : Memory
        pub end : Program S
        pub made : construct_owning world log db code s ≡ (
          ok (at_address address),
          record { memory = made_memory; history = s.history ++ making l },
        )
        pub life : whole_life log db code ops s ≡ (ok (expected made_memory).0, end)
        pub calls : end.history ≡ (expected made_memory).1.history
        pub released : (d : Context) × (end.memory.contexts address ≡ some d) × IsReleased d
        pub sound : IsSound end.memory

      -- From factories in order, where each component can be made, a service is made over them; each
      -- method that the client then calls does what `delegated` says with these components, on any
      -- answer or exception and whatever the methods before it came to; and the destructor returns,
      -- calls nothing, and leaves a context that holds no component, with the factories in order.
      pub whole_life-Lived : IsSound s.memory → Lived
      unfolding whole_life pure ◌>>=◌
      whole_life-Lived sound =
          let (a, m, c, e, there, serves, sound₁) =
            construct_owning-Made world log db code s sound l in
          let s₁ : Program S = record { memory = m; history = s.history ++ making l } in
          let (same, kept) =
            use_all-delegated (at_address a) c (components l) serves ops s₁ (rw (there, at) refl) in
          let s₂ = (use_all (perform world (at_address a)) ops s₁).1 in
          let (returned, (d, left, empty, named), calls, sound₃, others) =
            destroy-IsReleased a s₂ c (subst (λ n. n.contexts a ≡ some c) (sym kept) there)
              (subst IsSound (sym kept) sound₁) in
          record {
            address = a;
            made_memory = m;
            end = (destroy (at_address a) s₂).1;
            made = e;
            life = rw (e, returned) (ap (λ q. (ok q.0, (destroy (at_address a) s₂).1)) same);
            calls = calls ∙ ap (λ q. q.1.history) same;
            released = (d, left, empty);
            sound = sound₃;
          }
