-- ===== src/Batch/Ending.antt =====
-- How a run of the batch program ends.
use simcrs.Base.{
  Bool, true, some, none, List, ◌++◌, arith, ◌≡◌, refl, sym, subst, ◌∙◌, ℤ, Option-cases, inl, inr,
}
use simcrs.Stdair.{Stdair}
use simcrs.Calls.{Call, World}
use simcrs.Exec.{Fault, Result, ok, err, Exec, pure, continue, ◌>>=◌}
use simcrs.Context.{Context}
use simcrs.Memory.{Address, Ptr, Store, at}
use simcrs.Factory.Sound.{IsSound}
use simcrs.Program.{Program}
use simcrs.Program.Only.{Ends, Any}
use simcrs.Program.Attempt.{Answered}
use simcrs.Service.{Service, destroy, construct_owning}
use simcrs.Service.Placement.{at_address}
use simcrs.Service.Building.{Serves}
use simcrs.Service.Safety.{IsThrown, confined}
use simcrs.Service.Constructors.{Built, construct_owning-Built_by}
use simcrs.Service.Making.{Makes, making, components, construct_owning-Made}
use simcrs.Service.Unfinished.{owning-Attempted}
use simcrs.Service.Finalisation.{IsReleased, destroy-IsReleased}
use simcrs.Batch.Options.{log}
use simcrs.Batch.Configuration.{Configuration, Settings}
use simcrs.Batch.Run.{serve, run}
use simcrs.Batch.Booked.{loaded}
use simcrs.Batch.Sold.{at-some}
use simcrs.Batch.Status.{Attempted-Makes}
use simcrs.Batch.Safety.{IsExit, serve-Only}
use simcrs.Batch.Faults.{Misprices, Faults, Ends-because, serve-Ends}

ok-same : {A : Type 0} {a b : A} → ok a ≡ ok b → a ≡ b
ok-same e = cc

at-live :
    {A : Type 0} (f : Store A) (p : Ptr) (x : A)
    → at f p ≡ ok x
    → (a : Address) × (p ≡ some a) × (f a ≡ some x)
at-live f none x h = absurd (cc)
at-live f (some a) x h = elim (Option-cases (f a)) [
  | inl e ↦ absurd (ground (arith, h, e))
  | inr (y, e) ↦ (a, refl, ground (arith, h, e))
]

-- The program returned one of its statuses and its service holds no component any more, or it ended
-- with a fault of `E`; the factories are in order.
abbrev pub Finished : {S : Stdair} → (Fault → Type 0) → Result ℤ × Program S → Type 0
Finished E (ok z, s) =
    IsExit z
    × ((a : Address) × (d : Context) × (s.memory.contexts a ≡ some d)
        × IsReleased d
        × (d.crs_code ≡ "1P"))
    × IsSound s.memory
Finished E (err e, s) = E e × IsSound s.memory

module _ {S : Stdair} (E : Fault → Type 0) (z : ℤ) where
  destroy-Finished :
      (p : Ptr) (s : Program S) (c : Context)
      → at s.memory.contexts p ≡ ok c
      → IsSound s.memory
      → c.crs_code ≡ "1P"
      → IsExit z
      → Finished E ((destroy (record { context = p }) >>= λ _. pure z) s)
  unfolding ◌>>=◌
  destroy-Finished p s c here sound code exit =
      let (a, e, there) = at-live s.memory.contexts p c here in
      let (returned, (d, live, released, kept), history, sound', others) =
        destroy-IsReleased a s c there sound in
      rw (e, returned) (exit, (a, d, live, released, kept ∙ code), sound')

module _ {S : Stdair} (E : Fault → Type 0) (world : World S) (b : Bool) (x : Settings) where
  -- On a service that was just made, by the memory and the result of what is done with it.
  serve-Finished :
      (a : Address) (c : Context) (s : Program S)
      → at s.memory.contexts (some a) ≡ ok c
      → c.crs_code ≡ "1P"
      → IsSound s.memory
      → (serve world (at_address a) b x s).1.memory ≡ s.memory
      → Ends E IsExit (serve world (at_address a) b x s).0
      → Finished E
          ((serve world (at_address a) b x >>= λ z. destroy (at_address a) >>= λ _. pure z) s)
  unfolding ◌>>=◌
  serve-Finished a c s here code sound =
      go (serve world (at_address a) b x s).0 (serve world (at_address a) b x s).1
    where
      go :
          (r : Result ℤ) (t : Program S)
          → t.memory ≡ s.memory
          → Ends E IsExit r
          → Finished E (continue r (λ z. destroy (at_address a) >>= λ _. pure z) t)
      go (err e) t same h = (h, subst IsSound (sym same) sound)
      go (ok z) t same h =
          destroy-Finished E z (some a) t c
            (subst (λ m. at m.contexts (some a) ≡ ok c) (sym same) here)
            (subst IsSound (sym same) sound) code h

-- From the calls `h` on, the components are made and load, and then SimFQT prices so that the program
-- has nothing to sell as it expects.
pub record Disappoints {S : Stdair} (world : World S) (b : Bool) (x : Settings) (h : List (Call S))
    : Type 0 where
  pub made : Makes world (S.debug_log (x log)) none h
  pub read : Answered world (h ++ making made) (loaded (components made) b x)
  pub mispriced :
      Misprices world (components made) ((h ++ making made) ++ loaded (components made) b x)

module _ {S : Stdair} (world : World S) (c : Configuration) (s : Program S) where
  abbrev E : Fault → Type 0
  E = Faults (Disappoints world c.is_builtin c.settings s.history)

  abbrev rest : Service → Exec (Program S) ℤ
  rest svc = serve world svc c.is_builtin c.settings >>= λ z. destroy svc >>= λ _. pure z

  run-Made :
      (l : Makes world (S.debug_log (c.settings log)) none s.history)
      → IsSound s.memory
      → Finished E (run world c s)
  unfolding run ◌>>=◌
  run-Made l sound =
      let params = S.debug_log (c.settings log) in
      let (a, m, d, e, here, serves, sound') =
        construct_owning-Made world params none "1P" s sound l in
      let s₁ : Program S = record { memory = m; history = s.history ++ making l } in
      let (c', here', ready, own, code, sound'') =
        subst (Built IsThrown true "1P") e
          (construct_owning-Built_by IsThrown world (λ h d w r. tt) "1P" params none s sound) in
      let same : d ≡ c' = ok-same (sym (at-some m.contexts a d here) ∙ here') in
      let serves' = subst (λ z. Serves z (components l)) same serves in
      let only =
        (serve-Only world (confined world (at_address a) c' Any m (λ h d w r. tt) here' ready) tt tt
            c.is_builtin c.settings).at
          s₁ here' in
      rw e (
        serve-Finished E world c.is_builtin c.settings a c' s₁ here' code sound'' only.0 (
          Ends-because
            (Answered world s₁.history (loaded (components l) c.is_builtin c.settings)
              × Misprices world (components l)
                  (s₁.history ++ loaded (components l) c.is_builtin c.settings))
            (Disappoints world c.is_builtin c.settings s.history)
            (serve world (at_address a) c.is_builtin c.settings s₁).0
            (λ q. record { made = l; read = q.0; mispriced = q.1 })
            (serve-Ends world (components l) (at_address a) c' serves' ready c.is_builtin c.settings
              s₁ here')))

  run-Unmade :
      (r : Result Service) (t : Program S)
      → Built IsThrown true "1P" (r, t)
      → ((svc : Service) → r ≡ ok svc → Finished E (continue r rest t))
      → Finished E (continue r rest t)
  run-Unmade (ok svc) t h made = made svc refl
  run-Unmade (err e) t h made = (inl h.0, h.1)

  -- From factories in order, a run after the options returns 0 or -1 and has let go of every
  -- component of its service, or an exception of another component comes out. It fails an assertion
  -- or does something undefined only where, in this run, SimFQT prices the solutions so that there is
  -- none, or that the first has a fare option, but no segment or no class for a leg.
  pub run-Finished : IsSound s.memory → Finished E (run world c s)
  unfolding run ◌>>=◌
  run-Finished sound =
      let params = S.debug_log (c.settings log) in
      let make = construct_owning world params none "1P" in
      run-Unmade (make s).0 (make s).1
        (construct_owning-Built_by IsThrown world (λ h d w r. tt) "1P" params none s sound)
        λ svc e.
          run-Made
            (Attempted-Makes world "1P" s params none svc (make s)
              (owning-Attempted world "1P" s params none sound) e)
            sound
