-- ===== src/Service/Unfinished.antt =====
-- The constructors of SIMCRS_Service, on any answers of the components: what they call, and what an
-- exception leaves behind.
use simcrs.Base.{◌≤◌, String, true, false, Option, none, some, List, [], ◌∷◌, ◌≡◌, refl, inl, inr}
use simcrs.Stdair.{Stdair}
use simcrs.Calls.{
  Handle, Call, World, replies, raises, Answer-cases, make_stdair, make_simfqt, make_airtsp,
  make_airinv,
}
use simcrs.Exec.{Result, err, thrown, Exec, ◌>>=◌}
use simcrs.Context.{new_context, set_stdair_service, set_sevmgr_service}
use simcrs.Memory.{Memory, Address}
use simcrs.Factory.Sound.{IsSound}
use simcrs.Program.{Program, ask}
use simcrs.Program.Attempt.{called}
use simcrs.Service.{
  Service, init_service_context, init_components, construct_owning, construct_borrowing,
  add_stdair_service, add_sevmgr_service, init_stdair_service,
}
use simcrs.Service.Placement.{Has, at_address, init_service_context-Placed}
use simcrs.Service.Installing.{
  add_stdair_service-stored, add_sevmgr_service-stored, stored, stored-Has,
}
use simcrs.Service.Trying.{Ended, Ended-same, init_components-Ended}

-- The calls behind that of StdAir, each over its handle.
abbrev pub rest : {S : Stdair} → Option Handle → Option Handle → List (Call S)
rest h g = make_simfqt h ∷ make_airtsp h ∷ make_airinv h g ∷ []

module _ {S : Stdair} (world : World S) where
  init_service_context-Ended :
      {A : Type 0} {cs : List (Call S)} {std : Option Handle} (code : String) (s : Program S)
      (k : Service → Exec (Program S) A)
      → IsSound s.memory
      → ((a : Address) (m : Memory)
          → Has (record s { memory = m }) a (new_context code)
          → Ended world cs std a s (k (at_address a) (record s { memory = m })))
      → (a : Address) × (s.memory.next ≤ a)
        × Ended world cs std a s ((init_service_context code >>= k) s)
  unfolding ◌>>=◌
  init_service_context-Ended code s k sound then =
      let (a, m, e, has, fresh) = init_service_context-Placed code s sound in
      (a, fresh, rw e (then a m has))

  module _ (code : String) (s : Program S) where
    borrowing-Ended :
        (h : Option Handle) (g : Handle) (a : Address) (m : Memory)
        → Has (record s { memory = m }) a (new_context code)
        → Ended world (rest h (some g)) h a s (
            (add_stdair_service (at_address a) h false >>= λ _.
            add_sevmgr_service (at_address a) (some g) false >>= λ _.
            init_components world (at_address a))
              (record s { memory = m }))
    unfolding ◌>>=◌ set_stdair_service set_sevmgr_service new_context
    borrowing-Ended h g a m has =
        let c₁ = set_stdair_service h false (new_context code) in
        let has₁ = stored-Has world a g has c₁ in
        let c₂ = set_sevmgr_service (some g) false c₁ in
        let has₂ = stored-Has world a g has₁ c₂ in
        rw
          (
            add_stdair_service-stored world a g has h false,
            add_sevmgr_service-stored world a g has₁ (some g) false,
          )
          (Ended-same world s (stored world a g has₁ c₂) refl
            (init_components-Ended world a has₂ (some g) (refl, refl)))

    owning-Ended :
        (h : Handle) (a : Address) (m : Memory)
        → Has (record s { memory = m }) a (new_context code)
        → Ended world (rest (some h) none) (some h) a s (
            (add_stdair_service (at_address a) (some h) true >>= λ _.
            init_components world (at_address a))
              (record s { memory = m }))
    unfolding ◌>>=◌ set_stdair_service new_context
    owning-Ended h a m has =
        let c = set_stdair_service (some h) true (new_context code) in
        let has₁ = stored-Has world a h has c in
        rw (add_stdair_service-stored world a h has (some h) true) (
          Ended-same world s (stored world a h has c) refl
            (init_components-Ended world a has₁ none refl))

  module _ (code : String) (s : Program S) where
    -- A constructor that makes StdAir ended.
    pub data Attempted (log : S.LogParams) (db : Option S.DbParams)
        : Result Service × Program S → Type 0 where
      -- It was StdAir that raised an exception, and nothing else was done.
      no_stdair :
          (what : String)
          → world s.history (make_stdair log db) ≡ raises what
          → Attempted log db (err (thrown what), called world s (make_stdair log db ∷ []))
      -- The others were made over StdAir, as far as that went.
      over_stdair :
          {p : Result Service × Program S} (h : Handle) (a : Address)
          → world s.history (make_stdair log db) ≡ replies h
          → s.memory.next ≤ a
          → Ended world (rest (some h) none) (some h) a (called world s (make_stdair log db ∷ [])) p
          → Attempted log db p

    pub owning-Attempted :
        (log : S.LogParams) (db : Option S.DbParams)
        → IsSound s.memory
        → Attempted log db (construct_owning world log db code s)
    unfolding construct_owning init_stdair_service ask ◌>>=◌
    owning-Attempted log db sound = elim (Answer-cases (world s.history (make_stdair log db))) [
      | inl (h, e) ↦
          let s₀ = called world s (make_stdair log db ∷ []) in
          let (a, fresh, v) =
            init_service_context-Ended code s₀
              (λ svc. add_stdair_service svc (some h) true >>= λ _. init_components world svc) sound
              (owning-Ended code s₀ h) in
          rw e (over_stdair h a e fresh v)
      | inr (what, e) ↦ rw e (no_stdair what e)
    ]

    -- From factories in order, and whatever the components answer, a constructor, handed an event
    -- manager if it does not own StdAir, makes the components in this order and in a row, up to the
    -- first that raises an exception, which comes out: StdAir, if it is to own it, SimFQT, AirTSP and
    -- AirInv. Unless it was StdAir that raised, the new context stays live either way and holds the
    -- StdAir service made or handed over, with the factories in order.
    pub construct-Attempted :
        (log : S.LogParams) (db : Option S.DbParams) (h : Option Handle) (g : Handle)
        → IsSound s.memory
        → Attempted log db (construct_owning world log db code s)
          × ((a : Address) × (s.memory.next ≤ a)
              × Ended world (rest h (some g)) h a s (construct_borrowing world h (some g) code s))
    unfolding construct_borrowing
    construct-Attempted log db h g sound = (
      owning-Attempted log db sound,
      init_service_context-Ended code s
          (λ svc. add_stdair_service svc h false >>= λ _.
            add_sevmgr_service svc (some g) false >>= λ _. init_components world svc)
          sound (borrowing-Ended code s h g),
    )
