-- ===== src/Service/Making.antt =====
-- The constructors that make StdAir, where each component can be made: the calls and the context.
use simcrs.Base.{String, true, Option, none, some, List, [], ◌∷◌, ◌++◌, ◌≡◌, refl, ap, append_assoc}
use simcrs.Stdair.{Stdair}
use simcrs.Calls.{Handle, Call, World, replies, make_stdair, make_simfqt, make_airtsp, make_airinv}
use simcrs.Exec.{ok, pure, ◌>>=◌}
use simcrs.Context.{
  Context, new_context, set_stdair_service, set_airtsp_service, set_airinv_service,
  set_simfqt_service,
}
use simcrs.Memory.{Memory, Address}
use simcrs.Factory.Sound.{IsSound}
use simcrs.Program.{Program, ask}
use simcrs.Program.Attempt.{called}
use simcrs.Service.{init_stdair_service, init_components, construct_owning}
use simcrs.Service.Building.{Components, Serves}
use simcrs.Service.Placement.{Has, at_address, with_context, init_service_context-Placed}
use simcrs.Service.Installing.{
  add_stdair_service-stored, init_airinv_service-made, init_airtsp_service-made,
  init_simfqt_service-made, installed, installed-Has, stored-Has,
}

regroup :
    {A : Type 0} (h : List A) (a b c d : A)
    → (((h ++ a ∷ []) ++ b ∷ []) ++ c ∷ []) ++ d ∷ [] ≡ h ++ (a ∷ b ∷ c ∷ d ∷ [])
regroup h a b c d = simp append_assoc

-- The components made for a service that owns StdAir, from the calls `h` on.
module _ {S : Stdair} (log : S.LogParams) (db : Option S.DbParams) (h : List (Call S)) where
  abbrev stdair_history : List (Call S)
  stdair_history = h ++ make_stdair log db ∷ []

  abbrev simfqt_history : Handle → List (Call S)
  simfqt_history d = stdair_history ++ make_simfqt (some d) ∷ []

  abbrev airtsp_history : Handle → List (Call S)
  airtsp_history d = simfqt_history d ++ make_airtsp (some d) ∷ []

-- Each component can be made, the last of them without an event manager.
pub record Makes {S : Stdair} (world : World S) (log : S.LogParams) (db : Option S.DbParams)
    (h : List (Call S)) : Type 0 where
  pub std : Handle
  pub fqt : Handle
  pub tsp : Handle
  pub inv : Handle
  pub stdair_made : world h (make_stdair log db) ≡ replies std
  pub simfqt_made : world (stdair_history log db h) (make_simfqt (some std)) ≡ replies fqt
  pub airtsp_made : world (simfqt_history log db h std) (make_airtsp (some std)) ≡ replies tsp
  pub airinv_made : world (airtsp_history log db h std) (make_airinv (some std) none) ≡ replies inv

module _ {S : Stdair} {world : World S} {log : S.LogParams} {db : Option S.DbParams}
    {h : List (Call S)} (l : Makes world log db h) where
  abbrev pub making : List (Call S)
  making =
      make_stdair log db
      ∷ make_simfqt (some l.std)
      ∷ make_airtsp (some l.std)
      ∷ make_airinv (some l.std) none
      ∷ []

  abbrev pub components : Components
  components = record { std = l.std; tsp = l.tsp; inv = l.inv; fqt = l.fqt; owned = true }

module _ {S : Stdair} (world : World S) (log : S.LogParams) (db : Option S.DbParams) (code : String)
    (s : Program S) where
  -- The constructor ended with a service over the components that it made, and made no other call.
  abbrev pub Made : Makes world log db s.history → Type 0
  Made l =
      (a : Address) × (m : Memory) × (c : Context) × (construct_owning world log db code s
        ≡ (ok (at_address a), record { memory = m; history = s.history ++ making l }))
      × (m.contexts a ≡ some c)
      × Serves c (components l)
      × IsSound m

  abbrev made_context : Makes world log db s.history → Context
  made_context l = record {
    stdair_service = some l.std;
    own_stdair_service = some true;
    sevmgr_service = none;
    own_sevmgr_service = true;
    airtsp_service = some l.tsp;
    airinv_service = some l.inv;
    simfqt_service = some l.fqt;
    crs_code = code;
  }

  -- The three components behind StdAir, over a context that holds that one.
  init_components-made :
      (l : Makes world log db s.history) (a : Address) (m : Memory)
      → let s₁ : Program S = record { memory = m; history = stdair_history log db s.history } in
        Has s₁ a (set_stdair_service (some l.std) true (new_context code))
        → (n : Memory) × (init_components world (at_address a) s₁
            ≡ (ok (at_address a), record { memory = n; history = s.history ++ making l }))
          × Has (record { memory = n; history = s.history ++ making l }) a (made_context l)
  unfolding init_components set_stdair_service new_context set_simfqt_service set_airtsp_service
      set_airinv_service pure ◌>>=◌
  init_components-made l a m has₁ =
      let c₁ = set_stdair_service (some l.std) true (new_context code) in
      let s₁ : Program S = record { memory = m; history = stdair_history log db s.history } in
      let x₂ = make_simfqt (some l.std) in
      let c₂ = set_simfqt_service (some l.fqt) c₁ in
      let has₂ = installed-Has world a l.fqt has₁ x₂ c₂ in
      let x₃ = make_airtsp (some l.std) in
      let c₃ = set_airtsp_service (some l.tsp) c₂ in
      let has₃ = installed-Has world a l.tsp has₂ x₃ c₃ in
      let x₄ = make_airinv (some l.std) none in
      let has₄ = installed-Has world a l.inv has₃ x₄ (made_context l) in
      let n = with_context (installed a x₃ c₃ (installed a x₂ c₂ s₁)).memory a (made_context l) in
      (
        n,
        rw
            (
              init_simfqt_service-made world a l.fqt has₁ l.simfqt_made,
              init_airtsp_service-made world a l.tsp has₂ l.airtsp_made,
              init_airinv_service-made world a l.inv has₃ refl l.airinv_made,
            )
            (ap (λ h. (ok (at_address a), record { memory = n; history = h }))
              (regroup s.history (make_stdair log db) x₂ x₃ x₄)),
        record { context = has₄.context; sound = has₄.sound },
      )

  pub construct_owning-Made : IsSound s.memory → (l : Makes world log db s.history) → Made l
  unfolding construct_owning init_stdair_service ask ◌>>=◌
  construct_owning-Made sound l =
      let s₀ = called world s (make_stdair log db ∷ []) in
      let (a, m, e, has, fresh) = init_service_context-Placed code s₀ sound in
      let c₁ = set_stdair_service (some l.std) true (new_context code) in
      let (n, f, has₄) =
        init_components-made l a (with_context m a c₁) (stored-Has world a l.std has c₁) in
      (
        a,
        n,
        made_context l,
        rw (l.stdair_made, e, add_stdair_service-stored world a l.std has (some l.std) true, f)
            refl,
        has₄.context,
        record {
          stdair_there = refl;
          flag_there = refl;
          airtsp_there = refl;
          airinv_there = refl;
          simfqt_there = refl;
        },
        has₄.sound,
      )
