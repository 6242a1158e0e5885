-- ===== src/Service/Building.antt =====
-- The operations that build, load and clone the business objects, by the calls that they make.
use simcrs.Base.{Bool, some, List, [], ◌∷◌, ◌++◌, ◌≡◌, refl, ◌∙◌, arith, if◌then◌else◌}
use simcrs.Stdair.{Stdair}
use simcrs.Calls.{
  Handle, Call, World, stdair, airtsp, airinv, simfqt, StdairCall, AirtspCall, AirinvCall,
  SimfqtCall,
}
use simcrs.Exec.{Exec, ok, pure, lift, ◌>>=◌}
use simcrs.Context.{
  Context, get_own_stdair_service_flag, get_stdair_service, get_airtsp_service, get_airinv_service,
  get_simfqt_service,
}
use simcrs.Memory.{Memory, at}
use simcrs.Program.{Program, ask}
use simcrs.Program.Attempt.{Answered, called, attempt-Answered}
use simcrs.Program.Traces.{
  traces_rules, Traces, Traces-known, Traces-ask, Traces-call, Traces-then, Traces-when,
  then_nothing,
}
use simcrs.Service.{Service, initialised_context}
use simcrs.Service.Bom.{
  InputFiles, build_complementary_links, clone_persistent_bom, parse_and_load, build_sample_bom,
}

-- The components of a ready context, and whether StdAir is owned.
pub record Components : Type 0 where
  pub std : Handle
  pub tsp : Handle
  pub inv : Handle
  pub fqt : Handle
  pub owned : Bool

pub record Serves (c : Context) (k : Components) : Type 0 where
  pub stdair_there : c.stdair_service ≡ some k.std
  pub flag_there : c.own_stdair_service ≡ some k.owned
  pub airtsp_there : c.airtsp_service ≡ some k.tsp
  pub airinv_there : c.airinv_service ≡ some k.inv
  pub simfqt_there : c.simfqt_service ≡ some k.fqt

module _ {S : Stdair} (k : Components) where
  -- The persistent tree is cloned by each component in turn, by StdAir only if it is owned.
  abbrev pub cloning : List (Call S)
  cloning =
      (if k.owned then stdair k.std StdairCall.clone_persistent_bom ∷ [] else [])
      ++ airtsp k.tsp AirtspCall.clone_persistent_bom
        ∷ airinv k.inv AirinvCall.clone_persistent_bom
        ∷ simfqt k.fqt SimfqtCall.clone_persistent_bom
        ∷ stdair k.std StdairCall.get_bom_root
        ∷ []

  -- Every component builds its sample before any clones.
  abbrev pub building : List (Call S)
  building =
      stdair k.std StdairCall.get_persistent_bom_root
        ∷ (if k.owned then stdair k.std StdairCall.build_sample_bom ∷ [] else [])
      ++ airtsp k.tsp AirtspCall.build_sample_bom
        ∷ airinv k.inv AirinvCall.build_sample_bom
        ∷ simfqt k.fqt SimfqtCall.build_sample_bom
        ∷ (if k.owned then cloning else [])

  -- Every component loads its files before any clones.
  abbrev pub loading : InputFiles → List (Call S)
  loading f =
      stdair k.std StdairCall.get_persistent_bom_root
      ∷ airtsp k.tsp (AirtspCall.parse_and_load f.schedule)
      ∷ airinv k.inv (AirinvCall.parse_and_load f.schedule f.ond f.frat5 f.ff_disutility f.yield)
      ∷ simfqt k.fqt (SimfqtCall.parse_and_load f.fare)
      ∷ (if k.owned then cloning else [])

module _ {S : Stdair} (world : World S) (svc : Service) (c : Context) where
  abbrev pub Holds : Memory → Type 0
  Holds m = at m.contexts svc.context ≡ ok c

  initialised_context-Holds :
      (s : Program S) → Holds s.memory → initialised_context svc s ≡ (ok c, s)
  unfolding initialised_context ◌>>=◌
  initialised_context-Holds s q = ground (arith, q)

  Traces-context :
      {cs : List (Call S)} (f : Context → Exec (Program S) (Unit {0}))
      → Traces world Holds cs (f c)
      → Traces world Holds cs (initialised_context svc >>= f)
  unfolding ◌>>=◌
  Traces-context f t = record { run = λ s q. rw (initialised_context-Holds s q) (t.run s q) }

  module _ {k : Components} (has : Serves c k) where
    Traces-flag :
        {cs : List (Call S)} (f : Bool → Exec (Program S) (Unit {0}))
        → Traces world Holds cs (f k.owned)
        → Traces world Holds cs (lift (get_own_stdair_service_flag c) >>= f)
    unfolding get_own_stdair_service_flag
    Traces-flag f = Traces-known world f k.owned (rw has.flag_there refl)

    Traces-std :
        {cs : List (Call S)} (f : Handle → Exec (Program S) (Unit {0}))
        → Traces world Holds cs (f k.std)
        → Traces world Holds cs (lift (get_stdair_service c) >>= f)
    unfolding get_stdair_service
    Traces-std f = Traces-known world f k.std (rw has.stdair_there refl)

    Traces-tsp :
        {cs : List (Call S)} (f : Handle → Exec (Program S) (Unit {0}))
        → Traces world Holds cs (f k.tsp)
        → Traces world Holds cs (lift (get_airtsp_service c) >>= f)
    unfolding get_airtsp_service
    Traces-tsp f = Traces-known world f k.tsp (rw has.airtsp_there refl)

    Traces-inv :
        {cs : List (Call S)} (f : Handle → Exec (Program S) (Unit {0}))
        → Traces world Holds cs (f k.inv)
        → Traces world Holds cs (lift (get_airinv_service c) >>= f)
    unfolding get_airinv_service
    Traces-inv f = Traces-known world f k.inv (rw has.airinv_there refl)

    Traces-fqt :
        {cs : List (Call S)} (f : Handle → Exec (Program S) (Unit {0}))
        → Traces world Holds cs (f k.fqt)
        → Traces world Holds cs (lift (get_simfqt_service c) >>= f)
    unfolding get_simfqt_service
    Traces-fqt f = Traces-known world f k.fqt (rw has.simfqt_there refl)

    -- `buildComplementaryLinks` does nothing.
    Traces-links :
        (root : S.BomRoot) {m : Exec (Program S) (Unit {0})} {cs : List (Call S)}
        → Traces world Holds cs m
        → Traces world Holds cs (build_complementary_links root >>= λ _. m)
    unfolding build_complementary_links pure ◌>>=◌
    Traces-links root t = record { run = λ s q. t.run s q }

    -- The components of the context, read in a method.
    ruleset components =
        (Traces-context, Traces-flag, Traces-std, Traces-tsp, Traces-inv, Traces-fqt, Traces-links)

    clone-Traces :
        Traces world Holds
          (stdair k.std StdairCall.clone_persistent_bom ∷ [])
          (ask world (stdair k.std StdairCall.clone_persistent_bom))
    unfolding ask ◌>>=◌
    clone-Traces =
        Traces-call world _ _
          λ s. then_nothing (world s.history (stdair k.std StdairCall.clone_persistent_bom)) _

    sample-Traces :
        Traces world Holds
          (stdair k.std StdairCall.build_sample_bom ∷ [])
          (ask world (stdair k.std StdairCall.build_sample_bom))
    unfolding ask ◌>>=◌
    sample-Traces =
        Traces-call world _ _
          λ s. then_nothing (world s.history (stdair k.std StdairCall.build_sample_bom)) _

    pub clone_persistent_bom-Traces :
        Traces world Holds (cloning k) (clone_persistent_bom world svc)
    unfolding clone_persistent_bom
    clone_persistent_bom-Traces = search (traces_rules, components, clone-Traces) depth 14

    pub build_sample_bom-Traces : Traces world Holds (building k) (build_sample_bom world svc)
    unfolding build_sample_bom
    build_sample_bom-Traces = Traces-context _ (
        Traces-flag _ (
          Traces-std _ (
            Traces-ask world _ λ _.
              Traces-then world (Traces-when world k.owned sample-Traces)
                (search (traces_rules, components, clone_persistent_bom-Traces) depth 14))))

    pub parse_and_load-Traces :
        (f : InputFiles) → Traces world Holds (loading k f) (parse_and_load world svc f)
    unfolding parse_and_load
    parse_and_load-Traces f =
        search (traces_rules, components, clone_persistent_bom-Traces) depth 18

module _ {S : Stdair} (world : World S) (svc : Service) (c : Context) (k : Components) where
  -- Where each call of `loading` has a reply, `parseAndLoad` on a service whose context has the
  -- components `k` returns, makes these calls and changes nothing else: AirTSP, AirInv and SimFQT
  -- load their own files, and only then, and only if StdAir is owned, each component clones.
  pub parse_and_load-loading :
      (f : InputFiles) (s : Program S)
      → at s.memory.contexts svc.context ≡ ok c
      → Serves c k
      → Answered world s.history (loading k f)
      → parse_and_load world svc f s ≡ (ok tt, called world s (loading k f))
  parse_and_load-loading f s here has v =
      (parse_and_load-Traces world svc c has f).run s here
      ∙ attempt-Answered world (loading k f) s v

  -- Where each call of `building` has a reply, `buildSampleBom` on a service whose context has the
  -- components `k` returns, makes these calls and changes nothing else: each component builds its
  -- sample, StdAir first and only if it is owned; then each clones, only if StdAir is owned.
  pub build_sample_bom-building :
      (s : Program S)
      → at s.memory.contexts svc.context ≡ ok c
      → Serves c k
      → Answered world s.history (building k)
      → build_sample_bom world svc s ≡ (ok tt, called world s (building k))
  build_sample_bom-building s here has v =
      (build_sample_bom-Traces world svc c has).run s here ∙ attempt-Answered world (building k) s v
