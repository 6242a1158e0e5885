-- ===== src/Service/Constructors.antt =====
-- The three constructors as wholes.
use simcrs.Base.{
  String, Bool, true, false, Option, some, is_some, ◌≡◌, refl, arith, ◌⊎◌, inl, inr, ◌∙◌, ap, subst,
  [], ◌∷◌, ◌++◌,
}
use simcrs.Stdair.{Stdair}
use simcrs.Calls.{Handle, World, Answer, replies, raises, make_stdair}
use simcrs.Exec.{Fault, thrown, Result, ok, err, pure, from_answer, continue, ◌>>=◌}
use simcrs.Context.{
  Context, new_context, set_stdair_service, set_sevmgr_service, set_airtsp_service,
  set_airinv_service, set_simfqt_service,
}
use simcrs.Memory.{Address, at}
use simcrs.Factory.Sound.{IsSound}
use simcrs.Program.{Program, ask}
use simcrs.Program.Only.{Raises}
use simcrs.Service.{
  Service, init_service_context, add_stdair_service, add_sevmgr_service, init_stdair_service,
  init_components, construct_owning, construct_borrowing,
}
use simcrs.Service.Safety.{IsReady, IsThrown}
use simcrs.Service.Construction.{
  After, ended, raised, After-bind, add_stdair_service-After, add_sevmgr_service-After,
  init_simfqt_service-After, init_airtsp_service-After, init_airinv_service-After,
}
use simcrs.Service.Placement.{Has, at_address, init_service_context-Has}

-- A context with the three components that each constructor makes.
abbrev completed : Context → Handle → Handle → Handle → Context
completed c f t i =
    set_airinv_service (some i) (set_airtsp_service (some t) (set_simfqt_service (some f) c))

abbrev IsCompleted : Address → Context → Service → Context → Type 0
IsCompleted a c svc d =
    (svc ≡ at_address a) × (f : Handle) × (t : Handle) × (i : Handle) × (d ≡ completed c f t i)

module _ {S : Stdair} where
  module _ {E : Fault → Type 0} (world : World S) (raise : Raises world E) (a : Address) where
    init_components-After :
        {s : Program S} {c : Context}
        → Has s a c
        → (c.own_sevmgr_service ≡ true) ⊎ (is_some c.sevmgr_service ≡ true)
        → After E a (IsCompleted a c) (init_components world (at_address a) s)
    unfolding init_components set_airtsp_service set_simfqt_service pure
    init_components-After {s} {c} has eligible =
        After-bind a _ (init_simfqt_service-After a world raise has) λ _ s₁ c₁ has₁ (f, e₁).
          After-bind a _ (init_airtsp_service-After a world raise has₁) λ _ s₂ c₂ has₂ (t, e₂).
            After-bind a _
              (init_airinv_service-After a world raise has₂
                (rw (e₂ ∙ ap (set_airtsp_service (some t)) e₁) eligible))
              λ _ s₃ c₃ has₃ (i, e₃). ended c₃ has₃ (
                refl,
                f,
                t,
                i,
                e₃ ∙ ap (set_airinv_service (some i)) (e₂ ∙ ap (set_airtsp_service (some t)) e₁),
              )

-- A constructor ended with a service whose context is ready and is as `own` and `code` say, or an
-- exception of another component came out; the factories are in order either way.
abbrev pub Built :
    {S : Stdair} → (Fault → Type 0) → Bool → String → Result Service × Program S → Type 0
Built E own code (ok svc, s) =
    (c : Context) × (at s.memory.contexts svc.context ≡ ok c)
    × IsReady c
    × (c.own_stdair_service ≡ some own)
    × (c.crs_code ≡ code)
    × IsSound s.memory
Built E own code (err e, s) = E e × IsSound s.memory

module _ {S : Stdair} {E : Fault → Type 0} (a : Address) (c : Context) where
  Built-After :
      (own : Bool) (code : String) {p : Result Service × Program S}
      → (c.own_stdair_service ≡ some own)
      → (is_some c.stdair_service ≡ true)
      → (c.crs_code ≡ code)
      → After E a (IsCompleted a c) p
      → Built E own code p
  unfolding set_airtsp_service set_airinv_service set_simfqt_service
  Built-After own code eo es ec (raised t v) = (t, v)
  Built-After own code eo es ec (ended d has (e, f, t, i, same)) = (
    d,
    rw e (rw has.context refl),
    rw same (record {
      stdair_there = es;
      flag_there = ground arith;
      airtsp_there = refl;
      airinv_there = refl;
      simfqt_there = refl;
    }),
    rw same eo,
    rw same ec,
    has.sound,
  )

After-IsSound :
    {S : Stdair} {A : Type 0} {E : Fault → Type 0} {a : Address} {R : A → Context → Type 0}
    {p : Result A × Program S}
    → After E a R p
    → IsSound p.1.memory
After-IsSound (ended c has r) = has.sound
After-IsSound (raised t v) = v

module _ {S : Stdair} (E : Fault → Type 0) (world : World S) (raise : Raises world E)
    (code : String) where
  -- Over a new context: the rest of the constructors.
  owning_tail :
      (h : Handle) (a : Address) (s : Program S)
      → Has s a (new_context code)
      → After E a (IsCompleted a (set_stdair_service (some h) true (new_context code))) (
          (add_stdair_service (at_address a) (some h) true >>= λ _.
          init_components world (at_address a))
            s)
  unfolding new_context set_stdair_service
  owning_tail h a s has =
      After-bind a _ (add_stdair_service-After a (some h) true has)
        λ _ s₁ c₁ has₁ e₁. init_components-After world raise a (subst (Has s₁ a) e₁ has₁) (inl refl)

  borrowing_tail :
      (h : Option Handle) (g : Handle) (a : Address) (s : Program S)
      → Has s a (new_context code)
      → After E a
          (IsCompleted a
            (set_sevmgr_service (some g) false (set_stdair_service h false (new_context code))))
          ((add_stdair_service (at_address a) h false >>= λ _.
              add_sevmgr_service (at_address a) (some g) false >>= λ _.
              init_components world (at_address a))
            s)
  unfolding new_context set_stdair_service set_sevmgr_service
  borrowing_tail h g a s has =
      After-bind a _ (add_stdair_service-After a h false has) λ _ s₁ c₁ has₁ e₁.
        After-bind a _ (add_sevmgr_service-After a (some g) false (subst (Has s₁ a) e₁ has₁))
          λ _ s₂ c₂ has₂ e₂.
            init_components-After world raise a (subst (Has s₂ a) e₂ has₂) (inr refl)

  owning_rest :
      (h : Handle) (s : Program S)
      → IsSound s.memory
      → Built E true code (
          (init_service_context code >>= λ svc.
          add_stdair_service svc (some h) true >>= λ _. init_components world svc)
            s)
  unfolding ◌>>=◌ set_stdair_service new_context
  owning_rest h s sound =
      let (a, s', e, has) = init_service_context-Has code s sound in
      let c = set_stdair_service (some h) true (new_context code) in
      rw e (Built-After a c true code refl refl refl (owning_tail h a s' has))

  -- With any set of faults that has the components' exceptions.
  pub construct_owning-Built_by :
      (log : S.LogParams) (db : Option S.DbParams) (s : Program S)
      → IsSound s.memory
      → Built E true code (construct_owning world log db code s)
  unfolding construct_owning init_stdair_service ask ◌>>=◌
  construct_owning-Built_by log db s sound =
      go (world s.history (make_stdair log db)) (raise s.history (make_stdair log db))
    where
      asked : Program S
      asked = record s { history = s.history ++ (make_stdair log db ∷ []) }

      go :
          (r : Answer Handle)
          → ((what : String) → r ≡ raises what → E (thrown what))
          → Built E true code (
              continue
                (from_answer r)
                (λ h. init_service_context code >>= λ svc.
                  add_stdair_service svc (some h) true >>= λ _. init_components world svc)
                asked)
      go (replies h) k = owning_rest h asked sound
      go (raises what) k = (k what refl, sound)

  construct_borrowing-Built_by :
      (h g : Handle) (s : Program S)
      → IsSound s.memory
      → Built E false code (construct_borrowing world (some h) (some g) code s)
  unfolding construct_borrowing ◌>>=◌ set_stdair_service set_sevmgr_service new_context
  construct_borrowing-Built_by h g s sound =
      let (a, s', e, has) = init_service_context-Has code s sound in
      let b = set_stdair_service (some h) false (new_context code) in
      let c = set_sevmgr_service (some g) false b in
      rw e (Built-After a c false code refl refl refl (borrowing_tail (some h) g a s' has))

  -- The factories, also over a NULL StdAir service.
  pub construct_borrowing-IsSound :
      (h : Option Handle) (g : Handle) (s : Program S)
      → IsSound s.memory
      → IsSound (construct_borrowing world h (some g) code s).1.memory
  unfolding construct_borrowing ◌>>=◌
  construct_borrowing-IsSound h g s sound =
      let (a, s', e, has) = init_service_context-Has code s sound in
      rw e (After-IsSound (borrowing_tail h g a s' has))

module _ {S : Stdair} (world : World S) (code : String) where
  -- The constructors that own StdAir, from any state of the factories in order: each ends with a
  -- service whose context is ready, owns StdAir and has the code given, or lets out an exception of a
  -- component that could not be made. No assertion fails, and the factories are in order after both.
  pub construct_owning-Built :
      (log : S.LogParams) (db : Option S.DbParams) (s : Program S)
      → IsSound s.memory
      → Built IsThrown true code (construct_owning world log db code s)
  construct_owning-Built = construct_owning-Built_by IsThrown world (λ h c what r. tt) code

  -- The constructor over a StdAir and a SEvMgr service of someone else's, both of them there: the
  -- same, with a context that does not own StdAir.
  pub construct_borrowing-Built :
      (h g : Handle) (s : Program S)
      → IsSound s.memory
      → Built IsThrown false code (construct_borrowing world (some h) (some g) code s)
  construct_borrowing-Built = construct_borrowing-Built_by IsThrown world (λ h c what r. tt) code
