-- ===== src/Service/Construction.antt =====
-- The helpers of the constructors of SIMCRS_Service.
use simcrs.Base.{
  String, Bool, true, Option, none, some, is_some, [], ◌∷◌, ◌++◌, ◌≡◌, refl, ap, ◌∙◌, arith, ◌⊎◌,
  inl, inr, Bool-cases,
}
use simcrs.Stdair.{Stdair}
use simcrs.Calls.{
  Handle, Call, Reply, World, Answer, replies, raises, make_simfqt, make_airtsp, make_airinv,
}
use simcrs.Exec.{Fault, thrown, Result, ok, err, Exec, continue, from_answer, ◌>>=◌}
use simcrs.Context.{
  Context, set_stdair_service, set_sevmgr_service, set_airtsp_service, set_airinv_service,
  set_simfqt_service,
}
use simcrs.Memory.{Address}
use simcrs.Factory.Sound.{IsSound}
use simcrs.Program.{Program, ask}
use simcrs.Program.Only.{Raises}
use simcrs.Service.{
  asserted_context, change_context, add_stdair_service, add_sevmgr_service, init_simfqt_service,
  init_airtsp_service, make_airinv_service, init_airinv_service,
}
use simcrs.Service.Placement.{
  with_context-IsSound, Has, at_address, asserted_context-Has, change_context-Has,
}

-- A step of the construction ends with a context that has `R`, or with a fault of `E`.
pub data After {S : Stdair} {A : Type 0} (E : Fault → Type 0) (a : Address)
    (R : A → Context → Type 0) : Result A × Program S → Type 0 where
  ended : {x : A} {s : Program S} (c : Context) → Has s a c → R x c → After E a R (ok x, s)
  raised : {e : Fault} {s : Program S} → E e → IsSound s.memory → After E a R (err e, s)

module _ {S : Stdair} {E : Fault → Type 0} (a : Address) where
  After-continue :
      {A B : Type 0} {R : A → Context → Type 0} {T : B → Context → Type 0} {r : Result A}
      {s : Program S} {f : A → Exec (Program S) B}
      → After E a R (r, s)
      → ((x : A) (s' : Program S) (c : Context) → Has s' a c → R x c → After E a T (f x s'))
      → After E a T (continue r f s)
  After-continue (ended c has r) k = k _ _ c has r
  After-continue (raised t v) k = raised t v

  pub After-bind :
      {A B : Type 0} {R : A → Context → Type 0} {T : B → Context → Type 0} (m : Exec (Program S) A)
      {f : A → Exec (Program S) B} {s : Program S}
      → After E a R (m s)
      → ((x : A) (s' : Program S) (c : Context) → Has s' a c → R x c → After E a T (f x s'))
      → After E a T ((m >>= f) s)
  unfolding ◌>>=◌
  After-bind m h k = After-continue h k

  -- A setter on the context.
  pub change_context-After :
      {s : Program S} {c : Context} (f : Context → Context)
      → Has s a c
      → After E a (λ _ d. d ≡ f c) (change_context (at_address a) f s)
  change_context-After {s} {c} f has = rw (change_context-Has a f has) (
      ended (f c)
        (record {
          context = ground arith;
          sound = with_context-IsSound a (f c) has.context has.sound;
        })
        refl)

  -- A call of another component.
  ask-After :
      (world : World S) (raise : Raises world E) (x : Call S) {s : Program S} {c : Context}
      → Has s a c
      → After E a (λ _ d. d ≡ c) (ask world x s)
  unfolding ask
  ask-After world raise x {s} {c} has = go (world s.history x) (raise s.history x)
    where
      go :
          (r : Answer (Reply x))
          → ((what : String) → r ≡ raises what → E (thrown what))
          → After E a (λ _ d. d ≡ c) (from_answer r, record s { history = s.history ++ (x ∷ []) })
      go (replies y) k = ended c (record { context = has.context; sound = has.sound }) refl
      go (raises what) k = raised (k what refl) has.sound

  pub with_asserted :
      {B : Type 0} {T : B → Context → Type 0} (f : Context → Exec (Program S) B) {s : Program S}
      {c : Context}
      → Has s a c
      → After E a T (f c s)
      → After E a T ((asserted_context (at_address a) >>= f) s)
  unfolding ◌>>=◌
  with_asserted f has h = rw (asserted_context-Has a has) h

  pub After-mono :
      {A : Type 0} {R T : A → Context → Type 0} {r : Result A × Program S}
      → After E a R r
      → ((x : A) (c : Context) → R x c → T x c)
      → After E a T r
  After-mono (ended c has r) k = ended c has (k _ c r)
  After-mono (raised t v) k = raised t v

  pub add_stdair_service-After :
      {s : Program S} {c : Context} (h : Option Handle) (owns : Bool)
      → Has s a c
      → After E a
          (λ _ d. d ≡ set_stdair_service h owns c)
          (add_stdair_service (at_address a) h owns s)
  unfolding add_stdair_service
  add_stdair_service-After h owns has =
      with_asserted _ has (change_context-After (set_stdair_service h owns) has)

  pub add_sevmgr_service-After :
      {s : Program S} {c : Context} (h : Option Handle) (owns : Bool)
      → Has s a c
      → After E a
          (λ _ d. d ≡ set_sevmgr_service h owns c)
          (add_sevmgr_service (at_address a) h owns s)
  unfolding add_sevmgr_service
  add_sevmgr_service-After h owns has =
      with_asserted _ has (change_context-After (set_sevmgr_service h owns) has)

  -- A component that is made and stored.
  install :
      (m : Exec (Program S) Handle) {s : Program S} {c : Context}
      (put : Option Handle → Context → Context)
      → After E a (λ _ d. d ≡ c) (m s)
      → After E a
          (λ _ d. (h : Handle) × (d ≡ put (some h) c))
          ((m >>= λ h. change_context (at_address a) (put (some h))) s)
  install m put made = After-bind m made λ h s' c' has' e.
      After-mono (change_context-After (put (some h)) has') λ _ d e'. (h, e' ∙ ap (put (some h)) e)

  module _ (world : World S) (raise : Raises world E) {s : Program S} {c : Context}
      (has : Has s a c) where
    pub init_simfqt_service-After :
        After E a
          (λ _ d. (h : Handle) × (d ≡ set_simfqt_service (some h) c))
          (init_simfqt_service world (at_address a) s)
    unfolding init_simfqt_service
    init_simfqt_service-After =
        with_asserted _ has
          (install _ set_simfqt_service (ask-After world raise (make_simfqt c.stdair_service) has))

    pub init_airtsp_service-After :
        After E a
          (λ _ d. (h : Handle) × (d ≡ set_airtsp_service (some h) c))
          (init_airtsp_service world (at_address a) s)
    unfolding init_airtsp_service
    init_airtsp_service-After =
        with_asserted _ has
          (install _ set_airtsp_service (ask-After world raise (make_airtsp c.stdair_service) has))

    -- Without an event manager of its own the service must have been handed one.
    make_airinv_service-After :
        (c.own_sevmgr_service ≡ true) ⊎ (is_some c.sevmgr_service ≡ true)
        → After E a (λ _ d. d ≡ c) (make_airinv_service world c s)
    unfolding make_airinv_service ◌>>=◌
    make_airinv_service-After (inl owns) =
        simp owns (ask-After world raise (make_airinv c.stdair_service none) has)
    make_airinv_service-After (inr there) = elim (Bool-cases c.own_sevmgr_service) [
      | inl owns ↦ simp owns (ask-After world raise (make_airinv c.stdair_service none) has)
      | inr borrows ↦
          simp (borrows, there)
            (ask-After world raise (make_airinv c.stdair_service c.sevmgr_service) has)
    ]

    pub init_airinv_service-After :
        (c.own_sevmgr_service ≡ true) ⊎ (is_some c.sevmgr_service ≡ true)
        → After E a
            (λ _ d. (h : Handle) × (d ≡ set_airinv_service (some h) c))
            (init_airinv_service world (at_address a) s)
    unfolding init_airinv_service
    init_airinv_service-After h =
        with_asserted _ has (install _ set_airinv_service (make_airinv_service-After h))
