-- ===== src/Service/Refusal.antt =====
-- The constructor over someone else's services, without an event manager.
use simcrs.Base.{String, false, Option, none, ◌≡◌, refl, arith}
use simcrs.Stdair.{Stdair}
use simcrs.Calls.{Handle, World}
use simcrs.Exec.{
  Fault, assertion_failed, undefined_behaviour, non_initialised_service, thrown, Result, err, Exec,
  continue, ◌>>=◌,
}
use simcrs.Context.{Context, set_sevmgr_service, set_airtsp_service, set_simfqt_service}
use simcrs.Memory.{Address}
use simcrs.Factory.Sound.{IsSound}
use simcrs.Program.{Program}
use simcrs.Service.{init_airinv_service, init_components, construct_borrowing}
use simcrs.Service.Safety.{IsThrown}
use simcrs.Service.Construction.{
  After, ended, raised, add_stdair_service-After, add_sevmgr_service-After,
  init_simfqt_service-After, init_airtsp_service-After,
}
use simcrs.Service.Placement.{Has, at_address, init_service_context-Has}

-- No service: an assertion failed, or an exception of a component came out, and the factories are in
-- order.
pub data Refuses {S : Stdair} {A : Type 0} : Result A × Program S → Type 0 where
  failed : {s : Program S} → IsSound s.memory → Refuses (err assertion_failed, s)
  let_out : {s : Program S} {what : String} → IsSound s.memory → Refuses (err (thrown what), s)

module _ {S : Stdair} (a : Address) where
  Refuses-raised :
      {A : Type 0} (e : Fault) (s : Program S)
      → IsThrown e
      → IsSound s.memory
      → Refuses {A = A} (err e, s)
  Refuses-raised (thrown what) s t v = let_out v
  Refuses-raised assertion_failed s t v = absurd t
  Refuses-raised undefined_behaviour s t v = absurd t
  Refuses-raised non_initialised_service s t v = absurd t

  Refuses-continue :
      {A B : Type 0} {R : A → Context → Type 0} {f : A → Exec (Program S) B} {r : Result A}
      {s : Program S}
      → After IsThrown a R (r, s)
      → ((x : A) (s' : Program S) (c : Context) → Has s' a c → R x c → Refuses (f x s'))
      → Refuses (continue r f s)
  Refuses-continue (ended c has r) k = k _ _ c has r
  Refuses-continue (raised t v) k = Refuses-raised _ _ t v

  Refuses-bind :
      {A B : Type 0} {R : A → Context → Type 0} (m : Exec (Program S) A)
      {f : A → Exec (Program S) B} {s : Program S}
      → After IsThrown a R (m s)
      → ((x : A) (s' : Program S) (c : Context) → Has s' a c → R x c → Refuses (f x s'))
      → Refuses ((m >>= f) s)
  unfolding ◌>>=◌
  Refuses-bind m h k = Refuses-continue h k

  module _ (world : World S) where
    init_airinv_service-fails :
        {s : Program S} {c : Context}
        → Has s a c
        → c.own_sevmgr_service ≡ false
        → c.sevmgr_service ≡ none
        → init_airinv_service world (at_address a) s ≡ (err assertion_failed, s)
    unfolding init_airinv_service ◌>>=◌
    init_airinv_service-fails has borrows absent = ground (arith, has.context)

    init_airinv_service-Refuses :
        {B : Type 0} (f : Unit {0} → Exec (Program S) B) {s : Program S} {c : Context}
        → Has s a c
        → c.own_sevmgr_service ≡ false
        → c.sevmgr_service ≡ none
        → Refuses ((init_airinv_service world (at_address a) >>= f) s)
    unfolding ◌>>=◌
    init_airinv_service-Refuses f has borrows absent =
        rw (init_airinv_service-fails has borrows absent) (failed has.sound)

    init_components-Refuses :
        {s : Program S} {c : Context}
        → Has s a c
        → c.own_sevmgr_service ≡ false
        → c.sevmgr_service ≡ none
        → Refuses (init_components world (at_address a) s)
    unfolding init_components set_airtsp_service set_simfqt_service
    init_components-Refuses has borrows absent =
        Refuses-bind _ (init_simfqt_service-After a world (λ h c what r. tt) has)
          λ _ s₁ c₁ has₁ (f, e₁).
            Refuses-bind _ (init_airtsp_service-After a world (λ h c what r. tt) has₁)
              λ _ s₂ c₂ has₂ (t, e₂).
                init_airinv_service-Refuses _ has₂ (rw (e₂, e₁) borrows) (rw (e₂, e₁) absent)

-- From factories in order, and with a NULL event manager, the constructor over someone else's
-- services makes no service: the assertion on the event manager fails, unless a component raises an
-- exception before. The factories are in order.
pub construct_borrowing-Refuses :
    {S : Stdair} (world : World S) (h : Option Handle) (code : String) (s : Program S)
    → IsSound s.memory
    → Refuses (construct_borrowing world h none code s)
unfolding construct_borrowing ◌>>=◌
construct_borrowing-Refuses world h code s sound =
    let (a, s', e, has) = init_service_context-Has code s sound in
    rw e (
      Refuses-continue a (add_stdair_service-After a h false has) λ _ s₁ c₁ has₁ e₁.
        Refuses-continue a (add_sevmgr_service-After a none false has₁) λ _ s₂ c₂ has₂ e₂.
          init_components-Refuses a world has₂ (unfold set_sevmgr_service in rw e₂ refl)
            (unfold set_sevmgr_service in rw e₂ refl))

pub Refuses-IsSound :
    {S : Stdair} {A : Type 0} {p : Result A × Program S} → Refuses p → IsSound p.1.memory
Refuses-IsSound (failed v) = v
Refuses-IsSound (let_out v) = v
