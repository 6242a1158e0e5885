-- ===== src/Service/Trying.antt =====
-- The components that each constructor makes, on any answers: the calls, and what an exception leaves.
use simcrs.Base.{
  String, true, false, Option, none, some, List, [], ◌∷◌, ◌++◌, ◌≡◌, refl, sym, ◌∙◌, arith, inl,
  inr,
}
use simcrs.Stdair.{Stdair}
use simcrs.Calls.{
  Handle, Call, Reply, World, replies, raises, Answer-cases, make_simfqt, make_airtsp, make_airinv,
}
use simcrs.Exec.{Result, ok, err, thrown, Exec, pure, lift, ◌>>=◌}
use simcrs.Context.{
  Context, set_airtsp_service, set_airinv_service, set_simfqt_service, get_stdair_service_ptr,
  get_sevmgr_service_ptr, get_own_sevmgr_service_flag,
}
use simcrs.Memory.{Address}
use simcrs.Factory.Sound.{IsSound}
use simcrs.Program.{Program, ask}
use simcrs.Program.Attempt.{attempt, called}
use simcrs.Service.{
  init_simfqt_service, init_airtsp_service, make_airinv_service, init_airinv_service,
  init_components,
}
use simcrs.Service.Placement.{Has, at_address}
use simcrs.Service.Installing.{
  installed, installed-Has, init_simfqt_service-made, init_airtsp_service-made,
}

-- A result without its value.
abbrev outcome : {A : Type 0} → Result A → Result (Unit {0})
outcome (ok a) = ok tt
outcome (err e) = err e

-- AirInv is made over the event manager `g`, or none if the service owns its own.
abbrev Manages : Context → Option Handle → Type 0
Manages c none = c.own_sevmgr_service ≡ true
Manages c (some g) = (c.own_sevmgr_service ≡ false) × (c.sevmgr_service ≡ some g)

Manages-set :
    (c : Context) (f t : Handle) (g : Option Handle)
    → Manages c g
    → Manages (set_airtsp_service (some t) (set_simfqt_service (some f) c)) g
unfolding set_airtsp_service set_simfqt_service
Manages-set c f t none owns = owns
Manages-set c f t (some g) borrows = borrows

module _ {S : Stdair} (world : World S) where
  -- What a constructor over the StdAir `std` comes to: it makes the calls `cs` in a row, up to the
  -- first that raises an exception, which comes out. Either way the context at `a` is live, holds
  -- `std`, and the factories are in order.
  pub record Ended {A : Type 0} (cs : List (Call S)) (std : Option Handle) (a : Address)
      (s : Program S) (p : Result A × Program S) : Type 0 where
    pub result : outcome p.0 ≡ (attempt world cs s).0
    pub history : p.1.history ≡ (attempt world cs s).1.history
    pub left : (c : Context) × (p.1.memory.contexts a ≡ some c) × (c.stdair_service ≡ std)
    pub sound : IsSound p.1.memory

  -- The memory does not matter to the calls.
  attempt-same :
      (cs : List (Call S)) (s t : Program S)
      → s.history ≡ t.history
      → ((attempt world cs s).0 ≡ (attempt world cs t).0)
        × ((attempt world cs s).1.history ≡ (attempt world cs t).1.history)
  unfolding attempt ask ◌>>=◌
  attempt-same [] s t e = unfold pure in (refl, e)
  attempt-same (c ∷ cs) s t e = elim (Answer-cases (world t.history c)) [
    | inl (r, f) ↦
        rw (e, f)
          (attempt-same cs (record s { history = t.history ++ c ∷ [] }) (called world t (c ∷ []))
            refl)
    | inr (what, f) ↦ rw (e, f) (refl, refl)
  ]

  pub Ended-same :
      {A : Type 0} {cs : List (Call S)} {std : Option Handle} {a : Address} (s t : Program S)
      {p : Result A × Program S}
      → s.history ≡ t.history
      → Ended cs std a t p
      → Ended cs std a s p
  Ended-same {A} {cs} s t e v =
      let same = attempt-same cs t s (sym e) in
      record {
        result = v.result ∙ same.0;
        history = v.history ∙ same.1;
        left = v.left;
        sound = v.sound;
      }

  module _ (a : Address) where
    -- One of the helpers, by what the component answers to its call.
    data Tried (x : Call S) (m : Exec (Program S) (Unit {0})) (s : Program S)
        (Then : Program S → Type 0) : Type 0 where
      replied :
          (r : Reply x) (s' : Program S)
          → world s.history x ≡ replies r
          → m s ≡ (ok tt, s')
          → s'.history ≡ s.history ++ x ∷ []
          → Then s'
          → Tried x m s Then
      raised :
          (what : String)
          → world s.history x ≡ raises what
          → m s ≡ (err (thrown what), called world s (x ∷ []))
          → Tried x m s Then

    Tried-Ended :
        {A : Type 0} {x : Call S} {cs : List (Call S)} (m : Exec (Program S) (Unit {0}))
        (k : Exec (Program S) A) {s : Program S} {c : Context}
        → Has s a c
        → Tried x m s (λ s'. Ended cs c.stdair_service a s' (k s'))
        → Ended (x ∷ cs) c.stdair_service a s ((m >>= λ _. k) s)
    unfolding ◌>>=◌ attempt ask
    Tried-Ended {A} {x} {cs} m k {s} has (replied r s' e f g then) =
        let same = attempt-same cs s' (called world s (x ∷ [])) g in
        rw f (record {
          result = rw e (then.result ∙ same.0);
          history = rw e (then.history ∙ same.1);
          left = then.left;
          sound = then.sound;
        })
    Tried-Ended m k {s} {c} has (raised what e f) = rw f (record {
      result = rw e refl;
      history = rw e refl;
      left = (c, has.context, refl);
      sound = has.sound;
    })

    module _ {s : Program S} {c : Context} (has : Has s a c) where
      -- The helper goes on over the context with the component more.
      abbrev Goes : Call S → (Handle → Context) → (Program S → Type 0) → Type 0
      Goes x d Then =
          (r : Handle) → Has (installed a x (d r) s) a (d r) → Then (installed a x (d r) s)

      simfqt-Tried :
          {Then : Program S → Type 0}
          → Goes (make_simfqt c.stdair_service) (λ r. set_simfqt_service (some r) c) Then
          → Tried (make_simfqt c.stdair_service) (init_simfqt_service world (at_address a)) s Then
      simfqt-Tried go = elim (Answer-cases (world s.history (make_simfqt c.stdair_service))) [
        | inl (r, e) ↦
            replied r _ e (init_simfqt_service-made world a r has e) refl
              (go r (installed-Has world a r has _ _))
        | inr (what, e) ↦ raised what e (
            unfold init_simfqt_service get_stdair_service_ptr ask ◌>>=◌ in
            ground (arith, has.context, e))
      ]

      airtsp-Tried :
          {Then : Program S → Type 0}
          → Goes (make_airtsp c.stdair_service) (λ r. set_airtsp_service (some r) c) Then
          → Tried (make_airtsp c.stdair_service) (init_airtsp_service world (at_address a)) s Then
      airtsp-Tried go = elim (Answer-cases (world s.history (make_airtsp c.stdair_service))) [
        | inl (r, e) ↦
            replied r _ e (init_airtsp_service-made world a r has e) refl
              (go r (installed-Has world a r has _ _))
        | inr (what, e) ↦ raised what e (
            unfold init_airtsp_service get_stdair_service_ptr ask ◌>>=◌ in
            ground (arith, has.context, e))
      ]

      airinv-made :
          (g : Option Handle)
          → Manages c g
          → make_airinv_service world c ≡ ask world (make_airinv c.stdair_service g)
      unfolding make_airinv_service get_stdair_service_ptr get_sevmgr_service_ptr
          get_own_sevmgr_service_flag ◌>>=◌ lift
      airinv-made none owns = rw owns refl
      airinv-made (some g) (borrows, there) = rw (borrows, there) refl

      airinv-Tried :
          {Then : Program S → Type 0} (g : Option Handle)
          → Manages c g
          → Goes (make_airinv c.stdair_service g) (λ r. set_airinv_service (some r) c) Then
          → Tried (make_airinv c.stdair_service g) (init_airinv_service world (at_address a)) s Then
      airinv-Tried g manages go =
          elim (Answer-cases (world s.history (make_airinv c.stdair_service g))) [
            | inl (r, e) ↦
                replied r
                  (installed a (make_airinv c.stdair_service g) (set_airinv_service (some r) c) s) e
                  (unfold init_airinv_service ask ◌>>=◌ in
                    ground (arith, has.context, airinv-made g manages, e))
                  refl (go r (installed-Has world a r has _ _))
            | inr (what, e) ↦ raised what e (
                unfold init_airinv_service ask ◌>>=◌ in
                ground (arith, has.context, airinv-made g manages, e))
          ]

    pub init_components-Ended :
        {s : Program S} {c : Context} (has : Has s a c) (g : Option Handle)
        → Manages c g
        → Ended
            (make_simfqt c.stdair_service
              ∷ make_airtsp c.stdair_service
              ∷ make_airinv c.stdair_service g
              ∷ [])
            c.stdair_service
            a
            s
            (init_components world (at_address a) s)
    unfolding init_components set_simfqt_service set_airtsp_service set_airinv_service attempt pure
    init_components-Ended {s} {c} has g manages = Tried-Ended _ _ has (
        simfqt-Tried has λ f has₁. Tried-Ended _ _ has₁ (
          airtsp-Tried has₁ λ t has₂. Tried-Ended _ _ has₂ (
            airinv-Tried has₂ g (Manages-set c f t g manages) λ i has₃. record {
              result = refl;
              history = refl;
              left = (_, has₃.context, refl);
              sound = has₃.sound;
            })))
