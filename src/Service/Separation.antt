-- ===== src/Service/Separation.antt =====
-- The constructors of SIMCRS_Service beside services that were made before.
use simcrs.Base.{
  ◌<◌, String, Bool, true, false, Option, some, [], ◌∷◌, ◌++◌, ◌≡◌, arith, ◌==◌, ◌∙◌, Option-cases,
  inl, inr,
}
use simcrs.Stdair.{Stdair}
use simcrs.Calls.{Handle, World, Answer-cases, make_stdair}
use simcrs.Exec.{Exec, ◌>>=◌}
use simcrs.Context.{Context}
use simcrs.Memory.{Memory, Address}
use simcrs.Factory.Sound.{IsSound, IsSound-bounded}
use simcrs.Factory.Promise.{Gives, create-Gives}
use simcrs.Program.Keeps.{keeps_rules, Keeps}
use simcrs.Program.{Program, ask}
use simcrs.Service.{
  Service, asserted_context, change_context, init_service_context, add_stdair_service,
  add_sevmgr_service, init_stdair_service, init_airtsp_service, init_simfqt_service,
  make_airinv_service, init_airinv_service, init_components, construct_owning, construct_borrowing,
}
use simcrs.Service.Placement.{placed, init_service_context-placed, at_address}

-- The context at `b` is `o`, and the address has been given out.
abbrev pub Fixed : Address → Option Context → Memory → Type 0
Fixed b o m = (m.contexts b ≡ o) × (b < m.next)

module _ {S : Stdair} (b : Address) (o : Option Context) where
  abbrev FixedBy : {A : Type 0} → Exec (Program S) A → Type 0
  FixedBy m = Keeps (Fixed b o) m

  asserted_context-Keeps : (svc : Service) → FixedBy (asserted_context svc)
  unfolding asserted_context
  asserted_context-Keeps svc = search keeps_rules

  module _ (a : Address) (apart : (a == b) ≡ false) where
    change_context-Keeps : (f : Context → Context) → FixedBy (change_context (at_address a) f)
    unfolding change_context ◌>>=◌
    change_context-Keeps f = record {
      keep = λ s q. elim (Option-cases (s.memory.contexts a)) [
        | inl e ↦ ground (arith, e, q.0, q.1)
        | inr (c, e) ↦ ground (arith, e, q.0, q.1, apart)
      ];
    }

    add_stdair_service-Keeps :
        (h : Option Handle) (owns : Bool) → FixedBy (add_stdair_service (at_address a) h owns)
    unfolding add_stdair_service
    add_stdair_service-Keeps h owns =
        search (keeps_rules, asserted_context-Keeps, change_context-Keeps)

    add_sevmgr_service-Keeps :
        (h : Option Handle) (owns : Bool) → FixedBy (add_sevmgr_service (at_address a) h owns)
    unfolding add_sevmgr_service
    add_sevmgr_service-Keeps h owns =
        search (keeps_rules, asserted_context-Keeps, change_context-Keeps)

    make_airinv_service-Keeps :
        (world : World S) (c : Context) → FixedBy (make_airinv_service world c)
    unfolding make_airinv_service
    make_airinv_service-Keeps world c = search keeps_rules

    init_components-Keeps : (world : World S) → FixedBy (init_components world (at_address a))
    unfolding init_components init_simfqt_service init_airtsp_service init_airinv_service
    init_components-Keeps world =
        search
          (keeps_rules, asserted_context-Keeps, change_context-Keeps, make_airinv_service-Keeps)
          depth 9

    -- What the constructors do to the new context.
    owning-Keeps :
        (world : World S) (h : Option Handle)
        → FixedBy
            (add_stdair_service (at_address a) h true >>= λ _. init_components world (at_address a))
    owning-Keeps world h = search (keeps_rules, add_stdair_service-Keeps, init_components-Keeps)

    borrowing-Keeps :
        (world : World S) (h g : Option Handle)
        → FixedBy (
            add_stdair_service (at_address a) h false >>= λ _.
            add_sevmgr_service (at_address a) g false >>= λ _. init_components world (at_address a))
    borrowing-Keeps world h g =
        search
          (keeps_rules, add_stdair_service-Keeps, add_sevmgr_service-Keeps, init_components-Keeps)

  -- The new context stands elsewhere.
  placed-Fixed :
      {code : String} (s : Program S) (g : Gives code s.memory)
      → Fixed b o s.memory
      → ((g.address == b) ≡ false) × Fixed b o (placed s g).memory
  placed-Fixed s g q =
      let apart : (g.address == b) ≡ false = ground (arith, g.fresh, q.1) in
      (apart, (g.contexts b ∙ rw apart q.0, omega (arith, g.fresh, g.given, q.1)))

  init_service_context-then :
      (code : String) (s : Program S) (k : Service → Exec (Program S) Service)
      → IsSound s.memory
      → Fixed b o s.memory
      → ((a : Address) → (a == b) ≡ false → FixedBy (k (at_address a)))
      → Fixed b o ((init_service_context code >>= k) s).1.memory
  unfolding ◌>>=◌
  init_service_context-then code s k sound q kept =
      let g = create-Gives code sound in
      let (apart, q') = placed-Fixed s g q in
      rw (init_service_context-placed code s g) ((kept g.address apart).keep (placed s g) q')

  module _ (world : World S) (code : String) (s : Program S) (sound : IsSound s.memory) where
    pub construct_borrowing-Fixed :
        (h g : Option Handle)
        → Fixed b o s.memory
        → Fixed b o (construct_borrowing world h g code s).1.memory
    unfolding construct_borrowing
    construct_borrowing-Fixed h g q =
        init_service_context-then code s _ sound q λ a apart. borrowing-Keeps a apart world h g

    pub construct_owning-Fixed :
        (log : S.LogParams) (db : Option S.DbParams)
        → Fixed b o s.memory
        → Fixed b o (construct_owning world log db code s).1.memory
    unfolding construct_owning init_stdair_service ask ◌>>=◌
    construct_owning-Fixed log db q = elim (Answer-cases (world s.history (make_stdair log db))) [
      | inl (h, e) ↦ rw e (
          init_service_context-then code
            (record s { history = s.history ++ make_stdair log db ∷ [] }) _ sound q
            λ a apart. owning-Keeps a apart world (some h))
      | inr (what, e) ↦ rw e q
    ]

-- From factories in order, making a service, with any of the constructors and however it ends, leaves
-- each context that is live before as it is.
pub construct-separate :
    {S : Stdair} (world : World S) (log : S.LogParams) (db : Option S.DbParams)
    (h g : Option Handle) (code : String) (s : Program S) (b : Address) (x : Context)
    → IsSound s.memory
    → s.memory.contexts b ≡ some x
    → ((construct_owning world log db code s).1.memory.contexts b ≡ some x)
      × ((construct_borrowing world h g code s).1.memory.contexts b ≡ some x)
construct-separate world log db h g code s b x sound there =
    let q : Fixed b (some x) s.memory = (there, IsSound-bounded sound b x there) in
    (
      (construct_owning-Fixed b (some x) world code s sound log db q).0,
      (construct_borrowing-Fixed b (some x) world code s sound h g q).0,
    )
