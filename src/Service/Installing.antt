-- ===== src/Service/Installing.antt =====
-- The helpers of the constructors that each make one component, or store one, on a live context.
use simcrs.Base.{Bool, true, Option, none, some, [], ◌∷◌, ◌++◌, ◌≡◌, arith}
use simcrs.Stdair.{Stdair}
use simcrs.Calls.{Handle, Call, World, replies, make_simfqt, make_airtsp, make_airinv}
use simcrs.Exec.{ok, ◌>>=◌}
use simcrs.Context.{
  Context, set_stdair_service, set_sevmgr_service, set_airtsp_service, set_airinv_service,
  set_simfqt_service, get_stdair_service_ptr, get_own_sevmgr_service_flag,
}
use simcrs.Memory.{Address}
use simcrs.Program.{Program, ask}
use simcrs.Service.{
  add_stdair_service, add_sevmgr_service, init_simfqt_service, init_airtsp_service,
  make_airinv_service, init_airinv_service,
}
use simcrs.Service.Placement.{Has, at_address, with_context, with_context-IsSound}

-- The context with a component more.
abbrev pub installed : {S : Stdair} → Address → Call S → Context → Program S → Program S
installed a x d s = record { memory = with_context s.memory a d; history = s.history ++ x ∷ [] }

module _ {S : Stdair} (world : World S) (a : Address) (h : Handle) {s : Program S} {c : Context}
    (has : Has s a c) where
  pub installed-Has : (x : Call S) (d : Context) → Has (installed a x d s) a d
  installed-Has x d = record {
    context = ground arith;
    sound = with_context-IsSound a d has.context has.sound;
  }

  pub init_simfqt_service-made :
      world s.history (make_simfqt c.stdair_service) ≡ replies h
      → init_simfqt_service world (at_address a) s
        ≡ (ok tt, installed a (make_simfqt c.stdair_service) (set_simfqt_service (some h) c) s)
  unfolding init_simfqt_service get_stdair_service_ptr ask ◌>>=◌
  init_simfqt_service-made made = ground (arith, has.context, made)

  pub init_airtsp_service-made :
      world s.history (make_airtsp c.stdair_service) ≡ replies h
      → init_airtsp_service world (at_address a) s
        ≡ (ok tt, installed a (make_airtsp c.stdair_service) (set_airtsp_service (some h) c) s)
  unfolding init_airtsp_service get_stdair_service_ptr ask ◌>>=◌
  init_airtsp_service-made made = ground (arith, has.context, made)

  pub init_airinv_service-made :
      c.own_sevmgr_service ≡ true
      → world s.history (make_airinv c.stdair_service none) ≡ replies h
      → init_airinv_service world (at_address a) s
        ≡ (ok tt, installed a (make_airinv c.stdair_service none) (set_airinv_service (some h) c) s)
  unfolding init_airinv_service make_airinv_service get_stdair_service_ptr
      get_own_sevmgr_service_flag ask ◌>>=◌
  init_airinv_service-made owns made = ground (arith, has.context, owns, made)

  -- A setter on the context.
  abbrev pub stored : Context → Program S
  stored d = record s { memory = with_context s.memory a d }

  pub stored-Has : (d : Context) → Has (stored d) a d
  stored-Has d = record {
    context = ground arith;
    sound = with_context-IsSound a d has.context has.sound;
  }

  pub add_stdair_service-stored :
      (std : Option Handle) (owns : Bool)
      → add_stdair_service (at_address a) std owns s
        ≡ (ok tt, stored (set_stdair_service std owns c))
  unfolding add_stdair_service ◌>>=◌
  add_stdair_service-stored std owns = ground (arith, has.context)

  pub add_sevmgr_service-stored :
      (g : Option Handle) (owns : Bool)
      → add_sevmgr_service (at_address a) g owns s ≡ (ok tt, stored (set_sevmgr_service g owns c))
  unfolding add_sevmgr_service ◌>>=◌
  add_sevmgr_service-stored g owns = ground (arith, has.context)
