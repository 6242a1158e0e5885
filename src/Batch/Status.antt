-- ===== src/Batch/Status.antt =====
-- The exit status of the batch program, by the answers of the components.
use simcrs.Base.{
  ℤ, negsuc, String, Bool, Option, none, some, List, [], ◌∷◌, ◌++◌, ◌≡◌, refl, sym, ◌∙◌, ◌↔◌, pos,
}
use simcrs.Stdair.{Stdair}
use simcrs.Calls.{Call, World, Answer, replies, raises, make_stdair}
use simcrs.Exec.{Result, ok, err, pure, ◌>>=◌}
use simcrs.Factory.Sound.{IsSound}
use simcrs.Program.{Program}
use simcrs.Program.Attempt.{IsReply, Answered, called}
use simcrs.Program.Returning.{bind-returned, known-returned, attempt-returned}
use simcrs.Service.{Service, construct_owning, destroy}
use simcrs.Service.Placement.{at_address}
use simcrs.Service.Making.{Makes, making, components, construct_owning-Made}
use simcrs.Service.Unfinished.{rest, Attempted, no_stdair, over_stdair, owning-Attempted}
use simcrs.Batch.Options.{log, Build, ProgramOptions, IsDocumented}
use simcrs.Batch.Configuration.{Configuration, Settings, early_output}
use simcrs.Batch.Run.{Process, serve, run, main}
use simcrs.Batch.Booked.{loaded, Leads}
use simcrs.Batch.Sold.{
  at-some, run-Leads, asked_builtin, asked_settings, asked_configuration, main-runs,
}
use simcrs.Batch.Precedence.{Accepted}
use simcrs.Batch.Returned.{serve-returned}
use simcrs.Batch.Declined.{Declines, serve-declined, serve-Declines}
use simcrs.Context.{Context}
use simcrs.Service.Building.{Serves}
use simcrs.Service.Finalisation.{destroy-IsReleased}
use simcrs.Memory.{Memory, Address}

reply-of : {A : Type 0} (a : Answer A) → IsReply a → (x : A) × (a ≡ replies x)
reply-of (replies x) h = (x, refl)
reply-of (raises what) h = absurd h

module _ {S : Stdair} (world : World S) where
  -- A constructor that returns has made its components.
  pub Attempted-Makes :
      (code : String) (s : Program S) (params : S.LogParams) (db : Option S.DbParams)
      (svc : Service) (p : Result Service × Program S)
      → Attempted world code s params db p
      → p.0 ≡ ok svc
      → Makes world params db s.history
  Attempted-Makes code s params db svc _ (no_stdair what e) h = absurd (cc)
  Attempted-Makes code s params db svc (err f, t) (over_stdair std a e fresh v) h = absurd (cc)
  Attempted-Makes code s params db svc (ok svc', t) (over_stdair std a e fresh v) h =
      let s₁ = called world s (make_stdair params db ∷ []) in
      let all = attempt-returned world (rest (some std) none) s₁ (sym v.result) in
      let (fqt, simfqt_made) = reply-of _ all.0 in
      let (tsp, airtsp_made) = reply-of _ all.1.0 in
      let (inv, airinv_made) = reply-of _ all.1.1.0 in
      record {
        std = std;
        fqt = fqt;
        tsp = tsp;
        inv = inv;
        stdair_made = e;
        simfqt_made = simfqt_made;
        airtsp_made = airtsp_made;
        airinv_made = airinv_made;
      }

  -- From the calls `h` on, the other components let the program make, load and sell.
  pub record Succeeds (b : Bool) (x : Settings) (h : List (Call S)) : Type 0 where
    pub made : Makes world (S.debug_log (x log)) none h
    pub read : Answered world (h ++ making made) (loaded (components made) b x)
    pub led : Leads world (components made) ((h ++ making made) ++ loaded (components made) b x)

  -- From the calls `h` on, they let it make and load, and then there is nothing to sell.
  pub record Ceases (b : Bool) (x : Settings) (h : List (Call S)) : Type 0 where
    pub made : Makes world (S.debug_log (x log)) none h
    pub read : Answered world (h ++ making made) (loaded (components made) b x)
    pub declined :
        Declines world (components made) ((h ++ making made) ++ loaded (components made) b x)

  module _ (c : Configuration) (s : Program S) (sound : IsSound s.memory) where
    abbrev started : Makes world (S.debug_log (c.settings log)) none s.history → Memory → Program S
    started l m = record { memory = m; history = s.history ++ making l }

    -- A run that returns has made a service, on which the status was computed.
    run-returned :
        (n : ℤ)
        → (run world c s).0 ≡ ok n
        → (l : Makes world (S.debug_log (c.settings log)) none s.history) × (a : Address)
          × (m : Memory) × (d : Context) × (m.contexts a ≡ some d)
          × Serves d (components l)
          × ((serve world (at_address a) c.is_builtin c.settings (started l m)).0 ≡ ok n)
    unfolding run
    run-returned n h =
        let params = S.debug_log (c.settings log) in
        let make = construct_owning world params none "1P" in
        let (svc, made, h₁) = bind-returned make _ s n h in
        let l =
          Attempted-Makes "1P" s params none svc (make s)
            (owning-Attempted world "1P" s params none sound) made in
        let (a, m, d, e, here, serves, sound') =
          construct_owning-Made world params none "1P" s sound l in
        let s₁ = started l m in
        let h₂ = known-returned make _ s s₁ (at_address a) n e h in
        let (status, served, h₃) =
          bind-returned (serve world (at_address a) c.is_builtin c.settings) _ s₁ n h₂ in
        let (u, ended, h₄) = bind-returned (destroy (at_address a)) _ _ n h₃ in
        (l, a, m, d, here, serves, served ∙ (unfold pure in h₄))

    run-Succeeds : (run world c s).0 ≡ ok (pos 0) → Succeeds c.is_builtin c.settings s.history
    run-Succeeds h =
        let (l, a, m, d, here, serves, served) = run-returned (pos 0) h in
        let (v, r) =
          serve-returned world (components l) (at_address a) d serves c.is_builtin c.settings
            (started l m) (at-some m.contexts a d here) served in
        record { made = l; read = v; led = r }

    run-Ceases : (run world c s).0 ≡ ok (negsuc 0) → Ceases c.is_builtin c.settings s.history
    run-Ceases h =
        let (l, a, m, d, here, serves, served) = run-returned (negsuc 0) h in
        let (v, r) =
          serve-declined world (components l) (at_address a) d serves c.is_builtin c.settings
            (started l m) (at-some m.contexts a d here) served in
        record { made = l; read = v; declined = r }

    Ceases-run : Ceases c.is_builtin c.settings s.history → (run world c s).0 ≡ ok (negsuc 0)
    unfolding run ◌>>=◌
    Ceases-run q =
        let l = q.made in
        let (a, m, d, e, here, serves, sound') =
          construct_owning-Made world (S.debug_log (c.settings log)) none "1P" s sound l in
        let (h, served) =
          serve-Declines world (components l) (at_address a) d serves c.is_builtin c.settings
            (started l m) (at-some m.contexts a d here) q.read q.declined in
        let (returned, context, same, sound'', others) =
          destroy-IsReleased a (record { memory = m; history = h }) d here sound' in
        rw (e, served, returned) (unfold pure in refl)

    -- A run after the options returns 0 exactly where it succeeds, and -1 where it ceases.
    run-exact :
        (((run world c s).0 ≡ ok (pos 0)) ↔ Succeeds c.is_builtin c.settings s.history)
        × (((run world c s).0 ≡ ok (negsuc 0)) ↔ Ceases c.is_builtin c.settings s.history)
    run-exact = (
      (run-Succeeds, λ q. (run-Leads world c s sound q.made q.read q.led).0),
      (run-Ceases, Ceases-run),
    )

module _ {S : Stdair} (world : World S) {boost : ProgramOptions} (doc : IsDocumented boost)
    {build : Build} {args : List String} {file : Option String} (a : Accepted boost build args file)
    (p : Process S) where
  -- Where Boost accepts the options and keeps to its documentation, none of `--help`, `--version`
  -- and `--prefix` is there, and the factories are in order, `main` returns 0 exactly where the other
  -- components let it: each of the four components can be made, each call that builds or loads has a
  -- reply, and so has each call of the booking, with a solution before and after pricing, of which
  -- the first has a segment, a fare option, and a class for each leg. It returns -1 exactly where the
  -- components can be made and build or load, the sample request and the search for solutions have
  -- replies, and there is either no solution, or one before and after pricing, of which the first has
  -- no fare option.
  pub main-exact :
      early_output boost build a.vm ≡ none
      → IsSound p.program.memory
      → (((main world boost build args file p).0 ≡ ok (pos 0))
          ↔ Succeeds world (asked_builtin doc a) (asked_settings doc a) p.program.history)
        × (((main world boost build args file p).0 ≡ ok (negsuc 0))
            ↔ Ceases world (asked_builtin doc a) (asked_settings doc a) p.program.history)
  main-exact e sound =
      let (c, same) = main-runs world doc a p e in
      rw same (run-exact world (asked_configuration doc a c) p.program sound)
