-- ===== src/Service/Confined.antt =====
-- The public methods, one by one, under a policy.
use simcrs.Base.{Bool, false, [], ◌≡◌, refl}
use simcrs.Stdair.{Stdair}
use simcrs.Calls.{
  Handle, Call, World, stdair, airtsp, airinv, simfqt, StdairCall, AirtspCall, AirinvCall,
  SimfqtCall,
}
use simcrs.Exec.{Fault, lift, when, ◌>>=◌}
use simcrs.Context.{Context, get_stdair_service, get_airinv_service}
use simcrs.Memory.{Memory}
use simcrs.Program.{ask}
use simcrs.Program.Only.{Only, Any, Only-pure, Only-ask, Only-when, Only-call, Only-bind}
use simcrs.Distribution.Confined.{calculate_availability-Only, sell-Only, play_cancellation-Only}
use simcrs.Service.{Service, initialised_context}
use simcrs.Service.Bom
use simcrs.Service.Bom.{InputFiles, build_complementary_links}
use simcrs.Service.Booking
use simcrs.Service.Display
use simcrs.Service.Operation.{Operation, perform}
use simcrs.Service.Policy.{
  Policy, Accepts, is_building, through_airinv, through_airtsp, through_simfqt, through_stdair,
  then_airtsp, then_airinv, then_simfqt, owner_head,
}

module _ {S : Stdair} {P : Call S → Type 0} {E : Fault → Type 0} {Q : Memory → Type 0}
    {R : Context → Type 0} (world : World S) {svc : Service} (p : Policy world svc P E Q R) where
  -- A call of StdAir that is allowed.
  ask_stdair :
      (h : Handle) (x : StdairCall S) → P (stdair h x) → Only P E Q Any (ask world (stdair h x))
  ask_stdair h x allowed = Only-ask world (stdair h x) p.raise allowed

  clone_persistent_bom-Only : Only P E Q Any (Bom.clone_persistent_bom world svc)
  unfolding Bom.clone_persistent_bom
  clone_persistent_bom-Only = owner_head world p λ c owns h r reading building.
      Only-bind
        (Only-when owns _ (λ t. ask_stdair h StdairCall.clone_persistent_bom (building _ t)))
        λ _ _. then_airtsp world p c r AirtspCall.clone_persistent_bom λ _ _.
          then_airinv world p c r AirinvCall.clone_persistent_bom λ _ _.
            then_simfqt world p c r SimfqtCall.clone_persistent_bom λ _ _.
              Only-call world (stdair h StdairCall.get_bom_root) p.raise (reading _ refl)
                λ _. Only-pure tt tt

  -- The end of `parseAndLoad` and `buildSampleBom`.
  clone_if_owned-Only :
      (owns : Bool) (root : S.BomRoot)
      → Only P E Q Any
          (build_complementary_links root >>= λ _. when owns (Bom.clone_persistent_bom world svc))
  unfolding build_complementary_links
  clone_if_owned-Only owns root =
      Only-bind {R = Any} (Only-pure tt tt) λ _ _. Only-when owns _ (λ _. clone_persistent_bom-Only)

  parse_and_load-Only : (f : InputFiles) → Only P E Q Any (Bom.parse_and_load world svc f)
  unfolding Bom.parse_and_load
  parse_and_load-Only f = owner_head world p λ c owns h r reading building.
      Only-call world (stdair h StdairCall.get_persistent_bom_root) p.raise (reading _ refl) λ root.
        then_airtsp world p c r (AirtspCall.parse_and_load f.schedule) λ _ _.
          then_airinv world p c r
            (AirinvCall.parse_and_load f.schedule f.ond f.frat5 f.ff_disutility f.yield)
            λ _ _.
              then_simfqt world p c r (SimfqtCall.parse_and_load f.fare)
                λ _ _. clone_if_owned-Only owns root

  build_sample_bom-Only : Only P E Q Any (Bom.build_sample_bom world svc)
  unfolding Bom.build_sample_bom
  build_sample_bom-Only = owner_head world p λ c owns h r reading building.
      Only-call world (stdair h StdairCall.get_persistent_bom_root) p.raise (reading _ refl) λ root.
        Only-bind (Only-when owns _ (λ t. ask_stdair h StdairCall.build_sample_bom (building _ t)))
          λ _ _. then_airtsp world p c r AirtspCall.build_sample_bom λ _ _.
            then_airinv world p c r AirinvCall.build_sample_bom λ _ _.
              then_simfqt world p c r SimfqtCall.build_sample_bom
                λ _ _. clone_if_owned-Only owns root

  -- A method that makes one call of AirInv.
  one_airinv_call :
      (x : AirinvCall S)
      → Only P E Q Any (
          initialised_context svc >>= λ c.
          lift (get_airinv_service c) >>= λ h. ask world (airinv h x))
  one_airinv_call x =
      through_airinv world p λ h allowed. Only-ask world (airinv h x) p.raise (allowed x)

  one_stdair_call :
      (x : StdairCall S)
      → is_building x ≡ false
      → Only P E Q Any (
          initialised_context svc >>= λ c.
          lift (get_stdair_service c) >>= λ h. ask world (stdair h x))
  one_stdair_call x b = through_stdair world p λ h allowed. ask_stdair h x (allowed x b)

  csv_display-Only : Only P E Q Any (Display.csv_display world svc)
  unfolding Display.csv_display
  csv_display-Only = through_stdair world p λ h allowed.
      Only-call world (stdair h StdairCall.get_bom_root) p.raise (allowed _ refl)
        λ root. ask_stdair h (StdairCall.csv_display_root root) (allowed _ refl)

  -- Every public method keeps to the policy.
  pub perform-Only : (op : Operation S) → Accepts E op → Only P E Q Any (perform world svc op)
  unfolding perform Bom.build_sample_travel_solutions Bom.build_sample_booking_request
      Booking.sell_segment Booking.sell Booking.play_cancellation Booking.calculate_availability
      Booking.calculate_segment_path_list Booking.fare_quote Booking.init_snapshot_and_rm_events
      Booking.take_snapshots Booking.optimise Display.json_handler Display.csv_display_solutions
      Display.csv_display_flight Display.list_flights
  perform-Only (Operation.parse_and_load f) a = parse_and_load-Only f
  perform-Only Operation.build_sample_bom a = build_sample_bom-Only
  perform-Only Operation.clone_persistent_bom a = clone_persistent_bom-Only
  perform-Only (Operation.build_sample_travel_solutions ts) a =
      one_stdair_call (StdairCall.build_sample_travel_solutions ts) refl
  perform-Only (Operation.build_sample_booking_request crs) a =
      one_stdair_call (StdairCall.build_sample_booking_request crs) refl
  perform-Only (Operation.init_snapshot_and_rm_events from to) a =
      one_airinv_call (AirinvCall.init_snapshot_and_rm_events from to)
  perform-Only (Operation.calculate_segment_path_list q) a = through_airtsp world p λ h allowed.
      Only-ask world (airtsp h (AirtspCall.build_segment_path_list [] q)) p.raise (allowed _)
  perform-Only (Operation.fare_quote q ts) a =
      through_simfqt world p
        λ h allowed. Only-ask world (simfqt h (SimfqtCall.quote_prices q ts)) p.raise (allowed _)
  perform-Only (Operation.calculate_availability ts) a =
      through_airinv world p λ h allowed. calculate_availability-Only world h p.raise allowed ts
  perform-Only (Operation.sell t n) a =
      through_airinv world p λ h allowed. sell-Only world h p.raise allowed t n a
  perform-Only (Operation.sell_segment key code n) a =
      one_airinv_call (AirinvCall.sell_segment key code n)
  perform-Only (Operation.play_cancellation c) a =
      through_airinv world p λ h allowed. play_cancellation-Only world h p.raise allowed c
  perform-Only (Operation.take_snapshots t) a = one_airinv_call (AirinvCall.take_snapshots t)
  perform-Only (Operation.optimise e) a = one_airinv_call (AirinvCall.optimise e)
  perform-Only (Operation.json_handler j) a = one_airinv_call (AirinvCall.json_handler j)
  perform-Only Operation.csv_display a = csv_display-Only
  perform-Only (Operation.csv_display_solutions ts) a =
      one_stdair_call (StdairCall.csv_display_solutions ts) refl
  perform-Only (Operation.csv_display_flight l n d) a =
      one_airinv_call (AirinvCall.csv_display l n d)
  perform-Only (Operation.list_flights l n) a = one_airinv_call (AirinvCall.list_flights l n)
