-- ===== src/Service/Finalisation.antt =====
-- The end of a service, and of the factories under it.
use simcrs.Base.{false, ◌==◌, none, some, ◌≡◌, refl, arith}
use simcrs.Stdair.{Stdair}
use simcrs.Calls.{World}
use simcrs.Exec.{undefined_behaviour, ok, err, ◌>>=◌}
use simcrs.Context.{Context, reset}
use simcrs.Memory.{Address}
use simcrs.Factory.Sound.{IsSound}
use simcrs.Program.{Program}
use simcrs.Service.{initialised_context, finalise, destroy}
use simcrs.Service.Bom
use simcrs.Service.Booking
use simcrs.Service.Display
use simcrs.Service.Operation.{Operation, parse_and_load, perform}
use simcrs.Service.Placement.{
  Has, at_address, with_context, with_context-IsSound, asserted_context-Has, change_context-Has,
}

-- A context that holds no component.
pub record IsReleased (c : Context) : Type 0 where
  pub stdair : c.stdair_service ≡ none
  pub sevmgr : c.sevmgr_service ≡ none
  pub airtsp : c.airtsp_service ≡ none
  pub airinv : c.airinv_service ≡ none
  pub simfqt : c.simfqt_service ≡ none

module _ {S : Stdair} (a : Address) where
  pub finalise-Has :
      {s : Program S} {c : Context}
      → Has s a c
      → finalise (at_address a) s ≡ (ok tt, record s { memory = with_context s.memory a (reset c) })
  unfolding finalise ◌>>=◌
  finalise-Has has = ground (arith, asserted_context-Has a has, change_context-Has a reset has)

  -- From factories in order, the destructor of a service with a live context returns. It lets go of
  -- every component and calls none; the context itself stays, with its code and without a component,
  -- each other context is as before, and the factories are in order.
  pub destroy-IsReleased :
      (s : Program S) (c : Context)
      → s.memory.contexts a ≡ some c
      → IsSound s.memory
      → ((destroy (at_address a) s).0 ≡ ok tt)
        × ((d : Context) × ((destroy (at_address a) s).1.memory.contexts a ≡ some d)
            × IsReleased d
            × (d.crs_code ≡ c.crs_code))
        × ((destroy (at_address a) s).1.history ≡ s.history)
        × IsSound (destroy (at_address a) s).1.memory
        × ((b : Address)
            → (b == a) ≡ false
            → (destroy (at_address a) s).1.memory.contexts b ≡ s.memory.contexts b)
  unfolding destroy
  destroy-IsReleased s c e sound =
      rw (finalise-Has {s = s} (record { context = e; sound = sound })) (
        refl,
        (
          reset c,
          ground arith,
          unfold reset in
              record { stdair = refl; sevmgr = refl; airtsp = refl; airinv = refl; simfqt = refl },
          unfold reset in refl,
        ),
        refl,
        with_context-IsSound a (reset c) e sound,
        λ b apart. ground (arith, apart),
      )

  initialised_context-dangling :
      (s : Program S)
      → s.memory.contexts a ≡ none
      → initialised_context (at_address a) s ≡ (err undefined_behaviour, s)
  unfolding initialised_context ◌>>=◌
  initialised_context-dangling s e = rw e refl

module _ {S : Stdair} (world : World S) (a : Address) where
  pub perform-dangling :
      (op : Operation S) (s : Program S)
      → s.memory.contexts a ≡ none
      → perform world (at_address a) op s ≡ (err undefined_behaviour, s)
  unfolding perform ◌>>=◌ Bom.parse_and_load Bom.build_sample_bom Bom.build_sample_travel_solutions
      Bom.build_sample_booking_request Bom.clone_persistent_bom Booking.sell_segment Booking.sell
      Booking.play_cancellation Booking.calculate_availability Booking.calculate_segment_path_list
      Booking.fare_quote Booking.init_snapshot_and_rm_events Booking.take_snapshots Booking.optimise
      Display.json_handler Display.csv_display Display.csv_display_solutions
      Display.csv_display_flight Display.list_flights
  perform-dangling (parse_and_load f) s e = rw e refl
  perform-dangling _ s e = rw e refl
