-- ===== src/Batch/Booked.antt =====
-- A run of the batch program that ends in a sale, call by call.
use simcrs.Base.{
  ◌∙◌, ℕ, String, Bool, true, false, List, [], ◌∷◌, ◌++◌, map, ◌≡◌, ap, arith, append_assoc, pos,
  last_or,
}
use simcrs.Stdair.{Stdair}
use simcrs.Calls.{Call, World, replies, stdair, airtsp, simfqt, StdairCall, AirtspCall, SimfqtCall}
use simcrs.Exec.{ok, from_answer, pure, ◌>>=◌}
use simcrs.Context.{Context, get_stdair_service}
use simcrs.Memory.{at}
use simcrs.Program.{Program, ask}
use simcrs.Program.Attempt.{Answered, called}
use simcrs.Distribution.Plan.{Sale, Plans, order}
use simcrs.Distribution.Sales.{Sold, sell-Sold, after}
use simcrs.Service.{Service, initialised_context}
use simcrs.Service.Bom.{InputFiles, build_sample_booking_request}
use simcrs.Service.Booking.{calculate_segment_path_list, fare_quote, sell}
use simcrs.Service.Display.{csv_display}
use simcrs.Service.Operation.{Operation, perform}
use simcrs.Service.Delegation.{perform-delegated}
use simcrs.Service.Building.{
  Components, Serves, building, loading, parse_and_load-loading, build_sample_bom-building,
}
use simcrs.Batch.Options.{schedule, ond, frat5, ff_disutility, yield, fare}
use simcrs.Batch.Configuration.{Settings}
use simcrs.Batch.Run.{load, sell_first_fare, book, serve}

abbrev input_files : Settings → InputFiles
input_files x = record {
  schedule = x schedule;
  ond = x ond;
  frat5 = x frat5;
  ff_disutility = x ff_disutility;
  yield = x yield;
  fare = x fare;
}

module _ {S : Stdair} (k : Components) where
  abbrev pub loaded : Bool → Settings → List (Call S)
  loaded true x = building k
  loaded false x = loading k (input_files x)

  abbrev pub request_call : Call S
  request_call = stdair k.std (StdairCall.build_sample_booking_request true)

  abbrev pub path_call : S.BookingRequest → Call S
  path_call r = airtsp k.tsp (AirtspCall.build_segment_path_list [] r)

  abbrev pub price_call : S.BookingRequest → List S.TravelSolution → Call S
  price_call r ts = simfqt k.fqt (SimfqtCall.quote_prices r ts)

  abbrev pub root_call : Call S
  root_call = stdair k.std StdairCall.get_bom_root

  abbrev pub display_call : S.BomRoot → Call S
  display_call root = stdair k.std (StdairCall.csv_display_root root)

module _ {S : Stdair} (world : World S) (svc : Service) (c : Context) (k : Components) where
  module _ (s : Program S) (here : at s.memory.contexts svc.context ≡ ok c) (has : Serves c k) where
    pub request-asks :
        build_sample_booking_request world svc true s
        ≡ (from_answer (world s.history (request_call k)), called world s (request_call k ∷ []))
    unfolding perform ask
    request-asks =
        perform-delegated world k svc c (Operation.build_sample_booking_request true) s here has

    pub path-asks :
        (r : S.BookingRequest)
        → calculate_segment_path_list world svc r s
          ≡ (from_answer (world s.history (path_call k r)), called world s (path_call k r ∷ []))
    unfolding perform ask
    path-asks r =
        perform-delegated world k svc c (Operation.calculate_segment_path_list r) s here has

    pub price-asks :
        (r : S.BookingRequest) (ts : List S.TravelSolution)
        → fare_quote world svc r ts s ≡ (
          from_answer (world s.history (price_call k r ts)),
          called world s (price_call k r ts ∷ []),
        )
    unfolding perform ask
    price-asks r ts = perform-delegated world k svc c (Operation.fare_quote r ts) s here has

    sale-asks :
        (t : S.TravelSolution) (n : ℕ) (xs : List (Sale S)) (bs : List Bool)
        → Plans t xs
        → Sold world k.inv n s.history xs bs
        → sell world svc t n s ≡ (ok (last_or false bs), after world k.inv n s xs)
    unfolding perform
    sale-asks t n xs bs plan sold =
        perform-delegated world k svc c (Operation.sell t n) s here has
        ∙ sell-Sold world k.inv n t xs bs s plan sold

    display-asks :
        (root : S.BomRoot) (dump : String)
        → world s.history (root_call k) ≡ replies root
        → world (s.history ++ root_call k ∷ []) (display_call k root) ≡ replies dump
        → csv_display world svc s
          ≡ (ok dump, called world (called world s (root_call k ∷ [])) (display_call k root ∷ []))
    unfolding csv_display initialised_context get_stdair_service ask ◌>>=◌
    display-asks root dump rooted displayed =
        ground (arith, here, has.stdair_there, rooted, displayed)

    pub load-asks :
        (b : Bool) (x : Settings)
        → Answered world s.history (loaded k b x)
        → load world svc b x s ≡ (ok tt, called world s (loaded k b x))
    unfolding load
    load-asks true x v = build_sample_bom-building world svc c k s here has v
    load-asks false x v = parse_and_load-loading world svc c k (input_files x) s here has v

-- The calls after each step, from `h` on.
module _ {S : Stdair} (k : Components) (h : List (Call S)) where
  abbrev pub requested_history : List (Call S)
  requested_history = h ++ request_call k ∷ []

  abbrev pub found_history : S.BookingRequest → List (Call S)
  found_history r = requested_history ++ path_call k r ∷ []

  abbrev pub priced_history : S.BookingRequest → List S.TravelSolution → List (Call S)
  priced_history r ts = found_history r ++ price_call k r ts ∷ []

  abbrev pub sold_history : S.BookingRequest → List S.TravelSolution → List (Sale S) → List (Call S)
  sold_history r ts xs = priced_history r ts ++ map (order k.inv 3) xs

  abbrev pub rooted_history :
      S.BookingRequest → List S.TravelSolution → List (Sale S) → List (Call S)
  rooted_history r ts xs = sold_history r ts xs ++ root_call k ∷ []

-- After the calls `h`, the other components lead the program to a sale: each has a reply, there is a
-- solution before and after pricing, and the first has a segment, a fare option, and a class for each
-- leg. Whether AirInv makes each sale is open.
pub record Leads {S : Stdair} (world : World S) (k : Components) (h : List (Call S)) : Type 0 where
  pub request : S.BookingRequest
  pub solution : S.TravelSolution
  pub solutions : List S.TravelSolution
  pub priced_solution : S.TravelSolution
  pub priced_solutions : List S.TravelSolution
  pub fare_option : S.FareOption
  pub fare_options : List S.FareOption
  pub key : String
  pub keys : List String
  pub sales : List (Sale S)
  pub answers : List Bool
  pub root : S.BomRoot
  pub dump : String
  pub requested : world h (request_call k) ≡ replies request
  pub found : world (requested_history k h) (path_call k request) ≡ replies (solution ∷ solutions)
  pub priced :
      world (found_history k h request) (price_call k request (solution ∷ solutions))
      ≡ replies (priced_solution ∷ priced_solutions)
  pub fared : S.get_fare_option_list priced_solution ≡ fare_option ∷ fare_options
  pub pathed :
      S.get_segment_path (S.set_chosen_fare_option priced_solution fare_option) ≡ key ∷ keys
  pub planned : Plans (S.set_chosen_fare_option priced_solution fare_option) sales
  pub sold : Sold world k.inv 3 (priced_history k h request (solution ∷ solutions)) sales answers
  pub rooted :
      world (sold_history k h request (solution ∷ solutions) sales) (root_call k) ≡ replies root
  pub displayed :
      world (rooted_history k h request (solution ∷ solutions) sales) (display_call k root)
      ≡ replies dump

regroup :
    {A : Type 0} (h : List A) (a b c : A) (ms : List A) (d e : A)
    → (((((h ++ a ∷ []) ++ b ∷ []) ++ c ∷ []) ++ ms) ++ d ∷ []) ++ e ∷ []
      ≡ h ++ (a ∷ b ∷ c ∷ (ms ++ d ∷ e ∷ []))
regroup h a b c ms d e = simp append_assoc

-- The calls from the booking request on.
abbrev pub booking :
    {S : Stdair} {world : World S} {k : Components} {h : List (Call S)}
    → Leads world k h
    → List (Call S)
booking {k} l =
    request_call k
    ∷ path_call k l.request
    ∷ price_call k l.request (l.solution ∷ l.solutions)
    ∷ (map (order k.inv 3) l.sales ++ root_call k ∷ display_call k l.root ∷ [])

module _ {S : Stdair} (world : World S) (svc : Service) (c : Context) (k : Components) (b : Bool)
    (x : Settings) (s : Program S) where
  -- On a service whose context has the components `k`, where each call that loads has a reply and the
  -- other components lead to a sale, the program returns 0. It has loaded, made the sample booking
  -- request, and asked AirTSP for its solutions and SimFQT for prices; then AirInv for a sale of three
  -- seats on each leg of the first priced solution, by its first fare option, whatever it answers; and
  -- last it has displayed the objects. It has made no other call and changed nothing else.
  pub serve-Leads :
      at s.memory.contexts svc.context ≡ ok c
      → Serves c k
      → Answered world s.history (loaded k b x)
      → (l : Leads world k (s.history ++ loaded k b x))
      → serve world svc b x s
        ≡ (ok (pos 0), called world (called world s (loaded k b x)) (booking l))
  unfolding serve book sell_first_fare ◌>>=◌
  serve-Leads here has v l =
      let s₀ = called world s (loaded k b x) in
      let s₁ = called world s₀ (request_call k ∷ []) in
      let s₂ = called world s₁ (path_call k l.request ∷ []) in
      let s₃ = called world s₂ (price_call k l.request (l.solution ∷ l.solutions) ∷ []) in
      let s₄ = after world k.inv 3 s₃ l.sales in
      rw
        (
          load-asks world svc c k s here has b x v,
          request-asks world svc c k s₀ here has,
          l.requested,
          path-asks world svc c k s₁ here has l.request,
          l.found,
          price-asks world svc c k s₂ here has l.request (l.solution ∷ l.solutions),
          l.priced,
          l.fared,
          l.pathed,
          sale-asks world svc c k s₃ here has _ 3 l.sales l.answers l.planned l.sold,
          display-asks world svc c k s₄ here has l.root l.dump l.rooted l.displayed,
        )
        (unfold pure in
          ap (λ h. (ok (pos 0), record s { history = h }))
            (regroup (s.history ++ loaded k b x) _ _ _ (map (order k.inv 3) l.sales) _ _))
