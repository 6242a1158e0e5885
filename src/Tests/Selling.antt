-- ===== src/Tests/Selling.antt =====
-- Sales, cancellations and availability over the small inventory.
use simcrs.Base.{Option, String, Bool, map, last_or, true, false, List, [], ◌∷◌, ◌≡◌, ◌↔◌, refl}
use simcrs.Exec.{ok, err, thrown, undefined_behaviour, ◌>>=◌}
use simcrs.Calls.{airinv, AirinvCall}
use simcrs.Distribution.Reference.{legs_of, plan_legs, carry_out, sell-planned}
use simcrs.Distribution.Exact.{IsMade, sell-exact}
use simcrs.Distribution.{first_class, find, sell, play_cancellation, calculate_availability}
use simcrs.Program.{ask}
use simcrs.Program.Rounds.{ends, asked}
use simcrs.Distribution.Plan.{Sale, by_class, Plans, done, leg}
use simcrs.Distribution.Sales.{sell-Sold, sell-Refused, after}
use simcrs.Distribution.Cancellations.{
  play_cancellation-cancels, calculate_availability-answers, cancellation, query, Cancelled,
  Available,
}
use simcrs.Service.Booking
use simcrs.Service.Placement.{at_address}
use simcrs.Service.Equivalence.{sell-sell_segment}
use simcrs.Distribution.Bounds.{AtMost, sell-AtMost}
use simcrs.Tests.{Solution, Request, sample, answers, start}

-- Two legs, of which the second has no seats, and three, of which the second is broken.
abbrev pub half_full : Solution
half_full = record {
  class_maps = (("Y", 1) ∷ []) ∷ (("K", 3) ∷ ("Y", 2) ∷ []) ∷ [];
  segments = [];
  fares = [];
  chosen = "YK" ∷ "Y" ∷ [];
}

abbrev pub broken : Solution
broken = record {
  class_maps = (("Y", 1) ∷ []) ∷ (("Y", 9) ∷ []) ∷ (("Y", 1) ∷ []) ∷ [];
  segments = [];
  fares = [];
  chosen = "Y" ∷ "Y" ∷ "Y" ∷ [];
}

abbrev pub half_full_sales : List (Sale sample)
half_full_sales = by_class 1 ∷ by_class 2 ∷ []

abbrev pub broken_sales : List (Sale sample)
broken_sales = by_class 1 ∷ by_class 9 ∷ by_class 1 ∷ []

pub half_full-Plans : Plans {S = sample} half_full half_full_sales
unfolding first_class find
half_full-Plans = leg refl refl (leg refl refl done)

pub broken-Plans : Plans {S = sample} broken broken_sales
unfolding first_class find
broken-Plans = leg refl refl (leg refl refl (leg refl refl done))

-- The first leg stays sold, and the answer is that of the second.
sell-Sold_example :
    sell answers 5 half_full 2 start ≡ (ok false, after answers 5 2 start half_full_sales)
sell-Sold_example =
    sell-Sold answers 5 2 half_full half_full_sales (true ∷ false ∷ []) start half_full-Plans
      (refl, (refl, tt))

sell-Refused_example :
    sell answers 5 broken 2 start
    ≡ (err (thrown "inventory"), after answers 5 2 start (by_class 1 ∷ by_class 9 ∷ []))
sell-Refused_example =
    sell-Refused answers 5 2 broken broken_sales (true ∷ []) start "inventory" broken-Plans
      (refl, refl)

sell-exact_example :
    (sell answers 5 half_full 2 start ≡ (ok false, after answers 5 2 start half_full_sales)) ↔ (
      (xs : List (Sale sample)) × Plans {S = sample} half_full xs
      × IsMade answers 5 2 xs start false (after answers 5 2 start half_full_sales))
sell-exact_example =
    sell-exact answers 5 2 half_full start false (after answers 5 2 start half_full_sales)

-- Two segments and one class list: the second leg has none, and the first is sold.
abbrev short_path : Solution
short_path = record {
  class_maps = [];
  segments = "SV,5,2010-03-11" ∷ "SV,6,2010-03-12" ∷ [];
  fares = [];
  chosen = "Y" ∷ [];
}

sell-planned_example :
    sell answers 5 short_path 2 start
    ≡ carry_out answers 5 2 false (plan_legs (legs_of {S = sample} short_path) ("Y" ∷ [])) start
sell-planned_example = sell-planned answers 5 2 short_path start

short_path-sold : sell answers 5 short_path 2 start ≡ (
  err undefined_behaviour,
  record start { history = airinv 5 (AirinvCall.sell_segment "SV,5,2010-03-11" "Y" 2) ∷ [] },
)
unfolding sell first_class ask ◌>>=◌
short_path-sold = refl

-- The inventory is broken for the second of three classes.
abbrev broken_refund : Request
broken_refund = record { party_size = 2; classes = 1 ∷ 9 ∷ 1 ∷ [] }

broken_refund-played : play_cancellation answers 5 broken_refund start ≡ (
  err (thrown "inventory"),
  record start { history = cancellation answers 5 2 1 ∷ cancellation answers 5 2 9 ∷ [] },
)
unfolding play_cancellation ask ◌>>=◌
broken_refund-played = refl

play_cancellation-cancels_example :
    (e : Option String) × (bs : List Bool) × Cancelled answers 5 2 e [] (1 ∷ 9 ∷ 1 ∷ []) bs
    × (play_cancellation answers 5 broken_refund start ≡ (
      ends e (last_or false bs),
      record start { history = map (cancellation answers 5 2) (asked e (1 ∷ 9 ∷ 1 ∷ []) bs) },
    ))
play_cancellation-cancels_example = play_cancellation-cancels answers 5 broken_refund start

calculate_availability-answers_example :
    (e : Option String) × (us : List Solution) × Available answers 5 e []
      (half_full ∷ broken ∷ [])
      us
    × (calculate_availability answers 5 (half_full ∷ broken ∷ []) start ≡ (
      ends e us,
      record start { history = map (query answers 5) (asked e (half_full ∷ broken ∷ []) us) },
    ))
calculate_availability-answers_example =
    calculate_availability-answers answers 5 (half_full ∷ broken ∷ []) start

-- It stops at the second of three legs.
sell-AtMost_example : AtMost {S = sample} 5 2 broken start (sell answers 5 broken 2 start).1
sell-AtMost_example = sell-AtMost 5 2 answers broken start

-- One segment and no class map.
abbrev single : Solution
single = record {
  class_maps = [];
  segments = "SV,5,2010-03-11" ∷ [];
  fares = [];
  chosen = "YK" ∷ [];
}

sell-sell_segment_example :
    Booking.sell answers (at_address 2) single 2 start
    ≡ Booking.sell_segment answers (at_address 2) "SV,5,2010-03-11" "Y" 2 start
unfolding first_class
sell-sell_segment_example =
    sell-sell_segment answers single 2 "SV,5,2010-03-11" "YK" "Y" [] (at_address 2) start refl refl
      refl refl
