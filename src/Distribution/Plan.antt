-- ===== src/Distribution/Plan.antt =====
-- What `DistributionManager::sell` should sell, described without the loops: one sale for each leg,
-- in the first class of that leg's class list.
use simcrs.Base.{ℕ, String, List, [], ◌∷◌, ◌≡◌, some}
use simcrs.Stdair.{Stdair}
use simcrs.Calls.{Handle, Call, airinv, AirinvCall}
use simcrs.Exec.{ok}
use simcrs.Distribution.{first_class, find}

-- A leg sold by the identity of its booking class, or by its segment-date key and a class code.
pub data Sale (S : Stdair) : Type 0 where
  by_class : S.BookingClassId → Sale S
  by_segment : (segment_date_key class_code : String) → Sale S

-- The call that a sale makes.
abbrev pub order : {S : Stdair} → Handle → ℕ → Sale S → Call S
order inv n (by_class id) = airinv inv (AirinvCall.sell_class id n)
order inv n (by_segment key code) = airinv inv (AirinvCall.sell_segment key code n)

-- Each class map has, under the first class of its leg, the class that is sold.
pub data ClassSales {S : Stdair}
    : List (List (String × S.BookingClassId)) → List String → List (Sale S) → Type 0 where
  done : {path : List String} → ClassSales [] path []
  leg :
      {ids : List (String × S.BookingClassId)} {classes code : String} {id : S.BookingClassId}
      {holder : List (List (String × S.BookingClassId))} {path : List String} {xs : List (Sale S)}
      → first_class classes ≡ ok code
      → find code ids ≡ some id
      → ClassSales holder path xs
      → ClassSales (ids ∷ holder) (classes ∷ path) (by_class id ∷ xs)

-- Each segment-date key has a class list beside it.
pub data SegmentSales {S : Stdair} : List String → List String → List (Sale S) → Type 0 where
  done : {path : List String} → SegmentSales [] path []
  leg :
      {key classes code : String} {keys path : List String} {xs : List (Sale S)}
      → first_class classes ≡ ok code
      → SegmentSales keys path xs
      → SegmentSales (key ∷ keys) (classes ∷ path) (by_segment key code ∷ xs)

-- The class maps count where there are any.
abbrev pub LegSales :
    {S : Stdair}
    → List (List (String × S.BookingClassId))
    → List String
    → List String
    → List (Sale S)
    → Type 0
LegSales {S} [] keys path xs = SegmentSales {S = S} keys path xs
LegSales {S} (ids ∷ holder) keys path xs = ClassSales (ids ∷ holder) path xs

-- The travel solution, with its chosen fare option, says to sell `xs`.
abbrev pub Plans : {S : Stdair} → S.TravelSolution → List (Sale S) → Type 0
Plans {S} t xs =
    LegSales (S.get_class_object_id_map_holder t) (S.get_segment_path t)
      (S.get_class_path (S.get_chosen_fare_option t)) xs
