-- ===== src/Distribution.antt =====
-- simcrs/command/DistributionManager.cpp: availability, sales and cancellations, leg by leg, through
-- the AirInv service.
pub mod Plan
pub mod Confined
pub mod Sales
pub mod Cancellations
pub mod Bounds
pub mod Exact
pub mod Reference
use text.Mathlib.Text.{◌==◌ as str_eq}
use simcrs.Base.{ℕ, String, Bool, false, Option, none, some, List, [], ◌∷◌, if◌then◌else◌}
use simcrs.Stdair.{Stdair}
use simcrs.Calls.{Handle, World, airinv, AirinvCall}
use simcrs.Exec.{Result, ok, err, assertion_failed, undefined_behaviour, Exec, pure, lift, ◌>>=◌}
use simcrs.Program.{Program, ask}

-- `assert (list.size() > 0)`, then `list.at(0)` written to a stream. Class codes are ASCII letters,
-- so the first byte is the first character.
unfoldable pub first_class : String → Result String
first_class String.[] = err assertion_failed
first_class (String.◌∷◌ c _) = ok (String.◌∷◌ c "")

-- `find` on a `std::map` from class codes, listed by its entries.
unfoldable pub find : {A : Type 0} → String → List (String × A) → Option A
find key [] = none
find key ((k, v) ∷ entries) = if str_eq key k then some v else find key entries

-- `assert (it != map.end())`, then `it->second`.
abbrev pub found : {A : Type 0} → Option A → Result A
found none = err assertion_failed
found (some v) = ok v

module _ {S : Stdair} (world : World S) (airinv_service : Handle) where
  -- `DistributionManager::calculateAvailability`; the list as the loop leaves it
  unfoldable pub calculate_availability :
      List S.TravelSolution → Exec (Program S) (List S.TravelSolution)
  calculate_availability [] = pure []
  calculate_availability (t ∷ ts) = do
    t' ← ask world (airinv airinv_service (AirinvCall.calculate_availability t))
    ts' ← calculate_availability ts
    pure (t' ∷ ts')

  module _ (party_size : ℕ) where
    -- The first loop of `sell`: one class map for each leg, and the class path beside it. To read
    -- past the end of the class path is undefined.
    unfoldable pub sell_classes :
        Bool → List (List (String × S.BookingClassId)) → List String → Exec (Program S) Bool
    unfolding first_class find
    sell_classes sold [] path = pure sold
    sell_classes sold (ids ∷ holder) [] = lift (err undefined_behaviour)
    sell_classes sold (ids ∷ holder) (classes ∷ path) = do
      code ← lift (first_class classes)
      id ← lift (found (find code ids))
      sold' ← ask world (airinv airinv_service (AirinvCall.sell_class id party_size))
      sell_classes sold' holder path

    -- The second loop of `sell`: one segment-date key for each leg.
    unfoldable pub sell_segments : Bool → List String → List String → Exec (Program S) Bool
    unfolding first_class
    sell_segments sold [] path = pure sold
    sell_segments sold (key ∷ keys) [] = lift (err undefined_behaviour)
    sell_segments sold (key ∷ keys) (classes ∷ path) = do
      code ← lift (first_class classes)
      sold' ← ask world (airinv airinv_service (AirinvCall.sell_segment key code party_size))
      sell_segments sold' keys path

    -- The loop of `playCancellation`.
    unfoldable pub cancel_classes : Bool → List S.BookingClassId → Exec (Program S) Bool
    cancel_classes cancelled [] = pure cancelled
    cancel_classes cancelled (id ∷ ids) = do
      cancelled' ← ask world (airinv airinv_service (AirinvCall.cancel id party_size))
      cancel_classes cancelled' ids

    -- The two branches of `sell`, on whether the solution has class maps.
    unfoldable pub sell_legs :
        List (List (String × S.BookingClassId)) → List String → List String → Exec (Program S) Bool
    unfolding sell_classes sell_segments
    sell_legs [] keys path = sell_segments false keys path
    sell_legs (ids ∷ holder) keys path = sell_classes false (ids ∷ holder) path

  -- `DistributionManager::sell`
  unfoldable pub sell : S.TravelSolution → ℕ → Exec (Program S) Bool
  unfolding sell_legs
  sell t party_size =
      sell_legs party_size (S.get_class_object_id_map_holder t) (S.get_segment_path t)
        (S.get_class_path (S.get_chosen_fare_option t))

  -- `DistributionManager::playCancellation`
  unfoldable pub play_cancellation : S.Cancellation → Exec (Program S) Bool
  unfolding cancel_classes
  play_cancellation c = cancel_classes (S.get_party_size c) false (S.get_class_id_list c)
