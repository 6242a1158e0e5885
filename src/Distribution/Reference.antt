-- ===== src/Distribution/Reference.antt =====
-- A reference for `DistributionManager::sell`: first the whole travel solution is read, and then the
-- sales are made. The code reads and sells leg by leg, in two loops.
use simcrs.Base.{
  ℕ, String, Bool, false, Option, none, some, List, [], ◌∷◌, ◌++◌, map, ◌≡◌, refl, inl, inr,
  Option-cases,
}
use simcrs.Stdair.{Stdair}
use simcrs.Calls.{Handle, World, airinv, AirinvCall, Answer-cases}
use simcrs.Exec.{
  Result-cases, Fault, assertion_failed, undefined_behaviour, Result, ok, err, Exec, pure, lift,
  ◌>>=◌,
}
use simcrs.Program.{Program, ask}
use simcrs.Distribution.{first_class, find, sell_classes, sell_segments, sell_legs, sell}
use simcrs.Distribution.Plan.{
  Sale, by_class, by_segment, ClassSales, SegmentSales, LegSales, Plans, done, leg,
}

-- A leg, by the class map that goes with it or by its segment-date key.
pub data Leg (S : Stdair) : Type 0 where
  mapped : List (String × S.BookingClassId) → Leg S
  keyed : String → Leg S

-- The sales to make, and the fault with which reading the solution ends, if it does.
abbrev pub Planned : Stdair → Type 0
Planned S = List (Sale S) × Option Fault

module _ {S : Stdair} where
  -- The class maps count where there are any.
  abbrev pub legs_beside : List (List (String × S.BookingClassId)) → List String → List (Leg S)
  legs_beside [] keys = map keyed keys
  legs_beside (ids ∷ holder) keys = map mapped (ids ∷ holder)

  abbrev pub legs_of : S.TravelSolution → List (Leg S)
  legs_of t = legs_beside (S.get_class_object_id_map_holder t) (S.get_segment_path t)

  -- A class that is not in its map fails an assertion.
  abbrev pub sale_of : Option S.BookingClassId → Result (Sale S)
  sale_of none = err assertion_failed
  sale_of (some id) = ok (by_class id)

  -- The sale of a leg in the first of the classes.
  abbrev pub sale_in : Leg S → Result String → Result (Sale S)
  sale_in (mapped ids) (ok code) = sale_of (find code ids)
  sale_in (keyed key) (ok code) = ok (by_segment key code)
  sale_in l (err e) = err e

  abbrev pub put_first : Result (Sale S) → Planned S → Planned S
  put_first (ok x) p = (x ∷ p.0, p.1)
  put_first (err e) p = ([], some e)

  -- Each leg has a class list beside it; lists that are left over are not read.
  abbrev pub plan_legs : List (Leg S) → List String → Planned S
  plan_legs [] path = ([], none)
  plan_legs (l ∷ ls) [] = ([], some undefined_behaviour)
  plan_legs (l ∷ ls) (classes ∷ path) =
      put_first (sale_in l (first_class classes)) (plan_legs ls path)

  -- A solution that plans its sales reads well.
  ClassSales-plan :
      {holder : List (List (String × S.BookingClassId))} {path : List String} {xs : List (Sale S)}
      → ClassSales holder path xs
      → plan_legs (map mapped holder) path ≡ (xs, none)
  ClassSales-plan done = refl
  ClassSales-plan (leg e f rest) = rw (e, f, ClassSales-plan rest) refl

  SegmentSales-plan :
      {keys path : List String} {xs : List (Sale S)}
      → SegmentSales keys path xs
      → plan_legs (map keyed keys) path ≡ (xs, none)
  SegmentSales-plan done = refl
  SegmentSales-plan (leg e rest) = rw (e, SegmentSales-plan rest) refl

  LegSales-plan :
      (holder : List (List (String × S.BookingClassId))) (keys path : List String)
      {xs : List (Sale S)}
      → LegSales holder keys path xs
      → plan_legs (legs_beside holder keys) path ≡ (xs, none)
  LegSales-plan [] keys path plan = SegmentSales-plan plan
  LegSales-plan (ids ∷ holder) keys path plan = ClassSales-plan plan

  -- What a travel solution, with its chosen fare option, comes to.
  abbrev pub plan_of : S.TravelSolution → Planned S
  plan_of t = plan_legs (legs_of t) (S.get_class_path (S.get_chosen_fare_option t))

  pub Plans-plan_of :
      (t : S.TravelSolution) {xs : List (Sale S)} → Plans t xs → plan_of t ≡ (xs, none)
  Plans-plan_of t plan = LegSales-plan _ _ _ plan

  module _ (world : World S) (inv : Handle) (n : ℕ) where
    abbrev pub place : Sale S → Exec (Program S) Bool
    place (by_class id) = ask world (airinv inv (AirinvCall.sell_class id n))
    place (by_segment key code) = ask world (airinv inv (AirinvCall.sell_segment key code n))

    -- The sales in a row, up to an exception; the last answer.
    unfoldable pub place_all : Bool → List (Sale S) → Exec (Program S) Bool
    unfolding ask
    place_all b [] = pure b
    place_all b (x ∷ xs) = do b' ← place x; place_all b' xs

    abbrev pub close : Option Fault → Bool → Exec (Program S) Bool
    close none b = pure b
    close (some e) b = lift (err e)

    unfoldable pub carry_out : Bool → Planned S → Exec (Program S) Bool
    unfolding place_all
    carry_out b p = place_all b p.0 >>= close p.1

    sell_classes-planned :
        (b : Bool) (holder : List (List (String × S.BookingClassId))) (path : List String)
        (s : Program S)
        → sell_classes world inv n b holder path s
          ≡ carry_out b (plan_legs (map mapped holder) path) s
    unfolding sell_classes carry_out place_all ask pure lift ◌>>=◌
    sell_classes-planned b [] path s = refl
    sell_classes-planned b (ids ∷ holder) [] s = refl
    sell_classes-planned b (ids ∷ holder) (classes ∷ path) s =
        elim (Result-cases (first_class classes)) [
          | inr (e, f) ↦ rw f refl
          | inl (code, f) ↦ elim (Option-cases (find code ids)) [
            | inl g ↦ rw (f, g) refl
            | inr (id, g) ↦
                elim (Answer-cases (world s.history (airinv inv (AirinvCall.sell_class id n)))) [
                  | inl (b', h) ↦
                      rw (f, g, h)
                        (sell_classes-planned b' holder path (record s {
                          history = s.history ++ airinv inv (AirinvCall.sell_class id n) ∷ [];
                        }))
                  | inr (what, h) ↦ rw (f, g, h) refl
                ]
          ]
        ]

    sell_segments-planned :
        (b : Bool) (keys path : List String) (s : Program S)
        → sell_segments world inv n b keys path s ≡ carry_out b (plan_legs (map keyed keys) path) s
    unfolding sell_segments carry_out place_all ask pure lift ◌>>=◌
    sell_segments-planned b [] path s = refl
    sell_segments-planned b (key ∷ keys) [] s = refl
    sell_segments-planned b (key ∷ keys) (classes ∷ path) s =
        elim (Result-cases (first_class classes)) [
          | inr (e, f) ↦ rw f refl
          | inl (code, f) ↦
              elim (Answer-cases
                (world s.history (airinv inv (AirinvCall.sell_segment key code n)))) [
                  | inl (b', h) ↦
                      rw (f, h)
                        (sell_segments-planned b' keys path (record s {
                          history =
                              s.history ++ airinv inv (AirinvCall.sell_segment key code n) ∷ [];
                        }))
                  | inr (what, h) ↦ rw (f, h) refl
                ]
        ]

    sell_legs-planned :
        (holder : List (List (String × S.BookingClassId))) (keys path : List String) (s : Program S)
        → sell_legs world inv n holder keys path s
          ≡ carry_out false (plan_legs (legs_beside holder keys) path) s
    unfolding sell_legs
    sell_legs-planned [] keys path s = sell_segments-planned false keys path s
    sell_legs-planned (ids ∷ holder) keys path s = sell_classes-planned false (ids ∷ holder) path s

    -- On any travel solution and any answers, `sell` does what the reference does: it asks for
    -- the sale of each leg, in order, up to the first leg on which AirInv raises an exception,
    -- or that has no class list beside it, an empty one, or no class of its map. At the end it
    -- returns the last answer, and else it ends with the exception, the failed assertion or the
    -- undefined behaviour, with the legs before that sold.
    pub sell-planned :
        (t : S.TravelSolution) (s : Program S)
        → sell world inv t n s ≡ carry_out false (plan_of t) s
    unfolding sell
    sell-planned t s = sell_legs-planned _ _ _ s
