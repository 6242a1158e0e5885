-- ===== src/Distribution/Confined.antt =====
-- The loops of DistributionManager under a policy on their calls and faults.
use mathlib.Core.Path.{fun_ext}
use simcrs.Base.{
  subst, sym, ℕ, String, Bool, false, Option, none, List, [], ◌∷◌, some, ◌⊎◌, inl, inr,
}
use simcrs.Stdair.{Stdair}
use simcrs.Calls.{Handle, Call, World, airinv, AirinvCall}
use simcrs.Exec.{Fault, assertion_failed, undefined_behaviour, Result, ok, err}
use simcrs.Memory.{Memory}
use simcrs.Program.Only.{
  Only, Raises, Ends, Any, Only-lift, Only-pure, Only-ask, Only-call, Only-bind,
}
use simcrs.Distribution.{
  first_class, find, calculate_availability, cancel_classes, sell, play_cancellation,
}
use simcrs.Distribution.Reference.{
  Leg, mapped, keyed, Planned, sale_of, sale_in, put_first, plan_legs, plan_of, Plans-plan_of,
  place, place_all, close, carry_out, sell-planned,
}
use simcrs.Distribution.Plan.{Sale, by_class, by_segment, Plans}

-- A malformed solution may fault, or the solution is well-formed.
abbrev pub Tolerates : (Fault → Type 0) → Type 0 → Type 0
Tolerates E W = (E assertion_failed × E undefined_behaviour) ⊎ W

-- The fault of a travel solution that does not read well is one of `E`.
abbrev Reads : (Fault → Type 0) → Option Fault → Type 0
Reads E none = Unit {0}
Reads E (some e) = E e

module _ (S : Stdair) (E : Fault → Type 0) (failed : E assertion_failed)
    (undefined : E undefined_behaviour) where
  sale_of-Ends : (o : Option S.BookingClassId) → Ends E Any (sale_of {S = S} o)
  sale_of-Ends none = failed
  sale_of-Ends (some id) = tt

  sale_in-Ends : (l : Leg S) (classes : String) → Ends E Any (sale_in l (first_class classes))
  unfolding first_class
  sale_in-Ends (mapped ids) String.[] = failed
  sale_in-Ends (mapped ids) (String.◌∷◌ c cs) = sale_of-Ends (find _ ids)
  sale_in-Ends (keyed key) String.[] = failed
  sale_in-Ends (keyed key) (String.◌∷◌ c cs) = tt

  put_first-Reads :
      (r : Result (Sale S)) (p : Planned S) → Ends E Any r → Reads E p.1 → Reads E (put_first r p).1
  put_first-Reads (ok x) p e h = h
  put_first-Reads (err f) p e h = e

  plan_legs-Reads : (ls : List (Leg S)) (path : List String) → Reads E (plan_legs ls path).1
  plan_legs-Reads [] path = tt
  plan_legs-Reads (l ∷ ls) [] = undefined
  plan_legs-Reads (l ∷ ls) (classes ∷ path) =
      put_first-Reads _ _ (sale_in-Ends l classes) (plan_legs-Reads ls path)

-- Malformed solutions are tolerated, or there is a class for each leg.
plan_of-Reads :
    (S : Stdair) (E : Fault → Type 0) (t : S.TravelSolution)
    → Tolerates E ((xs : List (Sale S)) × Plans t xs)
    → Reads E (plan_of {S = S} t).1
plan_of-Reads S E t (inl (failed, undefined)) = plan_legs-Reads S E failed undefined _ _
plan_of-Reads S E t (inr (xs, plan)) = rw (Plans-plan_of {S = S} t plan) tt

module _ {S : Stdair} {P : Call S → Type 0} {E : Fault → Type 0} {Q : Memory → Type 0}
    (world : World S) (inv : Handle) (raise : Raises world E)
    (allowed : (c : AirinvCall S) → P (airinv inv c)) where
  pub calculate_availability-Only :
      (ts : List S.TravelSolution) → Only P E Q Any (calculate_availability world inv ts)
  unfolding calculate_availability
  calculate_availability-Only [] = Only-pure [] tt
  calculate_availability-Only (t ∷ ts) =
      Only-call world _ raise (allowed (AirinvCall.calculate_availability t))
        λ t'. Only-bind (calculate_availability-Only ts) λ ts' _. Only-pure (t' ∷ ts') tt

  module _ (n : ℕ) where
    cancel_classes-Only :
        (b : Bool) (ids : List S.BookingClassId) → Only P E Q Any (cancel_classes world inv n b ids)
    unfolding cancel_classes
    cancel_classes-Only b [] = Only-pure b tt
    cancel_classes-Only b (id ∷ ids) =
        Only-call world _ raise (allowed (AirinvCall.cancel id n)) λ b'. cancel_classes-Only b' ids

    place-Only : (x : Sale S) → Only P E Q Any (place world inv n x)
    place-Only (by_class id) =
        Only-ask world (airinv inv (AirinvCall.sell_class id n)) raise
          (allowed (AirinvCall.sell_class id n))
    place-Only (by_segment key code) =
        Only-ask world (airinv inv (AirinvCall.sell_segment key code n)) raise
          (allowed (AirinvCall.sell_segment key code n))

    place_all-Only : (b : Bool) (xs : List (Sale S)) → Only P E Q Any (place_all world inv n b xs)
    unfolding place_all
    place_all-Only b [] = Only-pure b tt
    place_all-Only b (x ∷ xs) = Only-bind (place-Only x) λ b' _. place_all-Only b' xs

    close-Only : (e : Option Fault) (b : Bool) → Reads E e → Only P E Q Any (close world inv n e b)
    close-Only none b r = Only-pure b tt
    close-Only (some e) b r = Only-lift (err e) r

    carry_out-Only :
        (b : Bool) (p : Planned S) → Reads E p.1 → Only P E Q Any (carry_out world inv n b p)
    unfolding carry_out
    carry_out-Only b p r = Only-bind (place_all-Only b p.0) λ b' _. close-Only p.1 b' r

  pub sell-Only :
      (t : S.TravelSolution) (n : ℕ)
      → Tolerates E ((xs : List (Sale S)) × Plans t xs)
      → Only P E Q Any (sell world inv t n)
  sell-Only t n h =
      subst (Only P E Q Any) (sym (fun_ext (sell-planned world inv n t)))
        (carry_out-Only n false (plan_of t) (plan_of-Reads S E t h))

  pub play_cancellation-Only : (c : S.Cancellation) → Only P E Q Any (play_cancellation world inv c)
  unfolding play_cancellation
  play_cancellation-Only c = cancel_classes-Only (S.get_party_size c) false (S.get_class_id_list c)
