-- ===== src/Batch/Safety.antt =====
-- The batch program on a service that it made.
use simcrs.Base.{String, Bool, true, false, List, [], ◌∷◌, ◌≡◌, refl, ◌⊎◌, inl, inr, ℤ, pos, negsuc}
use simcrs.Stdair.{Stdair}
use simcrs.Calls.{Call, World}
use simcrs.Exec.{Fault, assertion_failed, undefined_behaviour, ok, lift, ◌>>=◌}
use simcrs.Context.{Context}
use simcrs.Memory.{Memory}
use simcrs.Program.Only.{Only, Ends, Any, Only-lift, Only-pure, Only-bind}
use simcrs.Distribution.Plan.{Sale, Plans}
use simcrs.Service.{Service}
use simcrs.Service.Operation.{Operation, perform}
use simcrs.Service.Policy.{Policy, Accepts}
use simcrs.Distribution.Confined.{Tolerates}
use simcrs.Service.Confined.{perform-Only}
use simcrs.Batch.Configuration.{Settings}
use simcrs.Batch.Run.{front, load, sell_first_fare, book, serve}

-- The first fare option, if there is one, names a class for each leg of a travel solution with a
-- segment.
abbrev pub IsSellable : (S : Stdair) (t : S.TravelSolution) → List S.FareOption → Type 0
IsSellable S t [] = Unit {0}
IsSellable S t (f ∷ fs) =
    ((key : String) × (keys : List String) × (S.get_segment_path (S.set_chosen_fare_option t f)
        ≡ key ∷ keys))
    × (xs : List (Sale S)) × Plans (S.set_chosen_fare_option t f) xs

-- The first of the solutions that SimFQT has priced is there and can be sold.
abbrev pub IsPriced : (S : Stdair) → List S.TravelSolution → Type 0
IsPriced S [] = ⊥
IsPriced S (t ∷ ts) = IsSellable S t (S.get_fare_option_list t)

-- The program's two exit statuses.
abbrev pub IsExit : ℤ → Type 0
IsExit z = (z ≡ pos 0) ⊎ (z ≡ negsuc 0)

module _ {S : Stdair} {P : Call S → Type 0} {E : Fault → Type 0} {Q : Memory → Type 0}
    {R : Context → Type 0} (world : World S) {svc : Service} (p : Policy world svc P E Q R) where
  pub load-Only : (b : Bool) (x : Settings) → Only P E Q Any (load world svc b x)
  unfolding load perform
  load-Only true x = perform-Only world p Operation.build_sample_bom tt
  load-Only false x = perform-Only world p (Operation.parse_and_load _) tt

  front-Ends : {A : Type 0} (xs : List A) → E undefined_behaviour → Ends E Any (front xs)
  front-Ends [] undefined = undefined
  front-Ends (x ∷ xs) undefined = tt

  -- A solution with a first fare option of which nothing is known may fault.
  sell_first_fare-Only :
      (t : S.TravelSolution) (fs : List S.FareOption)
      → Tolerates E (IsSellable S t fs)
      → Only P E Q IsExit (sell_first_fare world svc t fs)
  unfolding sell_first_fare perform
  sell_first_fare-Only t [] h = Only-pure (negsuc 0) (inr refl)
  sell_first_fare-Only t (f ∷ fs) h = Only-bind {R = Any} (Only-lift _ (segment h)) λ key _.
      Only-bind (perform-Only world p (Operation.sell (S.set_chosen_fare_option t f) 3) (classes h))
        λ sold _.
          Only-bind (perform-Only world p Operation.csv_display tt)
            λ dump _. Only-pure (pos 0) (inl refl)
    where
      segment :
          Tolerates E (IsSellable S t (f ∷ fs))
          → Ends E Any (front (S.get_segment_path (S.set_chosen_fare_option t f)))
      segment (inl (failed, undefined)) = front-Ends _ undefined
      segment (inr (path, xs, plan)) = rw path.2 tt

      classes :
          Tolerates E (IsSellable S t (f ∷ fs))
          → Accepts {S = S} E (Operation.sell (S.set_chosen_fare_option t f) 3)
      classes (inl faults) = inl faults
      classes (inr (path, xs, plan)) = inr (xs, plan)

  pub book_priced-Only :
      (us : List S.TravelSolution)
      → Tolerates E (IsPriced S us)
      → Only P E Q IsExit
          (lift (front us) >>= λ t. sell_first_fare world svc t (S.get_fare_option_list t))
  book_priced-Only us (inl (failed, undefined)) =
      Only-bind {R = Any} (Only-lift (front us) (front-Ends us undefined))
        λ u _. sell_first_fare-Only u _ (inl (failed, undefined))
  book_priced-Only [] (inr h) = absurd h
  book_priced-Only (t ∷ ts) (inr h) =
      Only-bind {R = λ u. IsSellable S u (S.get_fare_option_list u)} (Only-lift (ok t) h)
        λ u k. sell_first_fare-Only u _ (inr k)

  module _ (failed : E assertion_failed) (undefined : E undefined_behaviour) where
    book-Only :
        (r : S.BookingRequest) (ts : List S.TravelSolution)
        → Only P E Q IsExit (book world svc r ts)
    unfolding book perform
    book-Only r [] = Only-pure (negsuc 0) (inr refl)
    book-Only r (t ∷ ts) =
        Only-bind (perform-Only world p (Operation.fare_quote r (t ∷ ts)) tt)
          λ us _. book_priced-Only us (inl (failed, undefined))

    pub serve-Only : (b : Bool) (x : Settings) → Only P E Q IsExit (serve world svc b x)
    unfolding serve perform
    serve-Only b x = Only-bind (load-Only b x) λ _ _.
        Only-bind (perform-Only world p (Operation.build_sample_booking_request true) tt) λ r _.
          Only-bind (perform-Only world p (Operation.calculate_segment_path_list r) tt)
            λ ts _. book-Only r ts
