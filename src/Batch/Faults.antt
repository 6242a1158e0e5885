-- ===== src/Batch/Faults.antt =====
-- The faults of the batch program on a service that it made, and the prices that lead to them.
use simcrs.Base.{String, Bool, true, List, [], ◌∷◌, ◌++◌, ◌≡◌, refl, ◌⊎◌, inl, inr, subst, ℤ}
use simcrs.Stdair.{Stdair}
use simcrs.Calls.{Call, World, Answer, replies, raises}
use simcrs.Exec.{
  Fault, thrown, assertion_failed, undefined_behaviour, non_initialised_service, Result,
  Result-cases, ok, err, Exec, from_answer, pure, ◌>>=◌,
}
use simcrs.Context.{Context}
use simcrs.Memory.{at}
use simcrs.Program.{Program}
use simcrs.Program.Only.{Ends, Any}
use simcrs.Program.Attempt.{Answered, called}
use simcrs.Service.{Service}
use simcrs.Service.Building.{Components, Serves}
use simcrs.Service.Safety.{IsThrown, IsReady, confined}
use simcrs.Service.Bom.{build_sample_booking_request}
use simcrs.Service.Booking.{calculate_segment_path_list, fare_quote}
use simcrs.Batch.Configuration.{Settings}
use simcrs.Batch.Run.{load, book, serve}
use simcrs.Batch.Safety.{IsPriced, IsExit, load-Only, book_priced-Only}
use simcrs.Batch.Booked.{
  loaded, request_call, path_call, price_call, request-asks, path-asks, price-asks, load-asks,
}
use simcrs.Batch.Searched.{load-returned}

-- After the calls `h`, SimFQT prices the solutions so that there is none, or that the first has a fare
-- option but no segment, or no class for a leg.
pub record Misprices {S : Stdair} (world : World S) (k : Components) (h : List (Call S))
    : Type 0 where
  pub request : S.BookingRequest
  pub solution : S.TravelSolution
  pub solutions : List S.TravelSolution
  pub prices : List S.TravelSolution
  pub requested : world h (request_call k) ≡ replies request
  pub found :
      world (h ++ request_call k ∷ []) (path_call k request) ≡ replies (solution ∷ solutions)
  pub priced :
      world
        ((h ++ request_call k ∷ []) ++ path_call k request ∷ [])
        (price_call k request (solution ∷ solutions))
      ≡ replies prices
  pub unsold : ¬ IsPriced S prices

-- An exception of another component, or a fault with a reason.
abbrev pub Faults : Type 0 → Fault → Type 0
Faults M e = IsThrown e ⊎ M

-- A result that faults otherwise only without `P` faults only with what follows from that.
ends-unless :
    {M P : Type 0} (r : Result ℤ)
    → Ends Any IsExit r
    → (P → Ends IsThrown IsExit r)
    → ((¬ P) → M)
    → Ends (Faults M) IsExit r
ends-unless (ok z) i ii mk = i
ends-unless (err (thrown what)) i ii mk = inl tt
ends-unless (err assertion_failed) i ii mk = inr (mk ii)
ends-unless (err undefined_behaviour) i ii mk = inr (mk ii)
ends-unless (err non_initialised_service) i ii mk = inr (mk ii)

pub Ends-because :
    (M N : Type 0) (r : Result ℤ) → (M → N) → Ends (Faults M) IsExit r → Ends (Faults N) IsExit r
Ends-because M N (ok z) f h = h
Ends-because M N (err e) f (inl t) = inl t
Ends-because M N (err e) f (inr m) = inr (f m)

-- A call and the rest.
asked-Ends :
    {S A B : Type 0} (E : Fault → Type 0) (R : B → Type 0) (m : Exec S A) (f : A → Exec S B)
    (a : Answer A) (s t : S)
    → m s ≡ (from_answer a, t)
    → ((what : String) → E (thrown what))
    → ((x : A) → a ≡ replies x → Ends E R (f x t).0)
    → Ends E R ((m >>= f) s).0
unfolding ◌>>=◌
asked-Ends E R m f (replies x) s t e raise then = rw e (then x refl)
asked-Ends E R m f (raises what) s t e raise then = rw e (raise what)

module _ {S : Stdair} (world : World S) (k : Components) (svc : Service) (c : Context)
    (has : Serves c k) (ready : IsReady c) where
  book-Ends :
      (s : Program S) (r : S.BookingRequest) (ts : List S.TravelSolution)
      → at s.memory.contexts svc.context ≡ ok c
      → world s.history (request_call k) ≡ replies r
      → world (s.history ++ request_call k ∷ []) (path_call k r) ≡ replies ts
      → Ends
          (Faults (Misprices world k s.history))
          IsExit
          (book world svc r ts
            (called world (called world s (request_call k ∷ [])) (path_call k r ∷ []))).0
  unfolding book
  book-Ends s r [] here requested found = unfold pure in inr refl
  book-Ends s r (t ∷ ts) here requested found =
      let s₂ = called world (called world s (request_call k ∷ [])) (path_call k r ∷ []) in
      let s₃ = called world s₂ (price_call k r (t ∷ ts) ∷ []) in
      asked-Ends _ IsExit (fare_quote world svc r (t ∷ ts)) _
        (world s₂.history (price_call k r (t ∷ ts))) s₂ s₃
        (price-asks world svc c k s₂ here has r (t ∷ ts)) (λ what. inl tt)
        λ us priced.
          ends-unless {P = IsPriced S us} _
            ((book_priced-Only world (confined world svc c Any s.memory (λ h d w e. tt) here ready)
                us (inl (tt, tt))).at
              s₃ here).4
            (λ p.
              ((book_priced-Only world
                  (confined world svc c IsThrown s.memory (λ h d w e. tt) here ready) us (inr p)).at
                s₃ here).4)
            λ unsold. record {
              request = r;
              solution = t;
              solutions = ts;
              prices = us;
              requested = requested;
              found = found;
              priced = priced;
              unsold = unsold;
            }

  booking-Ends :
      (s : Program S)
      → at s.memory.contexts svc.context ≡ ok c
      → Ends
          (Faults (Misprices world k s.history))
          IsExit
          ((do
            request ← build_sample_booking_request world svc true
            solutions ← calculate_segment_path_list world svc request
            book world svc request solutions)
            s).0
  booking-Ends s here =
      let s₁ = called world s (request_call k ∷ []) in
      asked-Ends _ IsExit (build_sample_booking_request world svc true) _
        (world s.history (request_call k)) s s₁ (request-asks world svc c k s here has)
        (λ what. inl tt)
        λ r requested.
          asked-Ends _ IsExit (calculate_segment_path_list world svc r) _
            (world s₁.history (path_call k r)) s₁ (called world s₁ (path_call k r ∷ []))
            (path-asks world svc c k s₁ here has r) (λ what. inl tt)
            λ ts found. book-Ends s r ts here requested found

  pub serve-Ends :
      (b : Bool) (x : Settings) (s : Program S)
      → at s.memory.contexts svc.context ≡ ok c
      → Ends
          (Faults (
            Answered world s.history (loaded k b x)
            × Misprices world k (s.history ++ loaded k b x)))
          IsExit
          (serve world svc b x s).0
  unfolding serve ◌>>=◌
  serve-Ends b x s here = elim (Result-cases (load world svc b x s).0) [
    | inr (e, f) ↦ rw f (
        inl (
          subst (Ends IsThrown Any) f
            ((load-Only world (confined world svc c IsThrown s.memory (λ h d w e. tt) here ready) b
                x).at
              s here).4))
    | inl (u, f) ↦
        let v = load-returned world k svc c has b x s here f in
        rw (load-asks world svc c k s here has b x v) (
          Ends-because (Misprices world k (s.history ++ loaded k b x))
            (Answered world s.history (loaded k b x)
              × Misprices world k (s.history ++ loaded k b x))
            _ (λ m. (v, m)) (booking-Ends (called world s (loaded k b x)) here))
  ]
