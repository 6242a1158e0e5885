-- ===== src/Batch/Searched.antt =====
-- The batch program on a service, backwards from its exit status, whatever it is, to its calls.
use simcrs.Base.{ℤ, Bool, true, false, List, [], ◌∷◌, ◌++◌, ◌≡◌, sym, ap, ◌∙◌}
use simcrs.Stdair.{Stdair}
use simcrs.Calls.{World, replies}
use simcrs.Exec.{ok, ◌>>=◌}
use simcrs.Context.{Context}
use simcrs.Memory.{at}
use simcrs.Program.{Program}
use simcrs.Program.Attempt.{Answered, called}
use simcrs.Program.Returning.{
  bind-returned, known-returned, lift-returned, answer-returned, attempt-returned,
}
use simcrs.Service.{Service}
use simcrs.Service.Building.{Components, Serves}
use simcrs.Service.Bom.{build_sample_booking_request}
use simcrs.Service.Booking.{calculate_segment_path_list, fare_quote}
use simcrs.Service.Operation.{Operation, perform}
use simcrs.Service.Delegation.{perform-delegated}
use simcrs.Batch.Configuration.{Settings}
use simcrs.Batch.Run.{front, load, sell_first_fare, book, serve}
use simcrs.Batch.Sells.{front-ok}
use simcrs.Batch.Booked.{
  loaded, request_call, path_call, price_call, load-asks, request-asks, path-asks, price-asks,
}

module _ {S : Stdair} (world : World S) (k : Components) (svc : Service) (c : Context)
    (has : Serves c k) where
  pub load-returned :
      (b : Bool) (x : Settings) (s : Program S)
      → at s.memory.contexts svc.context ≡ ok c
      → (load world svc b x s).0 ≡ ok tt
      → Answered world s.history (loaded k b x)
  unfolding load perform
  load-returned true x s here h = attempt-returned world _ s (
      sym (ap (λ r. r.0) (perform-delegated world k svc c Operation.build_sample_bom s here has))
      ∙ h)
  load-returned false x s here h = attempt-returned world _ s (
      sym (ap (λ r. r.0) (perform-delegated world k svc c (Operation.parse_and_load _) s here has))
      ∙ h)

  -- The state before the travel solutions are booked.
  abbrev pub searched : Program S → S.BookingRequest → Program S
  searched s r = called world (called world s (request_call k ∷ [])) (path_call k r ∷ [])

  -- After the calls of `s`, the request is made, and the solutions are found with which `n` comes of it.
  pub record Searches (n : ℤ) (s : Program S) : Type 0 where
    pub request : S.BookingRequest
    pub solutions : List S.TravelSolution
    pub requested : world s.history (request_call k) ≡ replies request
    pub found : world (s.history ++ request_call k ∷ []) (path_call k request) ≡ replies solutions
    pub rest : (book world svc request solutions (searched s request)).0 ≡ ok n

  booking-Searches :
      (n : ℤ) (s : Program S)
      → at s.memory.contexts svc.context ≡ ok c
      → ((do
        request ← build_sample_booking_request world svc true
        solutions ← calculate_segment_path_list world svc request
        book world svc request solutions)
          s).0
        ≡ ok n
      → Searches n s
  booking-Searches n s here h =
      let s₁ = called world s (request_call k ∷ []) in
      let (r, requested, h₁) =
        answer-returned (build_sample_booking_request world svc true) _
          (world s.history (request_call k)) s s₁ n (request-asks world svc c k s here has) h in
      let (ts, found, h₂) =
        answer-returned (calculate_segment_path_list world svc r) _
          (world s₁.history (path_call k r)) s₁ (searched s r) n
          (path-asks world svc c k s₁ here has r) h₁ in
      record { request = r; solutions = ts; requested = requested; found = found; rest = h₂ }

  -- What is loaded, and the rest.
  pub serve-Searches :
      (n : ℤ) (b : Bool) (x : Settings) (s : Program S)
      → at s.memory.contexts svc.context ≡ ok c
      → (serve world svc b x s).0 ≡ ok n
      → Answered world s.history (loaded k b x) × Searches n (called world s (loaded k b x))
  unfolding serve
  serve-Searches n b x s here h =
      let (u, returned, h₁) = bind-returned (load world svc b x) _ s n h in
      let v = load-returned b x s here returned in
      let s₁ = called world s (loaded k b x) in
      (
        v,
        booking-Searches n s₁ here (
            known-returned (load world svc b x) _ s s₁ tt n
              (load-asks world svc c k s here has b x v) h),
      )

  -- The prices, and the sale of the first solution.
  pub book-priced :
      (n : ℤ) (r : S.BookingRequest) (t : S.TravelSolution) (ts : List S.TravelSolution)
      (s : Program S)
      → at s.memory.contexts svc.context ≡ ok c
      → (book world svc r (t ∷ ts) s).0 ≡ ok n
      → (p : S.TravelSolution) × (ps : List S.TravelSolution) × (world s.history
            (price_call k r (t ∷ ts))
          ≡ replies (p ∷ ps))
        × ((sell_first_fare world svc p
              (S.get_fare_option_list p)
              (called world s (price_call k r (t ∷ ts) ∷ []))).0
            ≡ ok n)
  unfolding book
  book-priced n r t ts s here h =
      let s₁ = called world s (price_call k r (t ∷ ts) ∷ []) in
      let (priced, e, h₁) =
        answer-returned (fare_quote world svc r (t ∷ ts)) _
          (world s.history (price_call k r (t ∷ ts))) s s₁ n
          (price-asks world svc c k s here has r (t ∷ ts)) h in
      let (p, fronted, h₂) = lift-returned (front priced) _ s₁ n h₁ in
      let (ps, same) = front-ok priced p fronted in (p, ps, e ∙ ap replies same, h₂)
