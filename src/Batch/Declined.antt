-- ===== src/Batch/Declined.antt =====
-- The batch program on a service, where no sale is asked for: forwards from the answers of the
-- components, and backwards from the exit status to them.
use simcrs.Base.{Bool, List, [], ◌∷◌, ◌++◌, ◌≡◌, refl, ◌⊎◌, inl, inr, negsuc}
use simcrs.Stdair.{Stdair}
use simcrs.Calls.{Call, World, replies}
use simcrs.Exec.{ok, pure, ◌>>=◌}
use simcrs.Context.{Context}
use simcrs.Memory.{at}
use simcrs.Program.{Program}
use simcrs.Program.Attempt.{Answered, called}
use simcrs.Program.Returning.{bind-returned, lift-returned}
use simcrs.Service.{Service}
use simcrs.Service.Building.{Components, Serves}
use simcrs.Service.Booking.{sell}
use simcrs.Service.Display.{csv_display}
use simcrs.Batch.Configuration.{Settings}
use simcrs.Batch.Run.{front, sell_first_fare, book, serve}
use simcrs.Batch.Searched.{searched, serve-Searches, book-priced}
use simcrs.Batch.Booked.{
  loaded, request_call, path_call, price_call, request-asks, path-asks, price-asks, load-asks,
}

module _ {S : Stdair} (world : World S) (k : Components) where
  -- After the calls `h`, the first of the solutions has no fare option once SimFQT has priced them.
  pub record Unfared (r : S.BookingRequest) (h : List (Call S)) : Type 0 where
    pub solution : S.TravelSolution
    pub solutions : List S.TravelSolution
    pub priced_solution : S.TravelSolution
    pub priced_solutions : List S.TravelSolution
    pub found : world h (path_call k r) ≡ replies (solution ∷ solutions)
    pub priced :
        world (h ++ path_call k r ∷ []) (price_call k r (solution ∷ solutions))
        ≡ replies (priced_solution ∷ priced_solutions)
    pub unfared : S.get_fare_option_list priced_solution ≡ []

  -- After the calls `h`, there is no solution, or no fare option.
  pub record Declines (h : List (Call S)) : Type 0 where
    pub request : S.BookingRequest
    pub requested : world h (request_call k) ≡ replies request
    pub reason :
        (world (h ++ request_call k ∷ []) (path_call k request) ≡ replies [])
        ⊎ Unfared request (h ++ request_call k ∷ [])

  module _ (svc : Service) (c : Context) (has : Serves c k) where
    sell_first_fare-declined :
        (t : S.TravelSolution) (fs : List S.FareOption) (s : Program S)
        → (sell_first_fare world svc t fs s).0 ≡ ok (negsuc 0)
        → fs ≡ []
    unfolding sell_first_fare
    sell_first_fare-declined t [] s h = refl
    sell_first_fare-declined t (f ∷ fs) s h =
        let chosen = S.set_chosen_fare_option t f in
        let (key, fronted, h₁) =
          lift-returned (front (S.get_segment_path chosen)) _ s (negsuc 0) h in
        let (b, sold, h₂) = bind-returned (sell world svc chosen 3) _ s (negsuc 0) h₁ in
        let (dump, shown, h₃) = bind-returned (csv_display world svc) _ _ (negsuc 0) h₂ in
        absurd (unfold pure in cc)

    book-Declines :
        (s : Program S) (r : S.BookingRequest) (ts : List S.TravelSolution)
        → at s.memory.contexts svc.context ≡ ok c
        → world s.history (request_call k) ≡ replies r
        → world (s.history ++ request_call k ∷ []) (path_call k r) ≡ replies ts
        → (book world svc r ts (searched world k svc c has s r)).0 ≡ ok (negsuc 0)
        → Declines s.history
    book-Declines s r [] here requested found h = record {
      request = r;
      requested = requested;
      reason = inl found;
    }
    book-Declines s r (t ∷ ts) here requested found h =
        let (p, ps, priced, rest) = book-priced world k svc c has (negsuc 0) r t ts _ here h in
        record {
          request = r;
          requested = requested;
          reason = inr (record {
            solution = t;
            solutions = ts;
            priced_solution = p;
            priced_solutions = ps;
            found = found;
            priced = priced;
            unfared = sell_first_fare-declined p (S.get_fare_option_list p) _ rest;
          });
        }

    -- The program returns -1 on its service only where it was declined.
    pub serve-declined :
        (b : Bool) (x : Settings) (s : Program S)
        → at s.memory.contexts svc.context ≡ ok c
        → (serve world svc b x s).0 ≡ ok (negsuc 0)
        → Answered world s.history (loaded k b x) × Declines (s.history ++ loaded k b x)
    serve-declined b x s here h =
        let (v, q) = serve-Searches world k svc c has (negsuc 0) b x s here h in
        (v, book-Declines _ q.request q.solutions here q.requested q.found q.rest)

    -- And there it does, and changes no object.
    pub serve-Declines :
        (b : Bool) (x : Settings) (s : Program S)
        → at s.memory.contexts svc.context ≡ ok c
        → Answered world s.history (loaded k b x)
        → Declines (s.history ++ loaded k b x)
        → (h : List (Call S)) × (serve world svc b x s ≡ (ok (negsuc 0), record s { history = h }))
    unfolding serve book sell_first_fare pure ◌>>=◌
    serve-Declines b x s here v l =
        let s₀ = called world s (loaded k b x) in
        let s₁ = called world s₀ (request_call k ∷ []) in
        let s₂ = called world s₁ (path_call k l.request ∷ []) in
        elim l.reason [
          | inl found ↦ (
            s₂.history,
            rw
                (
                  load-asks world svc c k s here has b x v,
                  request-asks world svc c k s₀ here has,
                  l.requested,
                  path-asks world svc c k s₁ here has l.request,
                  found,
                )
                refl,
          )
          | inr u ↦ (
            s₂.history ++ price_call k l.request (u.solution ∷ u.solutions) ∷ [],
            rw
                (
                  load-asks world svc c k s here has b x v,
                  request-asks world svc c k s₀ here has,
                  l.requested,
                  path-asks world svc c k s₁ here has l.request,
                  u.found,
                  price-asks world svc c k s₂ here has l.request (u.solution ∷ u.solutions),
                  u.priced,
                  u.unfared,
                )
                refl,
          )
        ]
