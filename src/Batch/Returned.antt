-- ===== src/Batch/Returned.antt =====
-- The batch program on a service, backwards from its exit status to the answers of the components.
use simcrs.Base.{Bool, List, [], ◌∷◌, ◌++◌, ◌≡◌, pos}
use simcrs.Stdair.{Stdair}
use simcrs.Calls.{World, replies}
use simcrs.Exec.{ok, pure}
use simcrs.Context.{Context}
use simcrs.Memory.{at}
use simcrs.Program.{Program}
use simcrs.Program.Attempt.{Answered}
use simcrs.Service.{Service}
use simcrs.Service.Building.{Components, Serves}
use simcrs.Batch.Configuration.{Settings}
use simcrs.Batch.Searched.{searched, serve-Searches, book-priced}
use simcrs.Batch.Run.{book, serve}
use simcrs.Batch.Sells.{sell_first_fare-returned}
use simcrs.Batch.Booked.{loaded, request_call, path_call, Leads}

module _ {S : Stdair} (world : World S) (k : Components) where
  module _ (svc : Service) (c : Context) (has : Serves c k) where
    book-Leads :
        (s : Program S) (r : S.BookingRequest) (ts : List S.TravelSolution)
        → at s.memory.contexts svc.context ≡ ok c
        → world s.history (request_call k) ≡ replies r
        → world (s.history ++ request_call k ∷ []) (path_call k r) ≡ replies ts
        → (book world svc r ts (searched world k svc c has s r)).0 ≡ ok (pos 0)
        → Leads world k s.history
    book-Leads s r [] here requested found h = absurd (unfold book pure in cc)
    book-Leads s r (t ∷ ts) here requested found h =
        let (p, ps, priced, rest) = book-priced world k svc c has (pos 0) r t ts _ here h in
        let l =
          sell_first_fare-returned world k svc c has p (S.get_fare_option_list p) _ here rest in
        record {
          request = r;
          solution = t;
          solutions = ts;
          priced_solution = p;
          priced_solutions = ps;
          fare_option = l.fare_option;
          fare_options = l.fare_options;
          key = l.key;
          keys = l.keys;
          sales = l.sales;
          answers = l.answers;
          root = l.root;
          dump = l.dump;
          requested = requested;
          found = found;
          priced = priced;
          fared = l.fared;
          pathed = l.pathed;
          planned = l.planned;
          sold = l.sold;
          rooted = l.rooted;
          displayed = l.displayed;
        }

    -- The program returns 0 only where it was led to a sale.
    pub serve-returned :
        (b : Bool) (x : Settings) (s : Program S)
        → at s.memory.contexts svc.context ≡ ok c
        → (serve world svc b x s).0 ≡ ok (pos 0)
        → Answered world s.history (loaded k b x) × Leads world k (s.history ++ loaded k b x)
    serve-returned b x s here h =
        let (v, q) = serve-Searches world k svc c has (pos 0) b x s here h in
        (v, book-Leads _ q.request q.solutions here q.requested q.found q.rest)
