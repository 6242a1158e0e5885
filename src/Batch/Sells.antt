-- ===== src/Batch/Sells.antt =====
-- The sale of the batch program, backwards from its exit status to the answers of the components.
use simcrs.Base.{ℕ, String, Bool, List, [], ◌∷◌, ◌++◌, map, ◌≡◌, refl, sym, ap, ◌∙◌, subst, pos}
use simcrs.Stdair.{Stdair}
use simcrs.Calls.{Call, World, replies}
use simcrs.Exec.{ok, pure, ◌>>=◌}
use simcrs.Context.{Context}
use simcrs.Memory.{at}
use simcrs.Program.{Program, ask}
use simcrs.Program.Attempt.{called}
use simcrs.Program.Returning.{bind-returned, lift-returned, answer-returned, from_answer-ok}
use simcrs.Distribution.Plan.{Sale, Plans, order}
use simcrs.Distribution.Sales.{Sold, after}
use simcrs.Distribution.Exact.{IsMade, sell-exact}
use simcrs.Service.{Service}
use simcrs.Service.Building.{Components, Serves}
use simcrs.Service.Booking.{sell}
use simcrs.Service.Display.{csv_display}
use simcrs.Service.Operation.{Operation, perform}
use simcrs.Service.Delegation.{perform-delegated}
use simcrs.Batch.Run.{front, sell_first_fare}
use simcrs.Batch.Booked.{root_call, display_call}

pub front-ok : {A : Type 0} (xs : List A) (x : A) → front xs ≡ ok x → (ys : List A) × (xs ≡ x ∷ ys)
front-ok [] x h = absurd (cc)
front-ok (y ∷ ys) x h = (ys, ap (λ z. z ∷ ys) (cc))

module _ {S : Stdair} (world : World S) (k : Components) where
  -- After the calls `h`, a sale of the solution by the first of the fare options, and the display.
  pub record Sells (t : S.TravelSolution) (fs : List S.FareOption) (h : List (Call S))
      : Type 0 where
    pub fare_option : S.FareOption
    pub fare_options : List S.FareOption
    pub key : String
    pub keys : List String
    pub sales : List (Sale S)
    pub answers : List Bool
    pub root : S.BomRoot
    pub dump : String
    pub fared : fs ≡ fare_option ∷ fare_options
    pub pathed : S.get_segment_path (S.set_chosen_fare_option t fare_option) ≡ key ∷ keys
    pub planned : Plans (S.set_chosen_fare_option t fare_option) sales
    pub sold : Sold world k.inv 3 h sales answers
    pub rooted : world (h ++ map (order k.inv 3) sales) (root_call k) ≡ replies root
    pub displayed :
        world ((h ++ map (order k.inv 3) sales) ++ root_call k ∷ []) (display_call k root)
        ≡ replies dump

  module _ (svc : Service) (c : Context) (has : Serves c k) where
    display-returned :
        (s : Program S) (dump : String)
        → at s.memory.contexts svc.context ≡ ok c
        → (csv_display world svc s).0 ≡ ok dump
        → (root : S.BomRoot) × (world s.history (root_call k) ≡ replies root)
          × (world (s.history ++ root_call k ∷ []) (display_call k root) ≡ replies dump)
    unfolding perform ask
    display-returned s dump here h =
        let same = perform-delegated world k svc c Operation.csv_display s here has in
        let (root, rooted, h') =
          answer-returned (ask world (root_call k)) _ (world s.history (root_call k)) s
            (called world s (root_call k ∷ [])) dump refl (sym (ap (λ r. r.0) same) ∙ h) in
        (root, rooted, from_answer-ok _ dump h')

    sale-returned :
        (t : S.TravelSolution) (n : ℕ) (s : Program S) (b : Bool)
        → at s.memory.contexts svc.context ≡ ok c
        → (sell world svc t n s).0 ≡ ok b
        → (xs : List (Sale S)) × Plans t xs × IsMade world k.inv n xs s b (sell world svc t n s).1
    unfolding perform
    sale-returned t n s b here h =
        let same = perform-delegated world k svc c (Operation.sell t n) s here has in
        (sell-exact world k.inv n t s b (sell world svc t n s).1).0
          (sym same ∙ ap (λ r. (r, (sell world svc t n s).1)) h)

    pub sell_first_fare-returned :
        (t : S.TravelSolution) (fs : List S.FareOption) (s : Program S)
        → at s.memory.contexts svc.context ≡ ok c
        → (sell_first_fare world svc t fs s).0 ≡ ok (pos 0)
        → Sells t fs s.history
    unfolding sell_first_fare
    sell_first_fare-returned t [] s here h = absurd (unfold pure in cc)
    sell_first_fare-returned t (f ∷ fs) s here h =
        let chosen = S.set_chosen_fare_option t f in
        let (key, fronted, h₁) = lift-returned (front (S.get_segment_path chosen)) _ s (pos 0) h in
        let (keys, pathed) = front-ok _ key fronted in
        let (b, returned, h₂) = bind-returned (sell world svc chosen 3) _ s (pos 0) h₁ in
        let (xs, plan, made) = sale-returned chosen 3 s b here returned in
        let s₁ = after world k.inv 3 s xs in
        let h₃ =
          subst (λ q. ((csv_display world svc >>= λ dump. pure (pos 0)) q).0 ≡ ok (pos 0)) made.end
            h₂ in
        let (dump, shown, h₄) = bind-returned (csv_display world svc) _ s₁ (pos 0) h₃ in
        let (root, rooted, displayed) = display-returned s₁ dump here shown in
        record {
          fare_option = f;
          fare_options = fs;
          key = key;
          keys = keys;
          sales = xs;
          answers = made.answers;
          root = root;
          dump = dump;
          fared = refl;
          pathed = pathed;
          planned = plan;
          sold = made.sold;
          rooted = rooted;
          displayed = displayed;
        }
