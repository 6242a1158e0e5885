-- ===== src/Distribution/Sales.antt =====
-- `DistributionManager::sell` against the plan of its travel solution.
use simcrs.Base.{
  Option, none, some, ℕ, String, Bool, false, List, [], ◌∷◌, ◌++◌, map, ◌≡◌, refl, ◌∙◌, last_or,
}
use simcrs.Stdair.{Stdair}
use simcrs.Calls.{Handle, Call, World, airinv, AirinvCall, Answer}
use simcrs.Exec.{ok, err, thrown, from_answer, pure, ◌>>=◌}
use simcrs.Program.{Program, ask}
use simcrs.Program.Rounds.{Rounds, ends, asked, last-Rounds}
use simcrs.Distribution.{sell}
use simcrs.Distribution.Reference.{place, place_all, carry_out, Plans-plan_of, sell-planned}
use simcrs.Distribution.Plan.{Sale, by_class, by_segment, order, Plans}

module _ {S : Stdair} (world : World S) (inv : Handle) (n : ℕ) where
  -- AirInv's answer to a sale, after a history.
  abbrev pub answer : List (Call S) → Sale S → Answer Bool
  answer h (by_class id) = world h (airinv inv (AirinvCall.sell_class id n))
  answer h (by_segment key code) = world h (airinv inv (AirinvCall.sell_segment key code n))

  -- AirInv answers the sales, one after the other, by `bs`: true where a sale was made.
  abbrev pub Sold : List (Call S) → List (Sale S) → List Bool → Type 0
  Sold h xs bs = Rounds (order inv n) answer none h xs bs

  -- AirInv answers the first sales by `bs`, and raises an exception on the next.
  abbrev pub Refused : List (Call S) → List (Sale S) → List Bool → String → Type 0
  Refused h xs bs what = Rounds (order inv n) answer (some what) h xs bs

  abbrev pub after : Program S → List (Sale S) → Program S
  after s xs = record s { history = s.history ++ map (order inv n) xs }

  -- A sale is the call that it orders.
  place-order :
      (x : Sale S) (s : Program S)
      → place world inv n x s ≡ (from_answer (answer s.history x), after s (x ∷ []))
  unfolding ask
  place-order (by_class id) s = refl
  place-order (by_segment key code) s = refl

  pub place_all-Rounds :
      (e : Option String) (b : Bool) (xs : List (Sale S)) (bs : List Bool) (s : Program S)
      → Rounds (order inv n) answer e s.history xs bs
      → place_all world inv n b xs s ≡ (ends e (last_or b bs), after s (asked e xs bs))
  unfolding place_all pure ◌>>=◌
  place_all-Rounds =
      last-Rounds (place world inv n) (order inv n) answer place-order (place_all world inv n)
        (λ b s. refl) (λ b x xs s. refl)

  -- Where AirInv answers every planned sale, `sell` asks it for each of them once, in the order of
  -- the legs, and for nothing else. It returns the last answer, whatever the others were, and false
  -- where nothing is planned.
  pub sell-Sold :
      (t : S.TravelSolution) (xs : List (Sale S)) (bs : List Bool) (s : Program S)
      → Plans t xs
      → Sold s.history xs bs
      → sell world inv t n s ≡ (ok (last_or false bs), after s xs)
  unfolding carry_out pure ◌>>=◌
  sell-Sold t xs bs s plan h =
      sell-planned world inv n t s
      ∙ rw (Plans-plan_of {S = S} t plan, place_all-Rounds none false xs bs s h) refl

  -- Where AirInv raises an exception on a planned sale, `sell` lets it out and asks for no later
  -- leg. The sales of the legs before it stand: no call takes them back.
  pub sell-Refused :
      (t : S.TravelSolution) (xs : List (Sale S)) (bs : List Bool) (s : Program S) (what : String)
      → Plans t xs
      → Refused s.history xs bs what
      → sell world inv t n s ≡ (err (thrown what), after s (asked (some what) xs bs))
  unfolding carry_out ◌>>=◌
  sell-Refused t xs bs s what plan h =
      sell-planned world inv n t s
      ∙ rw (Plans-plan_of {S = S} t plan, place_all-Rounds (some what) false xs bs s h) refl
