-- ===== src/Distribution/Cancellations.antt =====
-- `DistributionManager::playCancellation` and `calculateAvailability` over their whole lists, or up to
-- an exception of AirInv.
use mathlib.Core.Path.{fun_ext}
use simcrs.Base.{
  ℕ, String, Bool, false, Option, List, [], ◌∷◌, ◌++◌, map, ◌≡◌, refl, ap, ◌∙◌, last_or,
}
use simcrs.Stdair.{Stdair}
use simcrs.Calls.{Handle, Call, World, airinv, AirinvCall, Answer}
use simcrs.Exec.{pure, ◌>>=◌}
use simcrs.Program.{Program, ask}
use simcrs.Program.Rounds.{Rounds, Rounds-exist, asked, ends, collect, collect-Rounds, last-Rounds}
use simcrs.Distribution.{cancel_classes, play_cancellation, calculate_availability}

module _ {S : Stdair} (world : World S) (inv : Handle) where
  abbrev pub cancellation : ℕ → S.BookingClassId → Call S
  cancellation n id = airinv inv (AirinvCall.cancel id n)

  abbrev pub query : S.TravelSolution → Call S
  query t = airinv inv (AirinvCall.calculate_availability t)

  -- AirInv's answers, after a history.
  abbrev cancelled : ℕ → List (Call S) → S.BookingClassId → Answer Bool
  cancelled n h id = world h (airinv inv (AirinvCall.cancel id n))

  abbrev available : List (Call S) → S.TravelSolution → Answer S.TravelSolution
  available h t = world h (airinv inv (AirinvCall.calculate_availability t))

  -- AirInv answers the cancellations, one after the other, by `bs`, and then, if there is an exception
  -- in `e`, raises that on the next.
  abbrev pub Cancelled :
      ℕ → (e : Option String) → List (Call S) → List S.BookingClassId → List Bool → Type 0
  Cancelled n e h ids bs = Rounds (cancellation n) (cancelled n) e h ids bs

  play_cancellation-Cancelled :
      (c : S.Cancellation) (e : Option String) (bs : List Bool) (s : Program S)
      → Cancelled (S.get_party_size c) e s.history (S.get_class_id_list c) bs
      → play_cancellation world inv c s ≡ (
        ends e (last_or false bs),
        record s {
          history =
              s.history
              ++ map (cancellation (S.get_party_size c)) (asked e (S.get_class_id_list c) bs);
        },
      )
  unfolding play_cancellation cancel_classes ask pure ◌>>=◌
  play_cancellation-Cancelled c e bs s v =
      let n = S.get_party_size c in
      last-Rounds (λ id. ask world (airinv inv (AirinvCall.cancel id n))) (cancellation n)
        (cancelled n) (λ id s. refl) (cancel_classes world inv n) (λ b s. refl) (λ b id ids s. refl)
        e false (S.get_class_id_list c) bs s v

  -- Whatever AirInv answers, it answers the cancellations up to the end, or up to one on which it
  -- raises an exception; `playCancellation` asks once for each booking class of the request so far,
  -- in their order and for the request's party size, and for no later one. At the end it returns the
  -- last answer, whatever the others were, and false where there is no class; an exception comes out,
  -- and no call takes back what was cancelled before it.
  pub play_cancellation-cancels :
      (c : S.Cancellation) (s : Program S)
      → (e : Option String) × (bs : List Bool) × Cancelled
          (S.get_party_size c)
          e
          s.history
          (S.get_class_id_list c)
          bs
        × (play_cancellation world inv c s ≡ (
          ends e (last_or false bs),
          record s {
            history =
                s.history
                ++ map (cancellation (S.get_party_size c)) (asked e (S.get_class_id_list c) bs);
          },
        ))
  play_cancellation-cancels c s =
      let (e, bs, v) =
        Rounds-exist (cancellation (S.get_party_size c)) (cancelled (S.get_party_size c)) s.history
          (S.get_class_id_list c) in
      (e, bs, v, play_cancellation-Cancelled c e bs s v)

  -- AirInv answers the queries on the first solutions by those of the second list, and then, if there
  -- is an exception in `e`, raises that on the next.
  abbrev pub Available :
      (e : Option String) → List (Call S) → List S.TravelSolution → List S.TravelSolution → Type 0
  Available e h ts us = Rounds query available e h ts us

  calculate_availability-collect :
      (ts : List S.TravelSolution) (s : Program S)
      → calculate_availability world inv ts s
        ≡ collect (λ t. ask world (airinv inv (AirinvCall.calculate_availability t))) ts s
  unfolding calculate_availability collect
  calculate_availability-collect [] s = refl
  calculate_availability-collect (t ∷ ts) s =
      ap
        (λ m.
          (ask world (airinv inv (AirinvCall.calculate_availability t)) >>= λ u.
          m >>= λ us. pure (u ∷ us))
            s)
        (fun_ext (calculate_availability-collect ts))

  -- Whatever AirInv answers, it answers the queries up to the end, or up to one on which it raises an
  -- exception; `calculateAvailability` asks once for each solution so far, in order, and for no later
  -- one. At the end it leaves the answers in the solutions' places; an exception comes out.
  pub calculate_availability-answers :
      (ts : List S.TravelSolution) (s : Program S)
      → (e : Option String) × (us : List S.TravelSolution) × Available e s.history ts us
        × (calculate_availability world inv ts s
            ≡ (ends e us, record s { history = s.history ++ map query (asked e ts us) }))
  unfolding ask
  calculate_availability-answers ts s =
      let (e, us, v) = Rounds-exist query available s.history ts in
      (
        e,
        us,
        v,
        calculate_availability-collect ts s
            ∙ collect-Rounds _ query available (λ t s. refl) e ts us s v,
      )
