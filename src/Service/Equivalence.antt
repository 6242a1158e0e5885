-- ===== src/Service/Equivalence.antt =====
-- The two methods `sell` of SIMCRS_Service beside each other.
use mathlib.Core.Path.{fun_ext}
use simcrs.Base.{ℕ, String, Bool, [], ◌∷◌, List, ◌≡◌, refl, ap, ◌∙◌}
use simcrs.Stdair.{Stdair}
use simcrs.Calls.{Handle, World, airinv, AirinvCall}
use simcrs.Exec.{Result, ok, err, Exec, pure, lift, continue, ◌>>=◌}
use simcrs.Context.{get_airinv_service}
use simcrs.Program.{Program, ask}
use simcrs.Distribution
use simcrs.Distribution.{first_class}
use simcrs.Service.{Service, initialised_context}
use simcrs.Service.Booking.{sell_segment, sell}

bind-pure : {S A : Type 0} (m : Exec S A) → (m >>= λ a. pure a) ≡ m
unfolding ◌>>=◌
bind-pure {S} {A} m = fun_ext λ s. go (m s).0 (m s).1
  where
    go : (r : Result A) (s : S) → continue r (λ a. pure a) s ≡ (r, s)
    go (ok a) s = refl
    go (err e) s = refl

lift-ok : {S A B : Type 0} (a : A) (f : A → Exec S B) (s : S) → (lift (ok a) >>= f) s ≡ f a s
unfolding ◌>>=◌
lift-ok a f s = refl

module _ {S : Stdair} (world : World S) (t : S.TravelSolution) (n : ℕ) (key classes code : String)
    (path : List String) where
  -- One leg without a class map.
  sell-one :
      (inv : Handle)
      → S.get_class_object_id_map_holder t ≡ []
      → S.get_segment_path t ≡ key ∷ []
      → S.get_class_path (S.get_chosen_fare_option t) ≡ classes ∷ path
      → first_class classes ≡ ok code
      → Distribution.sell world inv t n
        ≡ ask world (airinv inv (AirinvCall.sell_segment key code n))
  unfolding Distribution.sell
  sell-one inv eh es ec e =
      rw (eh, es, ec)
        (fun_ext λ s. rw e (
          lift-ok code _ s
          ∙ ap (λ (m : Exec (Program S) Bool). m s)
              (bind-pure (ask world (airinv inv (AirinvCall.sell_segment key code n))))))

  -- A travel solution of one segment and no class map, whose chosen fare option has a class for it, is
  -- sold exactly as that segment in that class.
  pub sell-sell_segment :
      (svc : Service) (s : Program S)
      → S.get_class_object_id_map_holder t ≡ []
      → S.get_segment_path t ≡ key ∷ []
      → S.get_class_path (S.get_chosen_fare_option t) ≡ classes ∷ path
      → first_class classes ≡ ok code
      → sell world svc t n s ≡ sell_segment world svc key code n s
  unfolding sell sell_segment
  sell-sell_segment svc s eh es ec e =
      ap
        (λ (f : Handle → Exec (Program S) Bool).
          (initialised_context svc >>= λ c. lift (get_airinv_service c) >>= f) s)
        (fun_ext λ inv. sell-one inv eh es ec e)
