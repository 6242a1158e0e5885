-- ===== src/Program/Returning.antt =====
-- What must have happened where a function returns.
use simcrs.Base.{List, [], ◌∷◌, ◌≡◌, refl, arith, inl, inr}
use simcrs.Stdair.{Stdair}
use simcrs.Calls.{Call, World, Answer, replies, raises, Answer-cases}
use simcrs.Exec.{Result, ok, err, lift, Exec, from_answer, ◌>>=◌, Result-cases}
use simcrs.Program.{Program, ask}
use simcrs.Program.Attempt.{Answered, called, attempt}

module _ {S A B : Type 0} where
  -- A sequence returns where both of its parts do.
  pub bind-returned :
      (m : Exec S A) (f : A → Exec S B) (s : S) (b : B)
      → ((m >>= f) s).0 ≡ ok b
      → (a : A) × ((m s).0 ≡ ok a) × ((f a (m s).1).0 ≡ ok b)
  unfolding ◌>>=◌
  bind-returned m f s b h = elim (Result-cases (m s).0) [
    | inl (a, e) ↦ (a, e, ground (arith, h, e))
    | inr (e, g) ↦ absurd (ground (arith, h, g))
  ]

  pub lift-returned :
      (r : Result A) (f : A → Exec S B) (s : S) (b : B)
      → ((lift r >>= f) s).0 ≡ ok b
      → (a : A) × (r ≡ ok a) × ((f a s).0 ≡ ok b)
  unfolding lift ◌>>=◌
  lift-returned (ok a) f s b h = (a, refl, h)
  lift-returned (err e) f s b h = absurd (cc)

  pub known-returned :
      (m : Exec S A) (f : A → Exec S B) (s t : S) (a : A) (b : B)
      → m s ≡ (ok a, t)
      → ((m >>= f) s).0 ≡ ok b
      → (f a t).0 ≡ ok b
  unfolding ◌>>=◌
  known-returned m f s t a b e h = ground (arith, h, e)

  -- A call that returns had a reply.
  pub answer-returned :
      (m : Exec S A) (f : A → Exec S B) (a : Answer A) (s t : S) (b : B)
      → m s ≡ (from_answer a, t)
      → ((m >>= f) s).0 ≡ ok b
      → (x : A) × (a ≡ replies x) × ((f x t).0 ≡ ok b)
  unfolding ◌>>=◌
  answer-returned m f a s t b e h = elim (Answer-cases a) [
    | inl (x, g) ↦ (x, g, ground (arith, h, e, g))
    | inr (what, g) ↦ absurd (ground (arith, h, e, g))
  ]

pub from_answer-ok : {A : Type 0} (a : Answer A) (x : A) → from_answer a ≡ ok x → a ≡ replies x
from_answer-ok (replies y) x h = cc
from_answer-ok (raises what) x h = absurd (cc)

-- Calls in a row that return have had replies.
pub attempt-returned :
    {S : Stdair} (world : World S) (cs : List (Call S)) (s : Program S)
    → (attempt world cs s).0 ≡ ok tt
    → Answered world s.history cs
unfolding attempt ask ◌>>=◌
attempt-returned world [] s h = tt
attempt-returned world (c ∷ cs) s h = elim (Answer-cases (world s.history c)) [
  | inl (r, e) ↦
      (rw e tt, attempt-returned world cs (called world s (c ∷ [])) (ground (arith, h, e)))
  | inr (what, e) ↦ absurd (ground (arith, h, e))
]
