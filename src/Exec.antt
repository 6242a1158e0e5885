-- ===== src/Exec.antt =====
-- How a C++ function ends, and functions that read and change a state. What was written before an
-- exception stays written, so the state comes back beside the fault too.
use simcrs.Base.{String, Bool, true, false, ◌≡◌, refl, ◌⊎◌, inl, inr}
use simcrs.Calls.{Answer, replies, raises}

-- A failed `assert`, behaviour that C++ leaves undefined, the two kinds of exceptions: SimCRS's own
-- and those that another component lets out.
pub data Fault : Type 0 where
  assertion_failed undefined_behaviour non_initialised_service : Fault
  thrown : (what : String) → Fault

pub data Result (A : Type 0) : Type 0 where
  ok : A → Result A
  err : Fault → Result A

pub Result-cases :
    {A : Type 0} (r : Result A) → ((a : A) × (r ≡ ok a)) ⊎ ((e : Fault) × (r ≡ err e))
Result-cases (ok a) = inl (a, refl)
Result-cases (err e) = inr (e, refl)

abbrev pub from_answer : {A : Type 0} → Answer A → Result A
from_answer (replies a) = ok a
from_answer (raises what) = err (thrown what)

abbrev pub assert : Bool → Result (Unit {0})
assert true = ok tt
assert false = err assertion_failed

abbrev pub Exec : Type 0 → Type 0 → Type 0
Exec S A = S → Result A × S

module _ {S A : Type 0} where
  unfoldable pub pure : A → Exec S A
  pure a s = (ok a, s)

  unfoldable pub lift : Result A → Exec S A
  lift r s = (r, s)

  unfoldable pub gets : (S → A) → Exec S A
  gets f s = (ok (f s), s)

  -- A read that may fault.
  unfoldable pub reads : (S → Result A) → Exec S A
  reads f s = (f s, s)

unfoldable pub modify : {S : Type 0} → (S → S) → Exec S (Unit {0})
modify f s = (ok tt, f s)

module _ {S A B : Type 0} where
  abbrev pub continue : Result A → (A → Exec S B) → Exec S B
  continue (ok a) f s = f a s
  continue (err e) f s = (err e, s)

  infixl 10 ◌>>=◌ ◌>>◌
  -- Opening this opens `pure`, `lift`, `gets`, `reads` and `modify` too.
  unfoldable pub ◌>>=◌ : Exec S A → (A → Exec S B) → Exec S B
  unfolding pure lift gets reads modify
  ◌>>=◌ m f s = let (r, s') = m s in continue r f s'

  abbrev pub ◌>>◌ : Exec S A → Exec S B → Exec S B
  m >> n = m >>= λ _. n

-- `if (b) { m }`
abbrev pub when : {S : Type 0} → Bool → Exec S (Unit {0}) → Exec S (Unit {0})
when true m = m
when false m = pure tt
