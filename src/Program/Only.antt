-- ===== src/Program/Only.antt =====
-- What a function does at most, by one rule for each way to build a function.
use simcrs.Base.{
  String, Bool, true, false, List, [], ◌∷◌, ◌++◌, ◌≡◌, refl, sym, ap, ◌∙◌, subst, append_assoc,
  append-nil, All, All-append,
}
use simcrs.Stdair.{Stdair}
use simcrs.Calls.{Call, Reply, Answer, replies, raises, World}
use simcrs.Exec.{
  Fault, thrown, Result, ok, err, from_answer, Exec, pure, lift, reads, when, continue, ◌>>=◌,
}
use simcrs.Memory.{Memory}
use simcrs.Program.{Program, ask, in_memory}

-- A result that is a value with `R`, or one of the faults `E`.
abbrev pub Ends : {A : Type 0} → (Fault → Type 0) → (A → Type 0) → Result A → Type 0
Ends E R (ok a) = R a
Ends E R (err e) = E e

-- From a memory with `Q`, `m` changes no object of SimCRS, calls the other components only as `P`
-- says, and ends with a value that has `R` or with a fault of `E`.
pub record Only {S : Stdair} {A : Type 0} (P : Call S → Type 0) (E : Fault → Type 0)
    (Q : Memory → Type 0) (R : A → Type 0) (m : Exec (Program S) A) : Type 0 where
  pub at :
      (s : Program S)
      → Q s.memory
      → ((m s).1.memory ≡ s.memory)
        × (cs : List (Call S)) × All P cs
        × ((m s).1.history ≡ s.history ++ cs)
        × Ends E R (m s).0

abbrev pub Any : {A : Type 0} → A → Type 0
Any a = Unit {0}

-- Each exception that a component raises is a fault of `E`.
abbrev pub Raises : {S : Stdair} → World S → (Fault → Type 0) → Type 0
Raises {S} world E =
    (h : List (Call S)) (c : Call S) (what : String) → world h c ≡ raises what → E (thrown what)

Ends-reply :
    {A : Type 0} (E : Fault → Type 0) (R : A → Type 0)
    → (a : Answer A) → ((what : String) → a ≡ raises what → E (thrown what))
    → ((x : A) → a ≡ replies x → R x)
    → Ends E R (from_answer a)
Ends-reply E R (replies x) e k = k x refl
Ends-reply E R (raises what) e k = e what refl

module _ {S : Stdair} {P : Call S → Type 0} {E : Fault → Type 0} {Q : Memory → Type 0} where
  module _ {A : Type 0} {R : A → Type 0} where
    pub Only-lift : (r : Result A) → Ends E R r → Only P E Q R (lift r)
    unfolding lift
    Only-lift r e = record { at = λ s q. (refl, [], tt, sym (append-nil s.history), e) }

    pub Only-pure : (a : A) → R a → Only P E Q R (pure a)
    unfolding pure lift
    Only-pure a h = Only-lift (ok a) h

    pub Only-reads :
        (f : Memory → Result A)
        → ((m : Memory) → Q m → Ends E R (f m))
        → Only P E Q R (in_memory (reads f))
    unfolding in_memory reads
    Only-reads f e = record { at = λ s q. (refl, [], tt, sym (append-nil s.history), e s.memory q) }

  -- A value that is computed, with the equation that says so.
  pub Only-known : {A : Type 0} (r : Result A) → Ends E Any r → Only P E Q (λ a. r ≡ ok a) (lift r)
  Only-known (ok a) e = Only-lift (ok a) refl
  Only-known (err x) e = Only-lift (err x) e

  -- A call of which something is known of each reply.
  Only-ask-reply :
      (world : World S) (c : Call S) (R : Reply c → Type 0)
      → Raises world E
      → P c
      → ((h : List (Call S)) (x : Reply c) → world h c ≡ replies x → R x)
      → Only P E Q R (ask world c)
  unfolding ask
  Only-ask-reply world c R e p k = record {
    at = λ s q. (
      refl,
      c ∷ [],
      (p, tt),
      refl,
      Ends-reply E R (world s.history c) (e s.history c) (k s.history),
    );
  }

  pub Only-ask :
      (world : World S) (c : Call S) → Raises world E → P c → Only P E Q Any (ask world c)
  Only-ask world c e p = Only-ask-reply world c Any e p (λ h x _. tt)

  pub Only-when :
      (b : Bool) (m : Exec (Program S) (Unit {0}))
      → (b ≡ true → Only P E Q Any m)
      → Only P E Q Any (when b m)
  Only-when true m h = h refl
  Only-when false m h = Only-pure tt tt

  module _ {A B : Type 0} {R : A → Type 0} {T : B → Type 0} where
    Only-continue :
        (r : Result A) (f : A → Exec (Program S) B)
        → Ends E R r
        → ((a : A) → R a → Only P E Q T (f a))
        → Only P E Q T (continue r f)
    Only-continue (ok a) f e of = of a e
    Only-continue (err x) f e of = record {
      at = λ s q. (refl, [], tt, sym (append-nil s.history), e);
    }

    pub Only-bind :
        {m : Exec (Program S) A} {f : A → Exec (Program S) B}
        → Only P E Q R m
        → ((a : A) → R a → Only P E Q T (f a))
        → Only P E Q T (m >>= f)
    unfolding ◌>>=◌
    Only-bind {m} {f} om of = record {
      at = λ s q.
          let (same, cs, ps, eh, ends) = om.at s q in
          let rest = (Only-continue (m s).0 f ends of).at (m s).1 (subst Q (sym same) q) in
          (
            rest.0 ∙ same,
            cs ++ rest.1,
            All-append P cs rest.1 ps rest.2,
            rest.3 ∙ ap (λ h. h ++ rest.1) eh ∙ append_assoc s.history cs rest.1,
            rest.4,
          );
    }

  -- A call, and the rest of the block.
  pub Only-call :
      {B : Type 0} {T : B → Type 0} (world : World S) (c : Call S)
      {f : Reply c → Exec (Program S) B}
      → Raises world E
      → P c
      → ((a : Reply c) → Only P E Q T (f a))
      → Only P E Q T (ask world c >>= f)
  Only-call world c e p of = Only-bind (Only-ask world c e p) (λ a _. of a)
