-- ===== src/Program/Traces.antt =====
-- Functions that make calls of other components in a row, whatever their answers.
use simcrs.Base.{
  Bool, true, false, List, [], ◌∷◌, ◌++◌, ◌≡◌, refl, sym, ◌∙◌, subst, if◌then◌else◌, inl, inr,
}
use simcrs.Stdair.{Stdair}
use simcrs.Calls.{Call, Reply, World, Answer, replies, raises, Answer-cases}
use simcrs.Exec.{Result, ok, err, Exec, pure, lift, when, from_answer, continue, ◌>>=◌}
use simcrs.Memory.{Memory}
use simcrs.Program.{Program, ask}
use simcrs.Program.Attempt.{IsReply, attempt, called, attempt-memory, attempt-append}
use simcrs.Program.Only.{Raises}

-- Each call has a reply, whatever was called before.
abbrev pub Replying : {S : Stdair} → World S → Type 0
Replying {S} world = (h : List (Call S)) (c : Call S) → IsReply (world h c)

pub Replying-Raises : {S : Stdair} (world : World S) → Replying world → Raises world (λ e. ⊥)
Replying-Raises world replying h c what e = subst IsReply e (replying h c)

module _ {S : Stdair} (world : World S) where
  -- From a memory with `Q`, `m` makes the calls `cs` up to the first that raises an exception, and
  -- changes nothing else.
  pub record Traces (Q : Memory → Type 0) (cs : List (Call S)) (m : Exec (Program S) (Unit {0}))
      : Type 0 where
    pub run : (s : Program S) → Q s.memory → m s ≡ attempt world cs s

  module _ {Q : Memory → Type 0} where
    pub Traces-pure : Traces Q [] (pure tt)
    unfolding attempt
    Traces-pure = record { run = λ s q. refl }

    pub Traces-known :
        {A : Type 0} {r : Result A} {cs : List (Call S)} (f : A → Exec (Program S) (Unit {0}))
        (a : A)
        → r ≡ ok a
        → Traces Q cs (f a)
        → Traces Q cs (lift r >>= f)
    unfolding ◌>>=◌
    Traces-known f a e t = record { run = λ s q. rw e (t.run s q) }

    pub Traces-ask :
        (c : Call S) {f : Reply c → Exec (Program S) (Unit {0})} {cs : List (Call S)}
        → ((r : Reply c) → Traces Q cs (f r))
        → Traces Q (c ∷ cs) (ask world c >>= f)
    unfolding attempt ask ◌>>=◌
    Traces-ask c {f} {cs} t = record {
      run = λ s q. elim (Answer-cases (world s.history c)) [
        | inl (r, e) ↦ rw e ((t r).run (called world s (c ∷ [])) q)
        | inr (what, e) ↦ rw e refl
      ];
    }

    -- A call alone, of which only the end counts.
    pub Traces-call :
        (c : Call S) (m : Exec (Program S) (Unit {0}))
        → ((s : Program S) → m s ≡ (ask world c >>= λ _. pure tt) s)
        → Traces Q (c ∷ []) m
    unfolding attempt
    Traces-call c m e = record { run = λ s q. e s }

    pub Traces-then :
        {m n : Exec (Program S) (Unit {0})} {cs ds : List (Call S)}
        → Traces Q cs m
        → Traces Q ds n
        → Traces Q (cs ++ ds) (m >>= λ _. n)
    unfolding ◌>>=◌
    Traces-then {n} {cs} {ds} t u = record {
      run = λ s q. rw (t.run s q) (
          go (attempt world cs s).0 (attempt world cs s).1
            (subst Q (sym (attempt-memory world cs s)) q)
          ∙ sym (attempt-append world cs ds s));
    }
      where
        go :
            (r : Result (Unit {0})) (s : Program S)
            → Q s.memory
            → continue r (λ _. n) s ≡ continue r (λ _. attempt world ds) s
        go (ok x) s q = u.run s q
        go (err e) s q = refl

    pub Traces-when :
        {m : Exec (Program S) (Unit {0})} {cs : List (Call S)} (b : Bool)
        → Traces Q cs m
        → Traces Q (if b then cs else []) (when b m)
    Traces-when true t = t
    Traces-when false t = Traces-pure

pub ruleset traces_rules = (Traces-pure, Traces-ask, Traces-then, Traces-when)

-- A call without a result, and nothing after it.
pub then_nothing :
    {S : Type 0} (a : Answer (Unit {0})) (t : S)
    → (from_answer a, t) ≡ continue (from_answer a) (λ _. pure tt) t
unfolding pure
then_nothing (replies x) t = refl
then_nothing (raises what) t = refl
