-- ===== src/Program/Keeps.antt =====
-- What a function keeps true of the objects of SimCRS, by one rule for each way to build a function.
use simcrs.Base.{Bool, true, false, if◌then◌else◌}
use simcrs.Stdair.{Stdair}
use simcrs.Calls.{Call, World}
use simcrs.Exec.{Result, ok, err, Exec, pure, lift, reads, continue, ◌>>=◌}
use simcrs.Memory.{Memory}
use simcrs.Program.{Program, ask, in_memory}

-- However `m` ends, `P` holds of the objects if it did before.
pub record Keeps {S : Stdair} {A : Type 0} (P : Memory → Type 0) (m : Exec (Program S) A)
    : Type 0 where
  pub keep : (s : Program S) → P s.memory → P (m s).1.memory

module _ {S : Stdair} {P : Memory → Type 0} where
  pub Keeps-bind :
      {A B : Type 0} (m : Exec (Program S) A) (f : A → Exec (Program S) B)
      → Keeps P m
      → ((a : A) → Keeps P (f a))
      → Keeps P (m >>= f)
  unfolding ◌>>=◌
  Keeps-bind {A} m f k l = record { keep = λ s q. go (m s).0 (m s).1 (k.keep s q) }
    where
      go : (r : Result A) (s : Program S) → P s.memory → P (continue r f s).1.memory
      go (ok a) s q = (l a).keep s q
      go (err e) s q = q

  pub Keeps-lift : {A : Type 0} (r : Result A) → Keeps {S = S} P (lift r)
  unfolding lift
  Keeps-lift r = record { keep = λ s q. q }

  pub Keeps-pure : {A : Type 0} (a : A) → Keeps {S = S} P (pure a)
  unfolding pure
  Keeps-pure a = record { keep = λ s q. q }

  pub Keeps-ask : (world : World S) (c : Call S) → Keeps {S = S} P (ask world c)
  unfolding ask
  Keeps-ask world c = record { keep = λ s q. q }

  pub Keeps-reads : {A : Type 0} (r : Memory → Result A) → Keeps {S = S} P (in_memory (reads r))
  unfolding in_memory reads
  Keeps-reads r = record { keep = λ s q. q }

  -- `if`, on whatever is known of the test.
  pub Keeps-if :
      {A : Type 0} (b : Bool) (m n : Exec (Program S) A)
      → Keeps P m
      → Keeps P n
      → Keeps P (if b then m else n)
  Keeps-if true m n k l = k
  Keeps-if false m n k l = l

pub ruleset keeps_rules = (Keeps-pure, Keeps-if, Keeps-lift, Keeps-ask, Keeps-reads, Keeps-bind)
