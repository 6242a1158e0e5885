-- ===== src/Program/Rounds.antt =====
-- One call for each element of a list, in order, up to the first that raises an exception.
use simcrs.Base.{
  String, Option, none, some, List, [], ◌∷◌, ◌++◌, map, ◌≡◌, refl, sym, ap, ◌∙◌, append_assoc,
  append-nil, inl, inr, last_or,
}
use simcrs.Stdair.{Stdair}
use simcrs.Calls.{Call, Answer, replies, raises, Answer-cases}
use simcrs.Exec.{Result, ok, err, thrown, from_answer, Exec, pure, ◌>>=◌, Result-cases}
use simcrs.Program.{Program}

-- The elements asked about: all of them, or those with an answer and the next, which raised.
abbrev pub asked : {X A : Type 0} → Option String → List X → List A → List X
asked none xs bs = xs
asked (some what) [] bs = []
asked (some what) (x ∷ xs) [] = x ∷ []
asked (some what) (x ∷ xs) (a ∷ bs) = x ∷ asked (some what) xs bs

-- A value, or the exception.
abbrev pub ends : {A : Type 0} → Option String → A → Result A
ends none a = ok a
ends (some what) a = err (thrown what)

-- The call for an element, and its answer after a history.
module _ {S : Stdair} {X A : Type 0} (order : X → Call S)
    (answer : List (Call S) → X → Answer A) where
  -- The elements are answered, one after the other, by the list, and then, if there is an exception in
  -- the first argument, the next raises that.
  abbrev pub Rounds : Option String → List (Call S) → List X → List A → Type 0
  Rounds none h [] [] = Unit {0}
  Rounds (some what) h [] [] = ⊥
  Rounds e h [] (a ∷ bs) = ⊥
  Rounds none h (x ∷ xs) [] = ⊥
  Rounds (some what) h (x ∷ xs) [] = answer h x ≡ raises what
  Rounds e h (x ∷ xs) (a ∷ bs) = (answer h x ≡ replies a) × Rounds e (h ++ order x ∷ []) xs bs

  Rounds-cons :
      (e : Option String) (h : List (Call S)) (x : X) (xs : List X) (a : A) (bs : List A)
      → answer h x ≡ replies a
      → Rounds e (h ++ order x ∷ []) xs bs
      → Rounds e h (x ∷ xs) (a ∷ bs)
  Rounds-cons none h x xs a bs f v = (f, v)
  Rounds-cons (some what) h x xs a bs f v = (f, v)

  -- Whatever the answers are, the rounds go to the end or to an exception.
  pub Rounds-exist :
      (h : List (Call S)) (xs : List X) → (e : Option String) × (bs : List A) × Rounds e h xs bs
  Rounds-exist h [] = (none, [], tt)
  Rounds-exist h (x ∷ xs) = elim (Answer-cases (answer h x)) [
    | inr (what, f) ↦ (some what, [], f)
    | inl (a, f) ↦
        let (e, bs, v) = Rounds-exist (h ++ order x ∷ []) xs in
        (e, a ∷ bs, Rounds-cons e h x xs a bs f v)
  ]

module _ {S : Stdair} where
  abbrev pub told : Program S → List (Call S) → Program S
  told s cs = record s { history = s.history ++ cs }

  told-nil : (s : Program S) → told s [] ≡ s
  told-nil s = ap (λ h. record s { history = h }) (append-nil s.history)

  told-cons :
      (s : Program S) (c : Call S) (cs : List (Call S))
      → told (told s (c ∷ [])) cs ≡ told s (c ∷ cs)
  told-cons s c cs = ap (λ h. record s { history = h }) (append_assoc s.history (c ∷ []) cs)

  module _ {X A : Type 0} (one : X → Exec (Program S) A) where
    -- The answers to the elements, one after the other.
    unfoldable pub collect : List X → Exec (Program S) (List A)
    unfolding ◌>>=◌
    collect [] = pure []
    collect (x ∷ xs) = do a ← one x; bs ← collect xs; pure (a ∷ bs)

    -- A loop that keeps the last answer.
    last-collect :
        (loop : A → List X → Exec (Program S) A)
        → ((a : A) (s : Program S) → loop a [] s ≡ (ok a, s))
        → ((a : A) (x : X) (xs : List X) (s : Program S)
            → loop a (x ∷ xs) s ≡ (one x >>= λ b. loop b xs) s)
        → (a : A) (xs : List X) (s : Program S)
        → loop a xs s ≡ (collect xs >>= λ bs. pure (last_or a bs)) s
    unfolding collect pure ◌>>=◌
    last-collect loop nil cons a [] s = nil a s
    last-collect loop nil cons a (x ∷ xs) s = cons a x xs s ∙ elim (Result-cases (one x s).0) [
      | inr (e, f) ↦ rw f refl
      | inl (b, f) ↦
          rw (f, last-collect loop nil cons b xs (one x s).1)
            (elim (Result-cases (collect xs (one x s).1).0) [
              | inr (e, g) ↦ rw g refl
              | inl (bs, g) ↦ rw g refl
            ])
    ]

    module _ (order : X → Call S) (answer : List (Call S) → X → Answer A)
        (asks : (x : X) (s : Program S)
          → one x s ≡ (from_answer (answer s.history x), told s (order x ∷ []))) where
      pub collect-Rounds :
          (e : Option String) (xs : List X) (bs : List A) (s : Program S)
          → Rounds order answer e s.history xs bs
          → collect xs s ≡ (ends e bs, told s (map order (asked e xs bs)))
      unfolding collect pure
      collect-Rounds none [] [] s v = ap (λ t. (ok [], t)) (sym (told-nil s))
      collect-Rounds (some what) [] [] s v = absurd v
      collect-Rounds e [] (b ∷ bs) s v = absurd v
      collect-Rounds none (x ∷ xs) [] s v = absurd v
      collect-Rounds (some what) (x ∷ xs) [] s v = rw (asks x s, v) refl
      collect-Rounds none (x ∷ xs) (b ∷ bs) s v =
          rw (asks x s, v.0, collect-Rounds none xs bs (told s (order x ∷ [])) v.1)
            (ap (λ t. (ok (b ∷ bs), t)) (told-cons s (order x) (map order xs)))
      collect-Rounds (some what) (x ∷ xs) (b ∷ bs) s v =
          rw (asks x s, v.0, collect-Rounds (some what) xs bs (told s (order x ∷ [])) v.1)
            (ap (λ t. (err (thrown what), t))
              (told-cons s (order x) (map order (asked (some what) xs bs))))

      -- The loop asks about each element, in order, up to an exception, and keeps the last answer.
      pub last-Rounds :
          (loop : A → List X → Exec (Program S) A)
          → ((a : A) (s : Program S) → loop a [] s ≡ (ok a, s))
          → ((a : A) (x : X) (xs : List X) (s : Program S)
              → loop a (x ∷ xs) s ≡ (one x >>= λ b. loop b xs) s)
          → (e : Option String) (a : A) (xs : List X) (bs : List A) (s : Program S)
          → Rounds order answer e s.history xs bs
          → loop a xs s ≡ (ends e (last_or a bs), told s (map order (asked e xs bs)))
      unfolding pure ◌>>=◌
      last-Rounds loop nil cons none a xs bs s v =
          last-collect loop nil cons a xs s ∙ rw (collect-Rounds none xs bs s v) refl
      last-Rounds loop nil cons (some what) a xs bs s v =
          last-collect loop nil cons a xs s ∙ rw (collect-Rounds (some what) xs bs s v) refl
