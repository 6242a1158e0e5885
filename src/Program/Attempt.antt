-- ===== src/Program/Attempt.antt =====
-- Calls of other components in a row, of which the answers do not matter.
use simcrs.Base.{
  List, [], ◌∷◌, ◌++◌, ◌≡◌, refl, sym, ap, ◌∙◌, subst, append_assoc, append-nil, inl, inr,
}
use simcrs.Stdair.{Stdair}
use simcrs.Calls.{Call, World, Answer, replies, raises, Answer-cases}
use simcrs.Exec.{ok, Exec, pure, ◌>>=◌}
use simcrs.Program.{Program, ask}

abbrev pub IsReply : {A : Type 0} → Answer A → Type 0
IsReply (replies a) = Unit {0}
IsReply (raises what) = ⊥

module _ {S : Stdair} (world : World S) where
  -- The calls one after the other, up to the first that raises an exception, which comes out.
  unfoldable pub attempt : List (Call S) → Exec (Program S) (Unit {0})
  unfolding ask ◌>>=◌
  attempt [] = pure tt
  attempt (c ∷ cs) = ask world c >>= λ _. attempt cs

  -- Each of the calls, one after the other, has a reply.
  abbrev pub Answered : List (Call S) → List (Call S) → Type 0
  Answered h [] = Unit {0}
  Answered h (c ∷ cs) = IsReply (world h c) × Answered (h ++ c ∷ []) cs

  abbrev pub called : Program S → List (Call S) → Program S
  called s cs = record s { history = s.history ++ cs }

  called-nil : (s : Program S) → called s [] ≡ s
  called-nil s = ap (λ h. record s { history = h }) (append-nil s.history)

  called-cons :
      (s : Program S) (c : Call S) (cs : List (Call S))
      → called (called s (c ∷ [])) cs ≡ called s (c ∷ cs)
  called-cons s c cs = ap (λ h. record s { history = h }) (append_assoc s.history (c ∷ []) cs)

  pub attempt-memory : (cs : List (Call S)) (s : Program S) → (attempt cs s).1.memory ≡ s.memory
  unfolding attempt
  attempt-memory [] s = refl
  attempt-memory (c ∷ cs) s = elim (Answer-cases (world s.history c)) [
    | inl (r, e) ↦ rw e (attempt-memory cs (called s (c ∷ [])))
    | inr (what, e) ↦ rw e refl
  ]

  pub attempt-append :
      (cs ds : List (Call S)) (s : Program S)
      → attempt (cs ++ ds) s ≡ (attempt cs >>= λ _. attempt ds) s
  unfolding attempt
  attempt-append [] ds s = refl
  attempt-append (c ∷ cs) ds s = elim (Answer-cases (world s.history c)) [
    | inl (r, e) ↦ rw e (attempt-append cs ds (called s (c ∷ [])))
    | inr (what, e) ↦ rw e refl
  ]

  pub attempt-Answered :
      (cs : List (Call S)) (s : Program S)
      → Answered s.history cs
      → attempt cs s ≡ (ok tt, called s cs)
  unfolding attempt
  attempt-Answered [] s v = ap (λ t. (ok tt, t)) (sym (called-nil s))
  attempt-Answered (c ∷ cs) s v = elim (Answer-cases (world s.history c)) [
    | inl (r, e) ↦
        rw e
          (attempt-Answered cs (called s (c ∷ [])) v.1 ∙ ap (λ t. (ok tt, t)) (called-cons s c cs))
    | inr (what, e) ↦ absurd (subst IsReply e v.0)
  ]
