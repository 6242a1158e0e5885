-- ===== src/Distribution/Exact.antt =====
-- When `DistributionManager::sell` returns, backwards from its result.
use simcrs.Base.{
  Option, some, String, Bool, false, none, List, [], ◌∷◌, map, ℕ, ◌≡◌, refl, sym, ap, ◌∙◌, ◌↔◌, inl,
  inr, Option-cases, last_or, arith,
}
use simcrs.Stdair.{Stdair}
use simcrs.Calls.{Handle, World}
use simcrs.Exec.{Result-cases, Result, ok, lift, pure, ◌>>=◌}
use simcrs.Program.{Program}
use simcrs.Program.Rounds.{Rounds, Rounds-exist}
use simcrs.Distribution.{first_class, find, sell}
use simcrs.Distribution.Plan.{order, Sale, ClassSales, SegmentSales, LegSales, Plans, done, leg}
use simcrs.Distribution.Reference.{
  mapped, keyed, Planned, legs_beside, plan_legs, plan_of, carry_out, sell-planned,
}
use simcrs.Distribution.Sales.{answer, Sold, after, place_all-Rounds, sell-Sold}

-- A solution that reads well plans what is read.
module _ (S : Stdair) where
  plan-ClassSales :
      (holder : List (List (String × S.BookingClassId))) (path : List String)
      → (plan_legs {S = S} (map mapped holder) path).1 ≡ none
      → ClassSales {S = S} holder path (plan_legs (map mapped holder) path).0
  plan-ClassSales [] path h = done
  plan-ClassSales (ids ∷ holder) [] h = absurd (cc)
  plan-ClassSales (ids ∷ holder) (classes ∷ path) h = elim (Result-cases (first_class classes)) [
    | inr (e, f) ↦ absurd (ground (arith, h, f))
    | inl (code, f) ↦ elim (Option-cases (find code ids)) [
      | inl g ↦ absurd (ground (arith, h, f, g))
      | inr (id, g) ↦ rw (f, g) (leg f g (plan-ClassSales holder path (ground (arith, h, f, g))))
    ]
  ]

  plan-SegmentSales :
      (keys path : List String)
      → (plan_legs {S = S} (map keyed keys) path).1 ≡ none
      → SegmentSales {S = S} keys path (plan_legs (map keyed keys) path).0
  plan-SegmentSales [] path h = done
  plan-SegmentSales (key ∷ keys) [] h = absurd (cc)
  plan-SegmentSales (key ∷ keys) (classes ∷ path) h = elim (Result-cases (first_class classes)) [
    | inr (e, f) ↦ absurd (ground (arith, h, f))
    | inl (code, f) ↦ rw f (leg f (plan-SegmentSales keys path (ground (arith, h, f))))
  ]

  plan-LegSales :
      (holder : List (List (String × S.BookingClassId))) (keys path : List String)
      → (plan_legs {S = S} (legs_beside holder keys) path).1 ≡ none
      → LegSales {S = S} holder keys path (plan_legs (legs_beside holder keys) path).0
  plan-LegSales [] keys path h = plan-SegmentSales keys path h
  plan-LegSales (ids ∷ holder) keys path h = plan-ClassSales (ids ∷ holder) path h

plan_of-Plans :
    (S : Stdair) (t : S.TravelSolution)
    → (plan_of {S = S} t).1 ≡ none
    → Plans {S = S} t (plan_of {S = S} t).0
plan_of-Plans S t h = plan-LegSales S _ _ _ h

-- Two ways to return are the same with the same result and the same end.
returned-parts :
    {A B : Type 0} (a a' : A) (s s' : B)
    → ◌≡◌ {A = Result A × B} (ok a, s) (ok a', s')
    → (a ≡ a') × (s ≡ s')
returned-parts a a' s s' e = (cc, ap (λ q. q.1) e)

module _ {S : Stdair} (world : World S) (inv : Handle) (n : ℕ) where
  -- The sales `xs` are made from `s` to `s'`, and the last answer is `b`.
  pub record IsMade (xs : List (Sale S)) (s : Program S) (b : Bool) (s' : Program S) : Type 0 where
    pub answers : List Bool
    pub sold : Sold world inv n s.history xs answers
    pub last : b ≡ last_or false answers
    pub end : s' ≡ after world inv n s xs

  carry_out-Rounds :
      (e : Option String) (bs : List Bool) (p : Planned S) (s s' : Program S) (b : Bool)
      → Rounds (order inv n) (answer world inv n) e s.history p.0 bs
      → carry_out world inv n false p s ≡ (ok b, s')
      → (p.1 ≡ none) × IsMade p.0 s b s'
  unfolding carry_out lift pure ◌>>=◌
  carry_out-Rounds (some what) bs p s s' b v h =
      absurd (ground (arith, h, place_all-Rounds world inv n (some what) false p.0 bs s v))
  carry_out-Rounds none bs p s s' b v h = elim (Option-cases p.1) [
    | inr (f, e) ↦ absurd (ground (arith, h, e, place_all-Rounds world inv n none false p.0 bs s v))
    | inl e ↦
        let (last, end) =
          returned-parts b (last_or false bs) s' (after world inv n s p.0)
            (sym h ∙ rw (place_all-Rounds world inv n none false p.0 bs s v, e) refl) in
        (e, record { answers = bs; sold = v; last = last; end = end })
  ]

  carry_out-returned :
      (p : Planned S) (s s' : Program S) (b : Bool)
      → carry_out world inv n false p s ≡ (ok b, s')
      → (p.1 ≡ none) × IsMade p.0 s b s'
  carry_out-returned p s s' b h =
      let (e, bs, v) = Rounds-exist (order inv n) (answer world inv n) s.history p.0 in
      carry_out-Rounds e bs p s s' b v h

  -- `sell` returns exactly where the travel solution, with its chosen fare option, plans sales and
  -- AirInv answers each of them; it returns the last of the answers then, false where nothing is
  -- planned, and has called AirInv once for each sale, in order, and nothing else.
  pub sell-exact :
      (t : S.TravelSolution) (s : Program S) (b : Bool) (s' : Program S)
      → (sell world inv t n s ≡ (ok b, s')) ↔ ((xs : List (Sale S)) × Plans t xs × IsMade xs s b s')
  sell-exact t s b s' = (
    λ h.
        let (e, made) =
          carry_out-returned (plan_of {S = S} t) s s' b (sym (sell-planned world inv n t s) ∙ h) in
        ((plan_of {S = S} t).0, plan_of-Plans S t e, made),
    λ (xs, plan, made).
        rw (made.last, made.end) (sell-Sold world inv n t xs made.answers s plan made.sold),
  )
