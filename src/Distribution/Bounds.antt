-- ===== src/Distribution/Bounds.antt =====
-- How often `DistributionManager::sell` asks AirInv for each leg, however it ends.
use simcrs.Base.{
  ℕ, suc, ◌≤◌, String, Bool, false, Option, none, some, List, [], ◌∷◌, map, ◌≡◌, refl, ap, ◌∙◌,
  ◌++◌, subst, arith, length, inl, inr, Option-cases,
}
use simcrs.Stdair.{Stdair}
use simcrs.Calls.{Handle, World}
use simcrs.Exec.{Fault, Result, Result-cases, ok, err, pure, lift, continue, ◌>>=◌}
use simcrs.Program.{Program}
use simcrs.Program.Rounds.{Rounds-exist, asked}
use simcrs.Distribution.{first_class, find, sell}
use simcrs.Distribution.Plan.{Sale, by_class, by_segment, order}
use simcrs.Distribution.Reference.{
  Leg, mapped, keyed, Planned, plan_legs, legs_beside, legs_of, plan_of, close, carry_out,
  sell-planned,
}
use simcrs.Distribution.Sales.{answer, after, place_all-Rounds}

-- The legs of a travel solution, as `sell` counts them.
abbrev pub legs : (S : Stdair) → S.TravelSolution → ℕ
legs S t = elim (S.get_class_object_id_map_holder t) [
  | [] ↦ length (S.get_segment_path t)
  | ids ∷ holder ↦ suc (length holder)
]

-- A sale of this leg, in the first class of its class list.
abbrev pub IsSaleOf : {S : Stdair} → Leg S → String → Sale S → Type 0
IsSaleOf (mapped ids) classes (by_class id) =
    (code : String) × (first_class classes ≡ ok code) × (find code ids ≡ some id)
IsSaleOf (keyed key) classes (by_segment key' code) = (key' ≡ key) × (first_class classes ≡ ok code)
IsSaleOf _ _ _ = ⊥

-- One sale of each of the first legs, in order, and none of the others.
pub data SalesOf {S : Stdair} : List (Leg S) → List String → List (Sale S) → Type 0 where
  stop : {ls : List (Leg S)} {path : List String} → SalesOf ls path []
  once :
      {l : Leg S} {ls : List (Leg S)} {classes : String} {path : List String} {x : Sale S}
      {xs : List (Sale S)}
      → IsSaleOf l classes x
      → SalesOf ls path xs
      → SalesOf (l ∷ ls) (classes ∷ path) (x ∷ xs)

length-map : {A B : Type 0} (f : A → B) (xs : List A) → length (map f xs) ≡ length xs
length-map f [] = refl
length-map f (x ∷ xs) = ap suc (length-map f xs)

legs_beside-length :
    (S : Stdair) (holder : List (List (String × S.BookingClassId))) (keys : List String)
    → length (legs_beside {S = S} holder keys)
      ≡ elim holder [ [] ↦ length keys | ids ∷ rest ↦ suc (length rest) ]
legs_beside-length S [] keys = length-map keyed keys
legs_beside-length S (ids ∷ holder) keys = length-map mapped (ids ∷ holder)

module _ {S : Stdair} where
  SalesOf-length :
      {ls : List (Leg S)} {path : List String} {xs : List (Sale S)}
      → SalesOf ls path xs
      → length xs ≤ length ls
  SalesOf-length stop = omega arith
  SalesOf-length (once e rest) = let shorter = SalesOf-length rest in omega arith

  -- To ask for fewer sales is still once for each of the first legs.
  asked-SalesOf :
      (e : Option String) {ls : List (Leg S)} {path : List String} {xs : List (Sale S)}
      → SalesOf ls path xs
      → (bs : List Bool) → SalesOf ls path (asked e xs bs)
  asked-SalesOf none h bs = h
  asked-SalesOf (some what) stop bs = stop
  asked-SalesOf (some what) (once e rest) [] = once e stop
  asked-SalesOf (some what) (once e rest) (b ∷ bs) = once e (asked-SalesOf (some what) rest bs)

  -- What is read of a travel solution is such a row of sales.
  plan_legs-SalesOf :
      (ls : List (Leg S)) (path : List String) → SalesOf ls path (plan_legs ls path).0
  plan_legs-SalesOf [] path = stop
  plan_legs-SalesOf (l ∷ ls) [] = stop
  plan_legs-SalesOf (mapped ids ∷ ls) (classes ∷ path) = elim (Result-cases (first_class classes)) [
    | inr (e, f) ↦ rw f stop
    | inl (code, f) ↦ elim (Option-cases (find code ids)) [
      | inl g ↦ rw (f, g) stop
      | inr (id, g) ↦ rw (f, g) (once (code, f, g) (plan_legs-SalesOf ls path))
    ]
  ]
  plan_legs-SalesOf (keyed key ∷ ls) (classes ∷ path) = elim (Result-cases (first_class classes)) [
    | inr (e, f) ↦ rw f stop
    | inl (code, f) ↦ rw f (once (refl, f) (plan_legs-SalesOf ls path))
  ]

module _ {S : Stdair} (inv : Handle) (n : ℕ) where
  -- From `s` to `s'`, the calls are at most one sale of each leg of `t`, for `n` seats, in order and
  -- without a gap, and no object changes.
  pub record AtMost (t : S.TravelSolution) (s s' : Program S) : Type 0 where
    pub sales : List (Sale S)
    pub each : SalesOf (legs_of t) (S.get_class_path (S.get_chosen_fare_option t)) sales
    pub few : length sales ≤ legs S t
    pub end : s' ≡ record s { history = s.history ++ map (order inv n) sales }

  module _ (world : World S) where
    -- The end of the reference, which makes no call.
    close-state : (e : Option Fault) (b : Bool) (s : Program S) → (close world inv n e b s).1 ≡ s
    unfolding pure lift
    close-state none b s = refl
    close-state (some e) b s = refl

    continue-state :
        (e : Option Fault) (r : Result Bool) (s : Program S)
        → (continue r (close world inv n e) s).1 ≡ s
    continue-state e (ok b) s = close-state e b s
    continue-state e (err f) s = refl

    carry_out-after :
        (b : Bool) (p : Planned S) (s : Program S)
        → (e : Option String) × (bs : List Bool) × ((carry_out world inv n b p s).1
            ≡ after world inv n s (asked e p.0 bs))
    unfolding carry_out ◌>>=◌
    carry_out-after b p s =
        let (e, bs, v) = Rounds-exist (order inv n) (answer world inv n) s.history p.0 in
        (
          e,
          bs,
          continue-state p.1 _ _ ∙ ap (λ r. r.1) (place_all-Rounds world inv n e b p.0 bs s v),
        )

    -- However `sell` ends, with a failed assertion or an exception too, it has asked AirInv for one
    -- sale of each of the first legs of the solution, in order, each in the first class of that leg's
    -- class list and for the party's size, and for nothing else: at most once for each leg.
    pub sell-AtMost : (t : S.TravelSolution) (s : Program S) → AtMost t s (sell world inv t n s).1
    sell-AtMost t s =
        let (e, bs, same) = carry_out-after false (plan_of {S = S} t) s in
        let path = S.get_class_path (S.get_chosen_fare_option t) in
        let each = asked-SalesOf e (plan_legs-SalesOf (legs_of {S = S} t) path) bs in
        record {
          sales = asked e (plan_of {S = S} t).0 bs;
          each = each;
          few =
              subst (λ k. length (asked e (plan_of {S = S} t).0 bs) ≤ k)
                (legs_beside-length S (S.get_class_object_id_map_holder t) (S.get_segment_path t))
                (SalesOf-length each);
          end = ap (λ r. r.1) (sell-planned world inv n t s) ∙ same;
        }
