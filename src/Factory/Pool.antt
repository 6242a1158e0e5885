-- ===== src/Factory/Pool.antt =====
-- Pools of pointers, and the loops of `clean` over them.
use simcrs.Base.{
  ◌==◌, true, false, none, some, List, [], ◌∷◌, ◌++◌, ◌≡◌, refl, arith, if◌then◌else◌, is_some,
  Option-cases, inl, inr, ◌∙◌, ap, sym,
}
use mathlib.Core.Path.{fun_ext}
use simcrs.Exec.{ok, Exec, ◌>>=◌}
use simcrs.Memory.{Memory, Address, Ptr, Store, update}
use simcrs.Factory.Service.{delete_all}
use simcrs.Factory.Sound.{member, Distinct}

-- A store without the objects of a pool.
unfoldable pub without : {A : Type 0} → List Ptr → Store A → Store A
without ps f a = if member a ps then none else f a

pub member-append :
    (a : Address) (ps qs : List Ptr)
    → member a (ps ++ qs) ≡ (if member a ps then true else member a qs)
member-append a [] qs = refl
member-append a (none ∷ ps) qs = member-append a ps qs
member-append a (some b ∷ ps) qs = ground (arith, member-append a ps qs)

pub member-snoc :
    (a c : Address) (ps : List Ptr)
    → member a (ps ++ some c ∷ []) ≡ (if member a ps then true else c == a)
member-snoc a c [] = ground arith
member-snoc a c (none ∷ ps) = member-snoc a c ps
member-snoc a c (some b ∷ ps) = ground (arith, member-snoc a c ps)

pub Distinct-snoc :
    (c : Address) (ps : List Ptr) → Distinct ps → member c ps ≡ false → Distinct (ps ++ some c ∷ [])
Distinct-snoc c [] d h = (refl, tt)
Distinct-snoc c (none ∷ ps) d h = absurd d
Distinct-snoc c (some b ∷ ps) d h =
    (ground (arith, member-snoc b c ps), Distinct-snoc c ps d.1 (ground arith))

module _ {A : Type 0} where
  pub without-cons :
      (c : Address) (ps : List Ptr) (f : Store A)
      → without ps (update f c none) ≡ without (some c ∷ ps) f
  unfolding without
  without-cons c ps f = fun_ext λ a. ground arith

  pub without-append :
      (ps qs : List Ptr) (f : Store A) → without qs (without ps f) ≡ without (ps ++ qs) f
  unfolding without
  without-append ps qs f = fun_ext λ a. ground (arith, member-append a ps qs)

  pub without-outside :
      (a : Address) (ps : List Ptr) (f : Store A) → member a ps ≡ false → without ps f a ≡ f a
  unfolding without
  without-outside a ps f h = rw h refl

-- Two pools without a NULL or a common address, and no address twice in either.
pub record Apart (ps qs : List Ptr) : Type 0 where
  pub left : Distinct ps
  pub right : Distinct qs
  pub disjoint : (a : Address) → member a qs ≡ true → member a ps ≡ false

pub Distinct-append : (ps qs : List Ptr) → Distinct (ps ++ qs) → Apart ps qs
Distinct-append [] qs d = record { left = tt; right = d; disjoint = λ a h. refl }
Distinct-append (none ∷ ps) qs d = absurd d
Distinct-append (some b ∷ ps) qs d =
    let rest = Distinct-append ps qs d.1 in
    record {
      left = (ground (arith, d.0, member-append b ps qs), rest.left);
      right = rest.right;
      disjoint = λ a h. ground (arith, d.0, member-append b ps qs, rest.disjoint a h);
    }

-- A store of the memory.
pub record Part (A : Type 0) : Type 0 where
  pub get : Memory → Store A
  pub put : Memory → Store A → Memory
  pub get-put : (m : Memory) (f : Store A) → get (put m f) ≡ f
  pub put-put : (m : Memory) (f g : Store A) → put (put m f) g ≡ put m g
  pub put-get : (m : Memory) → put m (get m) ≡ m

module _ {A : Type 0} (p : Part A) (del : Ptr → Exec Memory (Unit {0})) where
  -- `del` removes a live object from its store, and does nothing else.
  abbrev pub Deletes : Type 0
  Deletes =
      (c : Address) (m : Memory) (x : A)
      → p.get m c ≡ some x
      → del (some c) m ≡ (ok tt, p.put m (update (p.get m) c none))

  -- The loop over a pool of live objects, each there once, deletes them all and never twice.
  pub delete_all-without :
      Deletes
      → (ps : List Ptr) (m : Memory) → Distinct ps
      → ((a : Address) → member a ps ≡ true → is_some (p.get m a) ≡ true)
      → delete_all del ps m ≡ (ok tt, p.put m (without ps (p.get m)))
  unfolding delete_all ◌>>=◌
  delete_all-without deletes [] m d live =
      unfold without in ap (λ k. (ok tt, k)) (sym (p.put-get m))
  delete_all-without deletes (none ∷ ps) m d live = absurd d
  delete_all-without deletes (some c ∷ ps) m d live = elim (Option-cases (p.get m c)) [
    | inl e ↦ absurd (ground (arith, live c))
    | inr (x, e) ↦
        let m' = p.put m (update (p.get m) c none) in
        let rest =
          delete_all-without deletes ps m' d.1
            (λ a h. rw (p.get-put m (update (p.get m) c none)) (ground (arith, live a, d.0))) in
        rw (deletes c m x e) (
          rest
          ∙ rw (p.get-put m (update (p.get m) c none), p.put-put m)
              (ap (λ f. (ok tt, p.put m f)) (without-cons c ps (p.get m))))
  ]
