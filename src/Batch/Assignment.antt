-- ===== src/Batch/Assignment.antt =====
-- What `readConfiguration` does to the variables of the options.
use simcrs.Base.{
  ℕ, zero, suc, String, Bool, true, false, Option, some, List, [], ◌∷◌, ◌≡◌, refl, sym, ap, ◌∙◌,
  arith, if◌then◌else◌, All, Bool-cases, inl, inr,
}
use simcrs.Batch.Options.{
  Build, Setting, schedule, ond, frat5, ff_disutility, yield, fare, log, user, passwd, host, port,
  dbname, Kind, switch, texts, value_of, OptionSpec, config_options,
}
use simcrs.Batch.Configuration.{index, same, Settings, assign, assign_value, assign_all}

-- The setting with an index, and the last one for greater numbers.
setting_at : ℕ → Setting
setting_at zero = schedule
setting_at (suc zero) = ond
setting_at (suc (suc zero)) = frat5
setting_at (suc (suc (suc zero))) = ff_disutility
setting_at (suc (suc (suc (suc zero)))) = yield
setting_at (suc (suc (suc (suc (suc zero))))) = fare
setting_at (suc (suc (suc (suc (suc (suc zero)))))) = log
setting_at (suc (suc (suc (suc (suc (suc (suc zero))))))) = user
setting_at (suc (suc (suc (suc (suc (suc (suc (suc zero)))))))) = passwd
setting_at (suc (suc (suc (suc (suc (suc (suc (suc (suc zero))))))))) = host
setting_at (suc (suc (suc (suc (suc (suc (suc (suc (suc (suc zero)))))))))) = port
setting_at (suc (suc (suc (suc (suc (suc (suc (suc (suc (suc (suc n))))))))))) = dbname

setting_at-index : (s : Setting) → setting_at (index s) ≡ s
unfolding setting_at
setting_at-index schedule = refl
setting_at-index _ = refl

same-eq : (s t : Setting) → same s t ≡ true → s ≡ t
same-eq s t h = sym (setting_at-index s) ∙ ap setting_at (ground (arith, h)) ∙ setting_at-index t

-- To assign its final value to a variable.
pub assign-settled :
    (x y : Settings) (s t : Setting) (v : String) → v ≡ x s → y t ≡ x t → assign s v y t ≡ x t
assign-settled x y s t v ev e = elim (Bool-cases (same s t)) [
  | inl h ↦ rw h (ev ∙ ap x (same-eq s t h))
  | inr h ↦ rw h e
]

-- Whether an option is for a variable, and whether a table has one that is.
abbrev is_for : Setting → Kind → Bool
is_for t (value_of s d) = same s t
is_for t switch = false
is_for t texts = false

pub mentions : Setting → List OptionSpec → Bool
mentions t [] = false
mentions t (o ∷ os) = if is_for t o.kind then true else mentions t os

-- An option with a value for a variable is notified with that variable's final value.
abbrev pub Notifies : Settings → Kind → Option String → Type 0
Notifies x (value_of s d) v = v ≡ some (x s)
Notifies x switch v = Unit {0}
Notifies x texts v = Unit {0}

assign_value-at :
    (x y : Settings) (k : Kind) (v : Option String) (t : Setting) (rest : Bool)
    → Notifies x k v
    → (if rest then x t else assign_value k v y t)
      ≡ (if (if is_for t k then true else rest) then x t else y t)
assign_value-at x y switch v t rest h = refl
assign_value-at x y texts v t rest h = refl
assign_value-at x y (value_of s d) v t true h = ground arith
assign_value-at x y (value_of s d) v t false h = elim (Bool-cases (same s t)) [
  | inl e ↦ rw (h, e) (ap x (same-eq s t e))
  | inr e ↦ rw (h, e) refl
]

pub assign_all-at :
    (values : String → Option String) (x y : Settings) (os : List OptionSpec) (t : Setting)
    → All (λ o. Notifies x o.kind (values o.long)) os
    → assign_all values os y t ≡ (if mentions t os then x t else y t)
unfolding assign_all mentions
assign_all-at values x y [] t h = refl
assign_all-at values x y (o ∷ os) t h =
    assign_all-at values x (assign_value o.kind (values o.long) y) os t h.1
    ∙ assign_value-at x y o.kind (values o.long) t (mentions t os) h.0

pub mentions-config_options :
    (build : Build) (t : Setting) → mentions t (config_options build) ≡ true
unfolding mentions config_options
mentions-config_options build schedule = refl
mentions-config_options build _ = refl
