-- ===== src/Factory/Identity/Decimal.antt =====
-- An identity is read back from its text.
use Prim.Native.Char.{code}
use simcrs.Base.{
  ℕ, zero, suc, ◌+◌, ◌-◌, ◌*◌, ◌/◌, ◌%◌, ◌^◌, ◌<◌, ◌≡◌, refl, some, String, ltb, arith, ap, ◌∙◌,
  Bool-cases, inl, inr,
}
use simcrs.Memory.{Address, Ptr}
use simcrs.Factory.Identity.{
  digit, digits, decimal, get_id, get_id_of_reference, get_id_string, get_id_string_of_reference,
}

-- The number that the digits of a text spell behind `n`.
unfoldable pub value : ℕ → String → ℕ
value n String.[] = n
value n (String.◌∷◌ c s) = value (n * 10 + (code c - 48)) s

-- The numbers of at most `k` digits.
unfoldable pub power_of_ten : ℕ → ℕ
power_of_ten zero = 1
power_of_ten (suc k) = 10 * power_of_ten k

code-digit : (d : ℕ) → d < 10 → code (digit d) - 48 ≡ d
code-digit zero h = refl
code-digit (suc zero) h = refl
code-digit (suc (suc zero)) h = refl
code-digit (suc (suc (suc zero))) h = refl
code-digit (suc (suc (suc (suc zero)))) h = refl
code-digit (suc (suc (suc (suc (suc zero))))) h = refl
code-digit (suc (suc (suc (suc (suc (suc zero)))))) h = refl
code-digit (suc (suc (suc (suc (suc (suc (suc zero))))))) h = refl
code-digit (suc (suc (suc (suc (suc (suc (suc (suc zero)))))))) h = refl
code-digit (suc (suc (suc (suc (suc (suc (suc (suc (suc n))))))))) h = omega arith

value-digits :
    (rounds n : ℕ) (out : String)
    → n < power_of_ten rounds
    → value 0 (digits rounds n out) ≡ value n out
unfolding value digits power_of_ten
value-digits zero n out h = ap (λ m. value m out) (omega arith)
value-digits (suc rounds) n out h = elim (Bool-cases (ltb n 10)) [
  | inl small ↦ rw small (ap (λ m. value m out) (ground (arith, code-digit (n % 10))))
  | inr large ↦ rw large (
      value-digits rounds (n / 10) _ (omega arith)
      ∙ ap (λ m. value m out) (omega (arith, code-digit (n % 10) (omega arith))))
]

-- Where `boost::hash` gives a `std::size_t`, the text of an object's identity spells the identity, by
-- pointer and by reference.
pub value-get_id_string :
    (hash : Ptr → ℕ) (a : Address)
    → hash (some a) < 2 ^ 64
    → (value 0 (get_id_string hash (some a)) ≡ get_id hash (some a))
      × (value 0 (get_id_string_of_reference hash a) ≡ get_id_of_reference hash a)
unfolding get_id_string_of_reference get_id_of_reference decimal power_of_ten value
value-get_id_string hash a h = let e = value-digits 20 (hash (some a)) "" (omega arith) in (e, e)
