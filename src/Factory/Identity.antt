-- ===== src/Factory/Identity.antt =====
-- simcrs/factory/FacBomAbstract.cpp: the identities of business objects. `boost::hash` on an address
-- is an argument.
pub mod Decimal
use Prim.Native.Char.{Char}
use simcrs.Base.{ℕ, zero, suc, ◌/◌, ◌%◌, ◌^◌, some, String, ltb, if◌then◌else◌}
use simcrs.Memory.{Address, Ptr}

abbrev pub digit : ℕ → Char
digit zero = "0"
digit (suc zero) = "1"
digit (suc (suc zero)) = "2"
digit (suc (suc (suc zero))) = "3"
digit (suc (suc (suc (suc zero)))) = "4"
digit (suc (suc (suc (suc (suc zero))))) = "5"
digit (suc (suc (suc (suc (suc (suc zero)))))) = "6"
digit (suc (suc (suc (suc (suc (suc (suc zero))))))) = "7"
digit (suc (suc (suc (suc (suc (suc (suc (suc zero)))))))) = "8"
digit (suc (suc (suc (suc (suc (suc (suc (suc (suc n))))))))) = "9"

-- The digits of a number before `out`, with at most `rounds` digits.
unfoldable pub digits : (rounds : ℕ) → ℕ → String → String
digits zero n out = out
digits (suc rounds) n out =
    let shown = String.◌∷◌ (digit (n % 10)) out in
    let more = digits rounds (n / 10) shown in if ltb n 10 then shown else more

-- A `std::size_t`, which is below 2 ^ 64, on a stream. It has at most 20 digits.
unfoldable pub decimal : ℕ → String
unfolding digits
decimal n = digits 20 n ""

module _ (hash : Ptr → ℕ) where
  -- `getID` and `getIDString` by pointer and by reference
  unfoldable pub get_id : Ptr → ℕ
  get_id p = hash p

  unfoldable pub get_id_of_reference : Address → ℕ
  unfolding get_id
  get_id_of_reference a = get_id (some a)

  unfoldable pub get_id_string : Ptr → String
  unfolding get_id decimal
  get_id_string p = decimal (get_id p)

  unfoldable pub get_id_string_of_reference : Address → String
  unfolding get_id_string
  get_id_string_of_reference a = get_id_string (some a)
