-- ===== src/Stream.antt =====
-- simcrs/bom/BomAbstract.hpp and simcrs/service/ServiceAbstract.hpp: the operators by which an object
-- is written on a stream. Of a stream the model has the text, the field width, the fill character and
-- the adjustment. The virtual methods of an object are arguments.
pub mod Field
use Prim.Native.Char.{Char}
use Prim.Native.String.{◌++◌ as ◌<>◌, len}
use simcrs.Base.{ℕ, zero, suc, ◌-◌, String, Bool, if◌then◌else◌}

pub record OutStream : Type 0 where
  pub text : String
  pub width : ℕ
  pub fill : Char
  pub is_left : Bool

unfoldable pub padding : Char → ℕ → String
padding c zero = ""
padding c (suc n) = String.◌∷◌ c (padding c n)

-- The standard operator on a `std::string`: one field, after which the width is 0 again.
unfoldable pub put : String → OutStream → OutStream
unfolding padding
put t o =
    let pad = padding o.fill (o.width - len t) in
    record o { text = o.text <> (if o.is_left then t <> pad else pad <> t); width = 0 }

-- `operator<<` on a `BomAbstract`: its dump on a string stream of the same format, without the width,
-- and then that as one string.
unfoldable pub put_bom : (to_stream : OutStream → OutStream) → OutStream → OutStream
unfolding put
put_bom to_stream o = put (to_stream (record o { text = ""; width = 0 })).text o

-- The same on a `ServiceAbstract`.
unfoldable pub put_service : (to_stream : OutStream → OutStream) → OutStream → OutStream
unfolding put
put_service to_stream o = put (to_stream (record o { text = ""; width = 0 })).text o

-- `ServiceAbstract::toStream`, which a service context does not override.
unfoldable pub service_to_stream : OutStream → OutStream
service_to_stream o = o

module _ {I B : Type 0} (from_stream : I → B → I × B) where
  -- `operator>>` on a `BomAbstract` and on a `ServiceAbstract`.
  unfoldable pub get_bom : I → B → I × B
  get_bom i b = from_stream i b

  unfoldable pub get_service : I → B → I × B
  get_service i b = from_stream i b
