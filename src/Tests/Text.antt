-- ===== src/Tests/Text.antt =====
-- Texts: objects on a stream, and identities.
use Prim.Native.String.{len}
use simcrs.Base.{ℕ, false, some, none, [], ◌∷◌, ◌≡◌, refl, arith}
use simcrs.Memory.{Ptr}
use simcrs.Stream.{OutStream, put, put_bom, put_service, service_to_stream}
use simcrs.Batch.Vectors.{to_other, put_vector}
use simcrs.Stream.Field.{put_all, concat, put_bom-put, put_bom-len}
use simcrs.Factory.Identity.{get_id, get_id_of_reference, get_id_string, get_id_string_of_reference}
use simcrs.Factory.Identity.Decimal.{value, value-get_id_string}

-- A field of eight places, filled with dots on the left.
abbrev field : OutStream
field = record { text = "key: "; width = 8; fill = "."; is_left = false }

put_bom-put_example :
    (put_bom (put_all ("SV" ∷ ",5" ∷ [])) field ≡ put (concat ("SV" ∷ ",5" ∷ [])) field)
    × (put_service (put_all ("SV" ∷ ",5" ∷ [])) field ≡ put (concat ("SV" ∷ ",5" ∷ [])) field)
put_bom-put_example = put_bom-put ("SV" ∷ ",5" ∷ []) field

put_bom-len_example :
    (len (put_bom (put_all ("SV" ∷ ",5" ∷ [])) field).text ≡ 13)
    × ((put_bom (put_all ("SV" ∷ ",5" ∷ [])) field).width ≡ 0)
    × (len (put_service service_to_stream field).text ≡ 13)
put_bom-len_example = put_bom-len ("SV" ∷ ",5" ∷ []) field refl

-- The hash of an address is the address itself.
abbrev plain_hash : Ptr → ℕ
plain_hash none = 0
plain_hash (some a) = a

value-get_id_string_example :
    (value 0 (get_id_string plain_hash (some 140723)) ≡ get_id plain_hash (some 140723))
    × (value 0 (get_id_string_of_reference plain_hash 140723)
        ≡ get_id_of_reference plain_hash 140723)
value-get_id_string_example = value-get_id_string plain_hash 140723 (ground arith)

-- A vector that is put on a string stream comes out on the standard output.
abbrev quiet : OutStream
quiet = record { text = ""; width = 0; fill = " "; is_left = false }

put_vector-cout :
    put_vector put to_other ("SIN" ∷ "BKK" ∷ []) (record { cout = quiet; other = quiet })
    ≡ (to_other, record { cout = record quiet { text = "SIN BKK " }; other = quiet })
unfolding put_vector
put_vector-cout = refl
