-- ===== src/Stream/Field.antt =====
-- An object that is written as a sequence of strings.
use Prim.Native.Char.{Char, len_utf8}
use Prim.Native.String.{◌++◌ as ◌<>◌, len}
use Prim.Native.String.append
use Prim.Native.String.len as len_clauses
use text.Mathlib.TextLemmas.{append-nil, append_assoc}
use text.Mathlib.TextPositions.{len-append}
use simcrs.Base.{
  ℕ, zero, suc, ◌+◌, ◌-◌, String, List, [], ◌∷◌, ◌≡◌, refl, sym, ap, ◌∙◌, arith, Bool-cases, inl,
  inr,
}
use simcrs.Stream.{OutStream, padding, put, put_bom, put_service, service_to_stream}

-- Each string in turn, as a `toStream` writes them.
abbrev pub put_all : List String → OutStream → OutStream
put_all [] o = o
put_all (t ∷ ts) o = put_all ts (put t o)

abbrev pub concat : List String → String
concat [] = ""
concat (t ∷ ts) = t <> concat ts

padding-len : (c : Char) (n : ℕ) → len_utf8 c ≡ 1 → len (padding c n) ≡ n
unfolding padding
padding-len c zero e = len_clauses.nil
padding-len c (suc n) e = len_clauses.cons c (padding c n) ∙ rw e (omega (arith, padding-len c n e))

-- On a stream of width 0 there is no padding.
put-plain : (t : String) (o : OutStream) → o.width ≡ 0 → (put t o).text ≡ o.text <> t
unfolding put padding
put-plain t o e =
    let none_left : o.width - len t ≡ 0 = omega arith in
    rw none_left (elim (Bool-cases o.is_left) [
      | inl l ↦ rw l (ap (λ s. o.text <> s) (append-nil t))
      | inr r ↦ rw r (ap (λ s. o.text <> s) (append.nil t))
    ])

-- A field takes the room of its text, or the width where that is more.
put-len :
    (t : String) (o : OutStream)
    → len_utf8 o.fill ≡ 1
    → len (put t o).text ≡ len o.text + (len t + (o.width - len t))
unfolding put
put-len t o e =
    let pad = padding o.fill (o.width - len t) in
    let room : len pad ≡ o.width - len t = padding-len o.fill (o.width - len t) e in
    elim (Bool-cases o.is_left) [
      | inl l ↦ rw l (omega (arith, len-append o.text (t <> pad), len-append t pad))
      | inr r ↦ rw r (omega (arith, len-append o.text (pad <> t), len-append pad t))
    ]

put_all-plain :
    (ts : List String) (o : OutStream) → o.width ≡ 0 → (put_all ts o).text ≡ o.text <> concat ts
put_all-plain [] o e = sym (append-nil o.text)
put_all-plain (t ∷ ts) o e =
    put_all-plain ts (put t o) (unfold put in refl)
    ∙ ap (λ s. s <> concat ts) (put-plain t o e)
    ∙ append_assoc o.text t (concat ts)

dumped :
    (ts : List String) (o : OutStream)
    → (put_all ts (record o { text = ""; width = 0 })).text ≡ concat ts
dumped ts o = put_all-plain ts (record o { text = ""; width = 0 }) refl ∙ append.nil (concat ts)

-- However many strings an object writes, the operators write their concatenation as one field: the
-- stream's width goes to the whole object and not to its first string.
pub put_bom-put :
    (ts : List String) (o : OutStream)
    → (put_bom (put_all ts) o ≡ put (concat ts) o)
      × (put_service (put_all ts) o ≡ put (concat ts) o)
unfolding put_bom put_service
put_bom-put ts o = (ap (λ t. put t o) (dumped ts o), ap (λ t. put t o) (dumped ts o))

-- Where the fill character is one byte, an object takes the bytes of its strings on the stream, or the
-- width where that is more; the width is 0 afterwards. A service context takes the width alone.
pub put_bom-len :
    (ts : List String) (o : OutStream)
    → len_utf8 o.fill ≡ 1
    → (len (put_bom (put_all ts) o).text
        ≡ len o.text + (len (concat ts) + (o.width - len (concat ts))))
      × ((put_bom (put_all ts) o).width ≡ 0)
      × (len (put_service service_to_stream o).text ≡ len o.text + o.width)
unfolding put_service service_to_stream
put_bom-len ts o e =
    rw (put_bom-put ts o).0
      (put-len (concat ts) o e, unfold put in refl, omega (arith, put-len "" o e, len_clauses.nil))
