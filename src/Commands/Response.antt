-- ===== src/Commands/Response.antt =====
-- `read_response_value` against the list of fields that a response holds.
use ino_a9_local_bridge.Base.{
  ℕ, zero, suc, ◌+◌, ◌-◌, ◌*◌, ◌/◌, ◌%◌, ◌^◌, ◌≤◌, ◌<◌, ◌≡◌, refl, sym, ap, ◌∙◌, List, [], ◌∷◌,
  ◌++◌, append_assoc, Option, none, some, arith,
}
use ino_a9_local_bridge.Base.Tests.{leb, lt→ltb, le→ltb, le→leb, ◌==◌, if◌then◌else◌}
use ino_a9_local_bridge.Base.Lists.{length, length-append, length-drop, drop, drop_past}
use ino_a9_local_bridge.Base.Bits.{bit_and_7}
use ino_a9_local_bridge.Base.Except.{Result, ok, value_error, ◌>>◌, require}
use ino_a9_local_bridge.Varint.{encode_varint}
use ino_a9_local_bridge.Varint.Encode.{encode_varint_pos}
use ino_a9_local_bridge.Varint.RoundTrip.{decode_varint-encode_varint}
use ino_a9_local_bridge.Commands.{field_step, response_loop, read_response_value, found, next, Step}

-- The four kinds of protobuf field, with the field's number.
pub data Field : Type 0 where
  varint : ℕ → ℕ → Field
  fixed64 : ℕ → List ℕ → Field
  delimited : ℕ → List ℕ → Field
  fixed32 : ℕ → List ℕ → Field

abbrev pub tag_of : Field → ℕ
tag_of (varint n v) = n * 8
tag_of (fixed64 n bytes) = n * 8 + 1
tag_of (delimited n bytes) = n * 8 + 2
tag_of (fixed32 n bytes) = n * 8 + 5

abbrev pub content : Field → List ℕ
content (varint n v) = encode_varint v
content (fixed64 n bytes) = bytes
content (delimited n bytes) = encode_varint (length bytes) ++ bytes
content (fixed32 n bytes) = bytes

abbrev pub encode_message : List Field → List ℕ
encode_message [] = []
encode_message (f ∷ fs) = encode_varint (tag_of f) ++ (content f ++ encode_message fs)

-- Fixed fields have their size, and the numbers fit ten bytes.
abbrev pub FitsContent : Field → Type 0
FitsContent (varint n v) = v < 2 ^ 70
FitsContent (fixed64 n bytes) = length bytes ≡ 8
FitsContent (delimited n bytes) = length bytes < 2 ^ 70
FitsContent (fixed32 n bytes) = length bytes ≡ 4

abbrev pub AreFields : List Field → Type 0
AreFields [] = Unit
AreFields (f ∷ fs) = (tag_of f < 2 ^ 70) × FitsContent f × AreFields fs

-- The first varint field with the number 1.
abbrev pub response_of : List Field → Option ℕ
response_of [] = none
response_of (varint n v ∷ fs) = if n == 1 then some v else response_of fs
response_of (_ ∷ fs) = response_of fs

abbrev answer : Field → ℕ → Step
answer (varint n v) o = if n == 1 then found v else next o
answer _ o = next o

-- A field's content leads to the answer, or to the offset behind it.
content_step :
    (payload : List ℕ) (offset : ℕ) (f : Field) (rest : List ℕ)
    → FitsContent f
    → drop offset payload ≡ content f ++ rest
    → field_step payload (tag_of f / 8) (tag_of f % 8) offset
      ≡ ok (answer f (offset + length (content f)))
unfolding field_step
content_step payload offset (varint n v) rest h at =
    ground (arith, decode_varint-encode_varint 9 v payload offset rest (omega arith) at)
content_step payload offset (fixed64 n bytes) rest h at = ground arith
content_step payload offset (delimited n bytes) rest h at = ground (
  arith,
  decode_varint-encode_varint 9 (length bytes) payload offset (bytes ++ rest) (omega arith)
      (at ∙ append_assoc (encode_varint (length bytes)) bytes rest),
  length-append (encode_varint (length bytes)) bytes,
)
content_step payload offset (fixed32 n bytes) rest h at = ground arith

module _ (payload : List ℕ) (offset : ℕ) where
  loop_end : (fuel : ℕ) → drop offset payload ≡ [] → response_loop fuel payload offset ≡ ok none
  unfolding response_loop
  loop_end zero e =
      rw (le→ltb offset (length payload) (omega (arith, ap length e, length-drop offset payload)))
  loop_end (suc fuel) e = rw (
    le→ltb offset (length payload) (omega (arith, ap length e, length-drop offset payload)),
    response_loop,
  )

  abbrev behind : Field → ℕ
  behind f = offset + length (encode_varint (tag_of f)) + length (content f)

  answered :
      (fuel : ℕ) (f : Field) (o : ℕ)
      → o ≤ length payload
      → ◌≡◌ {A = Result (Option ℕ)}
          (elim (answer f o) [
            | found v ↦ ok (some v)
            | next o' ↦
                require (leb o' (length payload)) value_error >> response_loop fuel payload o'
          ])
          (elim (answer f o) [ found v ↦ ok (some v) | next o' ↦ response_loop fuel payload o' ])
  answered fuel (varint n v) o h = ground (arith, le→leb _ _ h)
  answered fuel (fixed64 n v) o h = rw (le→leb _ _ h)
  answered fuel (delimited n v) o h = rw (le→leb _ _ h)
  answered fuel (fixed32 n v) o h = rw (le→leb _ _ h)

  -- One round over a field that stands at the cursor.
  loop_field :
      (fuel : ℕ) (f : Field) (rest : List ℕ)
      → tag_of f < 2 ^ 70
      → FitsContent f
      → drop offset payload ≡ encode_varint (tag_of f) ++ (content f ++ rest)
      → response_loop (suc fuel) payload offset ≡ (elim (answer f (behind f)) [
        | found v ↦ ok (some v)
        | next o ↦ response_loop fuel payload o
      ])
  unfolding response_loop
  loop_field fuel f rest ht hf at =
      let e1 = decode_varint-encode_varint 9 (tag_of f) payload offset _ ht at in
      let at' = drop_past payload offset (encode_varint (tag_of f)) at in
      let e2 = content_step payload (offset + length (encode_varint (tag_of f))) f rest hf at' in
      let total = ap length at in
      let e3 : length payload - offset
          ≡ length (encode_varint (tag_of f)) + (length (content f) + length rest) =
        sym (length-drop offset payload)
        ∙ ap length at
        ∙ length-append (encode_varint (tag_of f)) (content f ++ rest)
        ∙ ap (λ r. length (encode_varint (tag_of f)) + r) (length-append (content f) rest) in
      let before : offset < length payload = omega (arith, e3, encode_varint_pos (tag_of f)) in
      let inside : behind f ≤ length payload = omega (arith, e3, before) in
      rw (lt→ltb _ _ before, e1, bit_and_7 (tag_of f), e2, response_loop)
        (answered fuel f (behind f) inside)

-- What the loop returns at the offset behind the field decides what it returns at the field.
answer_rest :
    (f : Field) (fs : List Field) (o : ℕ) (after : ℕ → Result (Option ℕ))
    → after o ≡ ok (response_of fs)
    → ◌≡◌ {A = Result (Option ℕ)}
        (elim (answer f o) [ found v ↦ ok (some v) | next o' ↦ after o' ])
        (ok (response_of (f ∷ fs)))
answer_rest (varint n v) fs o after e = ground (arith, e)
answer_rest (fixed64 n v) fs o after e = e
answer_rest (delimited n v) fs o after e = e
answer_rest (fixed32 n v) fs o after e = e

fields_loop :
    (fuel : ℕ) (payload : List ℕ) (offset : ℕ) (fs : List Field)
    → AreFields fs
    → length (encode_message fs) ≤ fuel
    → drop offset payload ≡ encode_message fs
    → response_loop fuel payload offset ≡ ok (response_of fs)
fields_loop fuel payload offset [] w h at = loop_end payload offset fuel at
fields_loop zero payload offset (f ∷ fs) w h at = absurd (
    omega (
      arith,
      length-append (encode_varint (tag_of f)) (content f ++ encode_message fs),
      encode_varint_pos (tag_of f),
    ))
fields_loop (suc fuel) payload offset (f ∷ fs) (ht, hf, w) h at =
    let at' = drop_past payload offset (encode_varint (tag_of f)) at in
    let at'' = drop_past payload (offset + length (encode_varint (tag_of f))) (content f) at' in
    let shorter : length (encode_message fs) ≤ fuel = omega (
      arith,
      length-append (encode_varint (tag_of f)) (content f ++ encode_message fs),
      length-append (content f) (encode_message fs),
      encode_varint_pos (tag_of f),
    ) in
    loop_field payload offset fuel f (encode_message fs) ht hf at
    ∙ answer_rest f fs _ _ (fields_loop fuel payload _ fs w shorter at'')

-- On a message of protobuf fields, whose fixed fields have their size and whose numbers fit ten
-- bytes, `read_response_value` returns the first varint field with the number 1, whatever other
-- fields stand before it, and nothing if none is there.
pub read_response_value-encode_message :
    (fs : List Field) → AreFields fs → read_response_value (encode_message fs) ≡ ok (response_of fs)
unfolding read_response_value
read_response_value-encode_message fs w =
    fields_loop _ (encode_message fs) 0 fs w (omega arith) refl
