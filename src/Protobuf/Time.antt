-- ===== src/Protobuf/Time.antt =====
-- The time messages, read back field by field.
use ino_a9_local_bridge.Base.{
  ℕ, ◌-◌, ◌%◌, ◌^◌, ◌<◌, ◌≡◌, ap, List, [], ◌∷◌, ◌++◌, append_assoc, append-nil, Option, none, some,
  arith,
}
use ino_a9_local_bridge.Base.Int.{ℤ, pos, negsuc}
use ino_a9_local_bridge.Base.Except.{ok, err, camera_error}
use ino_a9_local_bridge.Varint.{encode_varint}
use ino_a9_local_bridge.Protobuf.{
  encode_protobuf_varint, first_varint_field, to_word, build_time_sync_response,
  build_time_request_payload,
}
use ino_a9_local_bridge.Protobuf.Fields.{
  Fields, encode_fields, AreWide, first_varint_field-encode_fields,
}

to_word-lt : (z : ℤ) → to_word z < 2 ^ 64
to_word-lt (pos n) = omega arith
to_word-lt (negsuc n) = omega arith

-- The three fields that the client answers.
abbrev answer : ℕ → ℤ → Fields
answer timestamp current =
    (1, to_word (pos timestamp)) ∷ (2, to_word (negsuc 29)) ∷ (3, to_word current) ∷ []

-- The fields as the code writes them, one after the other.
three_fields :
    (a b c : ℕ)
    → (encode_varint 8 ++ encode_varint a)
        ++ ((encode_varint 16 ++ encode_varint b) ++ (encode_varint 24 ++ encode_varint c))
      ≡ encode_fields ((1, a) ∷ (2, b) ∷ (3, c) ∷ [])
three_fields a b c = simp (append_assoc, append-nil)

-- If the request holds a timestamp, the answer to it holds, at the fields 1, 2 and 3, that
-- timestamp, minus thirty and the clock, each as the bit pattern of an int64.
pub build_time_sync_response_fields :
    (request : List ℕ) (current : ℤ) (timestamp : ℕ)
    → first_varint_field request 1 ≡ ok timestamp
    → (response : List ℕ) × (build_time_sync_response request current ≡ ok response)
      × (first_varint_field response 1 ≡ ok (timestamp % 2 ^ 64))
      × (first_varint_field response 2 ≡ ok (2 ^ 64 - 30))
      × (first_varint_field response 3 ≡ ok (to_word current))
unfolding build_time_sync_response encode_protobuf_varint
build_time_sync_response_fields request current timestamp e =
    let fields = answer timestamp current in
    let wide : AreWide fields = omega (arith, to_word-lt current) in
    (
      encode_fields fields,
      rw e (ap ok (three_fields _ _ _)),
      first_varint_field-encode_fields 1 fields wide,
      first_varint_field-encode_fields 2 fields wide,
      first_varint_field-encode_fields 3 fields wide,
    )

heartbeat : ℕ → Option ℕ → Fields
heartbeat now none = (1, now) ∷ []
heartbeat now (some sequence) = (1, now) ∷ (4, sequence) ∷ []

-- The heartbeat is the clock at field 1 and, where a packet is acknowledged, its sequence at field
-- 4, if both fit an int64's 64 bits. Without an acknowledgement there is no field 4.
pub build_time_request_payload_fields :
    (now : ℕ) (ans_seq : ℕ)
    → now < 2 ^ 64
    → ans_seq < 2 ^ 64
    → (plain : List ℕ) × (ack : List ℕ) × (build_time_request_payload (pos now) none ≡ ok plain)
      × (build_time_request_payload (pos now) (some (pos ans_seq)) ≡ ok ack)
      × (first_varint_field plain 1 ≡ ok now)
      × (first_varint_field plain 4 ≡ err camera_error)
      × (first_varint_field ack 1 ≡ ok now)
      × (first_varint_field ack 4 ≡ ok ans_seq)
unfolding build_time_request_payload encode_protobuf_varint heartbeat
build_time_request_payload_fields now ans_seq h k =
    let one = heartbeat now none in
    let two = heartbeat now (some ans_seq) in
    let same : now % 2 ^ 64 ≡ now = omega arith in
    let same' : ans_seq % 2 ^ 64 ≡ ans_seq = omega arith in
    let wide : AreWide one = omega arith in
    let wide' : AreWide two = omega arith in
    (
      encode_fields one,
      encode_fields two,
      rw same (simp (append_assoc, append-nil)),
      rw (same, same') (simp (append_assoc, append-nil)),
      first_varint_field-encode_fields 1 one wide,
      first_varint_field-encode_fields 4 one wide,
      first_varint_field-encode_fields 1 two wide',
      first_varint_field-encode_fields 4 two wide',
    )
