-- ===== src/Camera/Rpc/RoundTrip.antt =====
-- What `pack_rpc` writes is read back by `parse_packet` and `decrypt_rpc_payload`.
use ino_a9_local_bridge.Base.{
  ℕ, ◌+◌, ◌/◌, ◌%◌, ◌^◌, ◌≤◌, ◌<◌, ◌≡◌, refl, ap, ◌∙◌, bit_or, List, [], ◌∷◌, some, true, false,
  arith, inl,
}
use ino_a9_local_bridge.Base.Lists.{length, length-append, take, is_empty}
use ino_a9_local_bridge.Base.Bits.{bit_or_below}
use ino_a9_local_bridge.Base.Except.{ok}
use ino_a9_local_bridge.Crypto.{Primitives, derive_rpc_key}
use ino_a9_local_bridge.Crypto.Laws.{rpc_key-IsKeyed, encrypt_padded_total}
use ino_a9_local_bridge.Varint.{encode_varint}
use ino_a9_local_bridge.Packet.{FixedHeader, RpcPacket, rpc, parse_rpc, parse_packet}
use ino_a9_local_bridge.Packet.Layout.{
  IsShort, code_read, layout, framed, framed_header, parse_rpc-layout, parse_packet-framed,
  parse_body-rpc,
}
use ino_a9_local_bridge.Camera.Rpc.{pack_rpc, rpc_body, seal, decrypt_rpc_payload}

-- The packet that stands for a command, with the payload that was sealed for it.
abbrev sent : ℕ → ℕ → ℕ → ℕ → List ℕ → FixedHeader → RpcPacket
sent sequence command_id t code payload h = record {
  header = h;
  sequence = sequence;
  command_id = command_id;
  encryption_type = 3;
  rpc_type = t;
  response_code = code_read t code;
  payload = payload;
}

module _ (c : Primitives) (sequence command_id t code : ℕ) (prefix : List ℕ) where
  -- A payload can always be sealed, and whoever knows the prefix opens it.
  seal_total :
      (plaintext : List ℕ)
      → (payload : List ℕ) × (seal c prefix sequence command_id t plaintext ≡ ok payload)
        × ((h : FixedHeader)
            → decrypt_rpc_payload c (sent sequence command_id t code payload h) prefix
              ≡ ok plaintext)
  unfolding seal decrypt_rpc_payload
  seal_total [] = ([], refl, λ h. refl)
  seal_total (b ∷ text) =
      let key = derive_rpc_key c prefix sequence command_id t in
      let (secret, encrypted, some_bytes, opened) =
        encrypt_padded_total c key (take 16 key) (b ∷ text)
          (rpc_key-IsKeyed c prefix sequence command_id t) in
      (secret, encrypted, λ h. rw (not_empty secret some_bytes) opened)
    where
      not_empty : (secret : List ℕ) → 0 < length secret → is_empty secret ≡ false
      not_empty [] h = absurd (omega arith)
      not_empty (x ∷ secret) h = refl

-- The flags byte holds the encryption type above the RPC type.
flags_byte : (t : ℕ) → t ≤ 1 → bit_or 12 t ≡ 12 + t
flags_byte t h = bit_or_below 2 3 t (omega arith)

body-layout :
    (sequence command_id t code : ℕ) (payload : List ℕ)
    → t ≤ 1
    → (h : FixedHeader)
    → rpc_body sequence command_id t code payload
      ≡ layout h sequence command_id (12 + t) code payload
unfolding rpc_body
body-layout sequence command_id t code payload ht h =
    let low : (12 + t) % 4 ≡ t = omega arith in rw (flags_byte t ht, low) refl

module _ (c : Primitives) (sequence command_id t code : ℕ) (plaintext prefix bytes : List ℕ) where
  -- A packed command is one whole packet. The parser reads its sequence, command, type and response
  -- code back, and whoever knows the prefix gets the plaintext back, for a request or a response
  -- whose numbers fit the four bytes that the parser reads and whose packet is as short.
  pub parse_packet-pack_rpc :
      IsShort sequence
      → IsShort command_id
      → IsShort code
      → t ≤ 1
      → length bytes < 128 ^ 4
      → pack_rpc c sequence command_id plaintext prefix t code ≡ ok bytes
      → (p : RpcPacket) × (parse_packet bytes (some false) true ≡ ok (rpc p))
        × (p.sequence ≡ sequence)
        × (p.command_id ≡ command_id)
        × (p.rpc_type ≡ t)
        × (p.response_code ≡ code_read t code)
        × (decrypt_rpc_payload c p prefix ≡ ok plaintext)
  unfolding pack_rpc
  parse_packet-pack_rpc hs hc hk ht hb e =
      let (payload, sealed, opened) = seal_total c sequence command_id t code prefix plaintext in
      let body = rpc_body sequence command_id t code payload in
      let h = framed_header 0x48 body in
      let written : bytes ≡ framed 0x48 body = ground (arith, sealed) in
      let short : IsShort (length body) =
        omega (arith, ap length written, length-append (encode_varint (length body)) body) in
      let low : (12 + t) % 4 ≡ t = omega arith in
      let high : (12 + t) / 4 ≡ 3 = omega arith in
      let laid = body-layout sequence command_id t code payload ht h in
      let read =
        parse_rpc-layout h sequence command_id (12 + t) code payload hs hc hk (omega arith) in
      (
        sent sequence command_id t code payload h,
        ap (λ b. parse_packet b (some false) true) written
            ∙ parse_packet-framed 0x48 body true (omega arith) (omega arith) (omega arith)
                (omega arith) short
            ∙ parse_body-rpc h body (sent sequence command_id t code payload h) (inl refl)
                (ap (parse_rpc h) laid ∙ read ∙ rw (low, high) refl),
        refl,
        refl,
        refl,
        refl,
        opened h,
      )

-- Packing a request or a response never fails, whatever the numbers, the plaintext and the prefix
-- are.
pack_rpc_total :
    (c : Primitives) (sequence command_id t code : ℕ) (plaintext prefix : List ℕ)
    → t ≤ 1
    → (out : List ℕ) × (pack_rpc c sequence command_id plaintext prefix t code ≡ ok out)
unfolding pack_rpc
pack_rpc_total c sequence command_id t code plaintext prefix ht =
    let (payload, sealed, _) = seal_total c sequence command_id t code prefix plaintext in
    (framed 0x48 (rpc_body sequence command_id t code payload), ground (arith, sealed))
