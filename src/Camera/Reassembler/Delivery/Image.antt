-- ===== src/Camera/Reassembler/Delivery/Image.antt =====
-- The image that comes out of the bytes of a frame: its encrypted head and its end marker.
use ino_a9_local_bridge.Base.{
  ℕ, suc, ◌+◌, ◌-◌, ◌%◌, ◌<◌, ◌≡◌, ◌≢◌, refl, sym, ap, ◌∙◌, List, [], ◌∷◌, ◌++◌, some, ◌⊎◌, arith,
  inl, inr,
}
use ino_a9_local_bridge.Base.Lists.{length, take, drop, length-append, take-length, drop-length}
use ino_a9_local_bridge.Base.Except.{ok}
use ino_a9_local_bridge.Crypto.{Primitives, derive_av_key, aes_cbc_decrypt_unpadded}
use ino_a9_local_bridge.Crypto.Laws.{decrypt_unpadded-cbc_encrypt, av_key-IsKeyed}
use ino_a9_local_bridge.Packet.{AvPacket}
use ino_a9_local_bridge.Camera.Reassembler.{decode_frame, trim_jpeg, find_eoi}

-- The key of a frame, and the IV that is the key's last sixteen bytes.
abbrev pub frame_key : Primitives → List ℕ → AvPacket → List ℕ
frame_key c session_prefix m = derive_av_key c session_prefix m.sequence m.timestamp m.channel

abbrev pub frame_iv : Primitives → List ℕ → AvPacket → List ℕ
frame_iv c session_prefix m = let key = frame_key c session_prefix m in drop (length key - 16) key

-- If the head of a frame is not empty and of whole blocks, has the encrypted length of the packet,
-- and was encrypted under the key and the IV of the frame, the frame decodes to the plain head and
-- the plain tail, trimmed to the image.
pub decode_frame-encrypt :
    (c : Primitives) (session_prefix : List ℕ) (m : AvPacket) (head tail : List ℕ)
    → m.encrypted_length ≡ length head
    → 0 < length head
    → length head % 16 ≡ 0
    → decode_frame c session_prefix
        (some m)
        (c.cbc_encrypt (frame_key c session_prefix m) (frame_iv c session_prefix m) head ++ tail)
      ≡ ok (trim_jpeg (head ++ tail))
unfolding decode_frame
decode_frame-encrypt c session_prefix m head tail h pos blocks =
    let key = frame_key c session_prefix m in
    let iv = frame_iv c session_prefix m in
    let secret = c.cbc_encrypt key iv head in
    let size : length secret ≡ m.encrypted_length = c.length-encrypt key iv head ∙ sym h in
    let prefix : take m.encrypted_length (secret ++ tail) ≡ secret =
      rw (sym size) (take-length secret tail) in
    let suffix : drop m.encrypted_length (secret ++ tail) ≡ tail =
      rw (sym size) (drop-length secret tail) in
    let plain : aes_cbc_decrypt_unpadded c secret key iv ≡ ok head =
      decrypt_unpadded-cbc_encrypt c key iv head
        (av_key-IsKeyed c session_prefix m.sequence m.timestamp m.channel) blocks in
    ground (arith, prefix, suffix, size, length-append secret tail, plain)

-- No end marker stands in the bytes, and none begins with their last byte.
abbrev pub NoEoi : List ℕ → Type 0
NoEoi [] = Unit
NoEoi (b ∷ []) = b ≢ 0xff
NoEoi (b ∷ (b' ∷ bytes)) = ((b ≢ 0xff) ⊎ (b' ≢ 0xd9)) × NoEoi (b' ∷ bytes)

later_past :
    (b b' : ℕ) (bytes : List ℕ) (at : ℕ)
    → (b ≢ 0xff) ⊎ (b' ≢ 0xd9)
    → find_eoi (b ∷ (b' ∷ bytes)) at ≡ find_eoi (b' ∷ bytes) (suc at)
later_past b b' bytes at (inl h) = ground arith
later_past b b' bytes at (inr h) = ground arith

find_eoi-NoEoi :
    (body rest : List ℕ) (at : ℕ)
    → NoEoi body
    → find_eoi (body ++ (0xff ∷ 0xd9 ∷ rest)) at ≡ some (at + length body)
find_eoi-NoEoi [] rest at h = ground arith
find_eoi-NoEoi (b ∷ []) rest at h = ground arith
find_eoi-NoEoi (b ∷ (b' ∷ body)) rest at (h, h') =
    let later = find_eoi-NoEoi (b' ∷ body) rest (suc at) h' in
    later_past b b' (body ++ (0xff ∷ 0xd9 ∷ rest)) at h ∙ later ∙ ap some (omega arith)

take_end :
    (body rest : List ℕ)
    → take (length body + 2) (body ++ (0xff ∷ 0xd9 ∷ rest)) ≡ body ++ (0xff ∷ 0xd9 ∷ [])
take_end [] rest = refl
take_end (b ∷ body) rest =
    let size : suc (length body) + 2 ≡ suc (length body + 2) = omega arith in
    rw size (ap (λ bytes. b ∷ bytes) (take_end body rest))

-- Of bytes that begin with the start marker and hold a first end marker, behind a body without one,
-- what is returned is the image from the start marker to that end marker, without the bytes behind
-- it.
pub trim_jpeg-NoEoi :
    (body rest : List ℕ)
    → NoEoi body
    → trim_jpeg (0xff ∷ 0xd8 ∷ (body ++ (0xff ∷ 0xd9 ∷ rest)))
      ≡ some (0xff ∷ 0xd8 ∷ (body ++ (0xff ∷ 0xd9 ∷ [])))
unfolding trim_jpeg
trim_jpeg-NoEoi body rest h =
    let size : 2 + length body + 2 ≡ suc (suc (length body + 2)) = omega arith in
    rw (find_eoi-NoEoi body rest 2 h)
      (rw size (ap (λ bytes. some (0xff ∷ 0xd8 ∷ bytes)) (take_end body rest)))
