-- ===== src/Crypto/Examples.antt =====
-- A cipher that does nothing, with real PKCS#7 padding and one digest, meets what is asked of the
-- primitives.
use ino_a9_local_bridge.Base.{
  ℕ, zero, suc, ◌-◌, ◌%◌, ◌<◌, ◌≡◌, refl, ap, ◌∙◌, List, [], ◌∷◌, ◌++◌, Option, some, arith,
}
use ino_a9_local_bridge.Base.Lists.{length, take, length-append, take-length}
use ino_a9_local_bridge.Crypto.{Primitives}

abbrev pub copies : ℕ → ℕ → List ℕ
copies zero b = []
copies (suc n) b = b ∷ copies n b

abbrev pub last_or_zero : List ℕ → ℕ
last_or_zero [] = 0
last_or_zero (b ∷ []) = b
last_or_zero (b ∷ (b' ∷ bytes)) = last_or_zero (b' ∷ bytes)

length-copies : (n b : ℕ) → length (copies n b) ≡ n
length-copies zero b = refl
length-copies (suc n) b = omega (arith, length-copies n b)

abbrev pub missing : List ℕ → ℕ
missing text = 16 - length text % 16

abbrev pub padded : List ℕ → List ℕ
padded text = text ++ copies (missing text) (missing text)

abbrev pub cut : List ℕ → Option (List ℕ)
cut text = some (take (length text - last_or_zero text) text)

last-copies : (n b : ℕ) → last_or_zero (copies (suc n) b) ≡ b
last-copies zero b = refl
last-copies (suc n) b = last-copies n b

last-append :
    (text : List ℕ) (b : ℕ) (rest : List ℕ)
    → last_or_zero (text ++ (b ∷ rest)) ≡ last_or_zero (b ∷ rest)
last-append [] b rest = refl
last-append (t ∷ []) b rest = refl
last-append (t ∷ (t' ∷ text)) b rest = last-append (t' ∷ text) b rest

last-padding : (text : List ℕ) (n b : ℕ) → 0 < n → last_or_zero (text ++ copies n b) ≡ b
last-padding text zero b h = absurd (omega arith)
last-padding text (suc n) b h = last-append text b (copies n b) ∙ last-copies n b

pub cut-padded : (text : List ℕ) → cut (padded text) ≡ some text
cut-padded text =
    let n = missing text in
    let size : length (padded text) - last_or_zero (padded text) ≡ length text = omega (
      arith,
      length-append text (copies n n),
      length-copies n n,
      last-padding text n n (omega arith),
    ) in
    rw size (ap some (take-length text (copies n n)))

pub length-padded : (text : List ℕ) → length (padded text) % 16 ≡ 0
length-padded text = omega (
  arith,
  length-append text (copies (missing text) (missing text)),
  length-copies (missing text) (missing text),
)

pub length-padded_pos : (text : List ℕ) → 0 < length (padded text)
length-padded_pos text = omega (
  arith,
  length-append text (copies (missing text) (missing text)),
  length-copies (missing text) (missing text),
)

abbrev pub plain : Primitives
plain = record {
  cbc_encrypt = λ key iv text. text;
  cbc_decrypt = λ key iv text. text;
  pad = padded;
  unpad = cut;
  md5_hexdigest = λ text. copies 32 48;
  decrypt-encrypt = λ key iv text h. refl;
  length-encrypt = λ key iv text. refl;
  unpad-pad = cut-padded;
  length-pad = length-padded;
  length-pad_pos = length-padded_pos;
  length-md5 = λ text. refl;
}
