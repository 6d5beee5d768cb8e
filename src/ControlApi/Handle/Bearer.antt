-- ===== src/ControlApi/Handle/Bearer.antt =====
-- Whom `_authorized` of ino_a9_bridge/src/wificam_bridge/control_api.py lets in.
use Prim.Native.String.{String, ◌++◌ as ◌+++◌}
use text.Mathlib.Text.{◌==◌ as str_eq, starts_with}
use text.Mathlib.TextEquality.{eq_iff, starts_with_iff}
use text.Mathlib.TextLemmas.{nil-append, cons-append}
use ino_a9_local_bridge.Base.{
  ℕ, suc, ◌≡◌, refl, ap, subst, ◌∙◌, Option, none, some, Bool, true, false, ◌&&◌, inl, inr,
}
use ino_a9_local_bridge.Base.Tests.{if◌then◌else◌, Bool-cases}
use ino_a9_local_bridge.Base.Except.{Result, ok, err, type_error}
use ino_a9_local_bridge.ControlApi.Handle.Routes.{authorized, skip, is_ascii}

-- How many characters a text has.
abbrev pub count : String → ℕ
count String.[] = 0
count (String.◌∷◌ c text) = suc (count text)

pub skip-append : (p text : String) → skip (count p) (p +++ text) ≡ text
skip-append String.[] text = nil-append text
skip-append (String.◌∷◌ c p) text =
    ap (skip (suc (count p))) (cons-append c p text) ∙ skip-append p text

-- The decision on a header, by what the header and the token file are.
pub data Verdict (header token_file : Option String) : Result Bool → Type 0 where
  let_in :
      (token : String)
      → token_file ≡ some token
      → str_eq token "" ≡ false
      → header ≡ some ("Bearer " +++ token)
      → Verdict header token_file (ok true)
  denied : Verdict header token_file (ok false)
  not_ascii :
      (text token : String)
      → token_file ≡ some token
      → header ≡ some ("Bearer " +++ text)
      → (is_ascii text && is_ascii token) ≡ false
      → Verdict header token_file (err type_error)

compared-Verdict :
    (text token : String)
    → str_eq token "" ≡ false
    → Verdict
        (some ("Bearer " +++ text))
        (some token)
        (if is_ascii text && is_ascii token then ok (str_eq text token) else err type_error)
compared-Verdict text token filled = elim (Bool-cases (is_ascii text && is_ascii token)) [
  | inl ascii ↦ rw ascii (elim (Bool-cases (str_eq text token)) [
    | inl same ↦
        rw same
          (let_in token refl filled (ap (λ t. some ("Bearer " +++ t)) ((eq_iff text token).0 same)))
    | inr different ↦ rw different denied
  ])
  | inr other ↦ rw other (not_ascii text token refl refl other)
]

bearer-Verdict :
    (text : String) (token_file : Option String)
    → Verdict
        (some ("Bearer " +++ text))
        token_file
        (authorized (some ("Bearer " +++ text)) token_file)
unfolding authorized
bearer-Verdict text none =
    rw ((starts_with_iff ("Bearer " +++ text) "Bearer ").1 (text, refl)) denied
bearer-Verdict text (some token) =
    rw ((starts_with_iff ("Bearer " +++ text) "Bearer ").1 (text, refl))
      (elim (Bool-cases (str_eq token "")) [
        | inl empty ↦ rw empty denied
        | inr filled ↦ rw (filled, skip-append "Bearer " text) (compared-Verdict text token filled)
      ])

pub authorized-Verdict :
    (header token_file : Option String) → Verdict header token_file (authorized header token_file)
unfolding authorized
authorized-Verdict none token_file = denied
authorized-Verdict (some header) token_file = elim (Bool-cases (starts_with header "Bearer ")) [
  | inl bearer ↦
      let (text, e) = (starts_with_iff header "Bearer ").0 bearer in
      subst (λ h. Verdict (some h) token_file (authorized (some h) token_file)) e
        (bearer-Verdict text token_file)
  | inr other ↦ rw other denied
]
