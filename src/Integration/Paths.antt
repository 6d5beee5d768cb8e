-- ===== src/Integration/Paths.antt =====
-- The paths that the integration asks for, as the bridge takes them apart.
use Prim.Native.Char.{code}
use Prim.Native.String.{String, ◌++◌ as ◌+++◌}
use text.Mathlib.Text.{◌==◌ as str_eq}
use text.Mathlib.TextLemmas.{nil-append, cons-append, append_assoc}
use ino_a9_local_bridge.Base.{
  ℕ, ◌≡◌, refl, ap, ◌∙◌, List, [], ◌∷◌, some, Bool, true, false, not, ◌&&◌, ◌||◌, arith,
}
use ino_a9_local_bridge.Base.Tests.{◌==◌}
use ino_a9_local_bridge.Base.Except.{ok}
use ino_a9_local_bridge.Config.{is_safe, all_safe, safe_name}
use ino_a9_local_bridge.ControlApi.Handle.Routes.{prefixed, split_path, non_empty, below_cameras}
use ino_a9_local_bridge.Integration.Api.{has_char, path_part, api_path}

-- The parts of a safe name.
pub record IsSafe (name : String) : Type 0 where
  pub not_empty : str_eq name "" ≡ false
  pub safe : all_safe name ≡ true

parts : (a b : Bool) → (a && b) ≡ true → (a ≡ true) × (b ≡ true)
parts true b h = (refl, h)
parts false b h = cc

negated : (b : Bool) → not b ≡ true → b ≡ false
negated false h = refl
negated true h = cc

pub safe_name-IsSafe : (name : String) → safe_name name ≡ true → IsSafe name
safe_name-IsSafe name h = record {
  not_empty = negated (str_eq name "") (parts (not (str_eq name "")) (all_safe name) h).0;
  safe = (parts (not (str_eq name "")) (all_safe name) h).1;
}

-- The characters that a path may not have.
slash_unsafe : (n : ℕ) → is_safe n ≡ true → (n == 47) ≡ false
slash_unsafe n h = ground arith

question_unsafe : (n : ℕ) → is_safe n ≡ true → (n == 63) ≡ false
question_unsafe n h = ground arith

hash_unsafe : (n : ℕ) → is_safe n ≡ true → (n == 35) ≡ false
hash_unsafe n h = ground arith

has_char-unsafe :
    (k : ℕ) (name : String)
    → ((n : ℕ) → is_safe n ≡ true → (n == k) ≡ false)
    → all_safe name ≡ true
    → has_char k name ≡ false
has_char-unsafe k String.[] h safe = refl
has_char-unsafe k (String.◌∷◌ c name) h safe =
    let p = parts (is_safe (code c)) (all_safe name) safe in
    rw (h (code c) p.0) (has_char-unsafe k name h p.1)

pub path_part-IsSafe : (name : String) → IsSafe name → path_part name ≡ ok name
path_part-IsSafe name h =
    rw
      (
        h.not_empty,
        has_char-unsafe 47 name slash_unsafe h.safe,
        has_char-unsafe 63 name question_unsafe h.safe,
        has_char-unsafe 35 name hash_unsafe h.safe,
      )
      refl

-- The words of a text, put before those of another.
abbrev onto : String → List String → List String
onto String.[] words = words
onto (String.◌∷◌ c text) words = prefixed c (onto text words)

split_path-append : (p text : String) → split_path (p +++ text) ≡ onto p (split_path text)
split_path-append String.[] text = ap split_path (nil-append text)
split_path-append (String.◌∷◌ c p) text =
    ap split_path (cons-append c p text) ∙ ap (prefixed c) (split_path-append p text)

-- A safe name ends at the next slash,
onto-IsSafe :
    (name : String) (words : List String)
    → all_safe name ≡ true
    → onto name (String.[] ∷ words) ≡ name ∷ words
onto-IsSafe String.[] words h = refl
onto-IsSafe (String.◌∷◌ c name) words h =
    let p = parts (is_safe (code c)) (all_safe name) h in
    ap (prefixed c) (onto-IsSafe name words p.1) ∙ rw (slash_unsafe (code c) p.0) refl

-- or with the path.
split_path-IsSafe : (name : String) → all_safe name ≡ true → split_path name ≡ name ∷ []
split_path-IsSafe String.[] h = refl
split_path-IsSafe (String.◌∷◌ c name) h =
    let p = parts (is_safe (code c)) (all_safe name) h in
    ap (prefixed c) (split_path-IsSafe name p.1) ∙ rw (slash_unsafe (code c) p.0) refl

abbrev pub control_path : String → String → String
control_path camera_id control = "/api/v1/cameras/" +++ (camera_id +++ ("/controls/" +++ control))

split_path-control_path :
    (camera_id control : String)
    → IsSafe camera_id
    → IsSafe control
    → split_path (control_path camera_id control)
      ≡ "" ∷ "api" ∷ "v1" ∷ "cameras" ∷ camera_id ∷ "controls" ∷ control ∷ []
split_path-control_path camera_id control h k =
    split_path-append "/api/v1/cameras/" (camera_id +++ ("/controls/" +++ control))
    ∙ ap (onto "/api/v1/cameras/") (
        split_path-append camera_id ("/controls/" +++ control)
        ∙ ap (onto camera_id) (
            split_path-append "/controls/" control
            ∙ ap (onto "/controls/") (split_path-IsSafe control k.safe))
        ∙ onto-IsSafe camera_id ("controls" ∷ control ∷ []) h.safe)

-- A control's path is read back as what it was made of.
pub below_cameras-control_path :
    (camera_id control : String)
    → IsSafe camera_id
    → IsSafe control
    → below_cameras (non_empty (split_path (control_path camera_id control)))
      ≡ some (camera_id ∷ "controls" ∷ control ∷ [])
below_cameras-control_path camera_id control h k =
    ap (λ words. below_cameras (non_empty words)) (split_path-control_path camera_id control h k)
    ∙ rw (h.not_empty, k.not_empty) refl

-- The characters of a path that needs no escape.
abbrev is_plain : ℕ → Bool
is_plain n = is_safe n || n == 47

abbrev pub all_plain : String → Bool
all_plain String.[] = true
all_plain (String.◌∷◌ c text) = is_plain (code c) && all_plain text

both : (a b c : Bool) → (b ≡ true → c ≡ true) → (a && b) ≡ true → (a && c) ≡ true
both true b c f h = f h
both false b c f h = h

all_plain-append :
    (a b : String) → all_plain a ≡ true → all_plain b ≡ true → all_plain (a +++ b) ≡ true
all_plain-append String.[] b h k = rw (nil-append b) k
all_plain-append (String.◌∷◌ c a) b h k =
    rw (cons-append c a b) (both _ _ _ (λ e. all_plain-append a b e k) h)

all_plain-IsSafe : (name : String) → all_safe name ≡ true → all_plain name ≡ true
all_plain-IsSafe String.[] h = refl
all_plain-IsSafe (String.◌∷◌ c name) h =
    let p = parts (is_safe (code c)) (all_safe name) h in rw p.0 (all_plain-IsSafe name p.1)

pub all_plain-control_path :
    (camera_id control : String)
    → IsSafe camera_id
    → IsSafe control
    → all_plain (control_path camera_id control) ≡ true
all_plain-control_path camera_id control h k =
    all_plain-append "/api/v1/cameras/" (camera_id +++ ("/controls/" +++ control)) refl (
      all_plain-append camera_id ("/controls/" +++ control) (all_plain-IsSafe camera_id h.safe)
        (all_plain-append "/controls/" control refl (all_plain-IsSafe control k.safe)))

-- The path as the client puts it together.
pub made-control_path :
    (camera_id control : String)
    → (((((api_path +++ "/") +++ camera_id) +++ "/controls/") +++ control)
        ≡ control_path camera_id control)
made-control_path camera_id control =
    append_assoc ("/api/v1/cameras/" +++ camera_id) "/controls/" control
    ∙ append_assoc "/api/v1/cameras/" camera_id ("/controls/" +++ control)
