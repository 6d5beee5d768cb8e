-- ===== src/Runtime/Strip.antt =====
-- `strip` on the text of a token and a line break.
use Prim.Native.Char.{code}
use Prim.Native.String.{String, ◌++◌ as ◌+++◌}
use text.Mathlib.Text.{◌==◌ as str_eq}
use text.Mathlib.TextLemmas.{cons-append}
use ino_a9_local_bridge.Base.{ℕ, ◌≡◌, refl, ap, ◌∙◌, some, Bool, true, false, not, ◌&&◌, arith}
use ino_a9_local_bridge.Config.{is_safe, all_safe, safe_name}
use ino_a9_local_bridge.Runtime.{is_space, lstrip, rstrip, strip, has_token}

is_safe-IsSolid : (n : ℕ) → is_safe n ≡ true → is_space n ≡ false
is_safe-IsSolid n h = ground arith

and_first : (a b : Bool) → (a && b) ≡ true → a ≡ true
and_first true b h = refl
and_first false b h = h

and_second : (a b : Bool) → (a && b) ≡ true → b ≡ true
and_second true b h = h
and_second false b h = cc

rstrip-line : (text : String) → all_safe text ≡ true → rstrip (text +++ "\n") ≡ text
rstrip-line String.[] h = refl
rstrip-line (String.◌∷◌ c text) h =
    let solid = is_safe-IsSolid (code c) (and_first (is_safe (code c)) (all_safe text) h) in
    let rest = rstrip-line text (and_second (is_safe (code c)) (all_safe text) h) in
    rw (cons-append c text "\n") (rw (solid, rest) refl)

pub strip-line : (text : String) → all_safe text ≡ true → strip (text +++ "\n") ≡ text
strip-line String.[] h = refl
strip-line (String.◌∷◌ c text) h =
    let solid = is_safe-IsSolid (code c) (and_first (is_safe (code c)) (all_safe text) h) in
    let same : lstrip (String.◌∷◌ c text +++ "\n") ≡ String.◌∷◌ c text +++ "\n" =
      rw (cons-append c text "\n") (rw solid refl) in
    ap rstrip same ∙ rstrip-line (String.◌∷◌ c text) h

pub fresh-HasToken :
    (fresh : String) → safe_name fresh ≡ true → has_token (some (fresh +++ "\n")) ≡ true
fresh-HasToken fresh h =
    ap (λ x. not (str_eq x ""))
      (strip-line fresh (and_second (not (str_eq fresh "")) (all_safe fresh) h))
    ∙ and_first (not (str_eq fresh "")) (all_safe fresh) h
