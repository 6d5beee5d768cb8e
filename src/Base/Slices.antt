-- ===== src/Base/Slices.antt =====
-- Slices and prefixes of byte strings, and `in` on texts.
use Prim.Native.Nat.{ℕ, ◌+◌, ◌-◌}
use mathlib.Core.Path.{◌≡◌}
use mathlib.Core.List.{List, [], ◌∷◌, ◌++◌}
use mathlib.Core.Bool.{Bool, true, false, ◌&&◌}
use mathlib.Core.Option.{none, some}
use native.Mathlib.Omega.{arith}
use Prim.Native.String.{String}
use text.Mathlib.Text.{find?}
use ino_a9_local_bridge.Base.Tests.{◌==◌}
use ino_a9_local_bridge.Base.Lists.{length, take, drop, drop-length, take-length}

-- `xs[a:b]`, clamped to the list.
abbrev pub slice {ℓ} : {A : Type ℓ} → List A → ℕ → ℕ → List A
slice xs a b = take (b - a) (drop a xs)

pub slice_middle {ℓ} :
    {A : Type ℓ} (xs ys zs : List A)
    → slice (xs ++ (ys ++ zs)) (length xs) (length xs + length ys) ≡ ys
slice_middle xs ys zs =
    let e : length xs + length ys - length xs ≡ length ys = omega arith in
    rw e (rw drop-length (take-length ys zs))

-- `bytes.startswith(prefix)`
abbrev pub starts_with : List ℕ → List ℕ → Bool
starts_with bytes [] = true
starts_with [] (p ∷ prefix) = false
starts_with (b ∷ bytes) (p ∷ prefix) = b == p && starts_with bytes prefix

-- `word in text`
abbrev pub contains : String → String → Bool
contains word text = elim (find? text word) [ none ↦ false | some _ ↦ true ]
