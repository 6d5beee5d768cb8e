-- ===== src/Value.antt =====
-- The values that `json.loads` returns, and Python's tests on them.
use Prim.Native.String.{String}
use text.Mathlib.Text.{◌==◌ as str_eq}
use ino_a9_local_bridge.Base.{ℕ, List, [], ◌∷◌, Option, none, some, Bool}
use ino_a9_local_bridge.Base.Tests.{if◌then◌else◌}
use ino_a9_local_bridge.Base.Int.{ℤ}

mutual
  pub data Value : Type 0 where
    null : Value
    bool : Bool → Value
    int : ℤ → Value
    -- A number with a fraction or an exponent; the code only sees that it is no `int`.
    float : ℕ → Value
    str : String → Value
    array : Values → Value
    object : Members → Value

  pub data Values : Type 0 where
    nil : Values
    cons : Value → Values → Values

  pub data Members : Type 0 where
    end : Members
    member : String → Value → Members → Members

-- `value.get(key)` on a dict. Its keys are distinct, so the first is the only one.
unfoldable pub get : Members → String → Option Value
get end key = none
get (member k v rest) key = if str_eq k key then some v else get rest key

-- `value.get(key)` where the code goes on with `None` for a missing key.
abbrev pub get_or_null : Members → String → Value
get_or_null members key = elim (get members key) [ none ↦ null | some v ↦ v ]

abbrev pub elements : Values → List Value
elements nil = []
elements (cons v vs) = v ∷ elements vs
