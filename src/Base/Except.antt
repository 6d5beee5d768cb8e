-- ===== src/Base/Except.antt =====
-- Python's exceptions as values. `do` blocks chain calls that may raise.
use Prim.Native.Nat.{ℕ}
use mathlib.Core.Path.{◌≡◌, refl, ap}
use mathlib.Core.Bool.{Bool, true, false}
use mathlib.Core.Logic.{◌≢◌, ◌⊎◌, inl, inr}

-- The raise sites of pprpc.py, which the stream reader tells apart by their message.
pub data PacketFault : Type 0 where
  truncated_varint oversized_varint missing_magic missing_type unsupported_type unsupported_flag
        truncated_packet trailing_data missing_rpc_type unsupported_rpc_type missing_av_bytes :
      PacketFault

-- One constructor for each class that the code raises and tells apart. `generator_exit` is raised in
-- a generator whose consumer leaves it. `out_of_fuel` is none of Python's: the rounds that a model's
-- loop was given did not suffice. `api_error` carries the status of an `InoA9ApiError`.
pub data Exception : Type 0 where
  packet_error : PacketFault → Exception
  value_error type_error invalid_request : Exception
  camera_error camera_unavailable timeout_error lookup_error os_error : Exception
  generator_exit : Exception
  api_error : ℕ → Exception
  update_failed home_assistant_error : Exception
  out_of_fuel : Exception

pub data Result {ℓ} (A : Type ℓ) : Type ℓ where
  err : Exception → Result A
  ok : A → Result A

pub Result-cases {ℓ} :
    {A : Type ℓ} (r : Result A) → ((a : A) × (r ≡ ok a)) ⊎ ((e : Exception) × (r ≡ err e))
Result-cases (err raised) = inr (raised, refl)
Result-cases (ok returned) = inl (returned, refl)

pub ok-injective {ℓ} : {A : Type ℓ} {a b : A} → ok a ≡ ok b → a ≡ b
ok-injective {a = a} {b = b} h = cc

pub err-injective {ℓ} : {A : Type ℓ} {x y : Exception} → ◌≡◌ {A = Result A} (err x) (err y) → x ≡ y
err-injective {x = x} {y = y} h = cc

pub err≢ok {ℓ} : {A : Type ℓ} {e : Exception} {a : A} → err e ≢ ok a
err≢ok h = cc

-- `if not test: raise e`
abbrev pub require : (test : Bool) (raised : Exception) → Result (Unit {0})
require false raised = err raised
require true raised = ok tt

infixl 5 ◌>>=◌ ◌>>◌
abbrev pub ◌>>=◌ {ℓ κ} : {A : Type ℓ} {B : Type κ} (m : Result A) (rest : A → Result B) → Result B
err raised >>= rest = err raised
ok returned >>= rest = rest returned

pub ok_pair {ℓ κ} :
    {A : Type ℓ} {B : Type κ} {a c : A} {b d : B}
    → ◌≡◌ {A = Result (A × B)} (ok (a, b)) (ok (c, d))
    → (a ≡ c) × (b ≡ d)
ok_pair h = (ap (λ p. p.0) (ok-injective h), ap (λ p. p.1) (ok-injective h))

-- The next call of a block whose first call returns nothing.
abbrev pub ◌>>◌ {ℓ} : {B : Type ℓ} (test : Result (Unit {0})) (rest : Result B) → Result B
test >> rest = test >>= λ _. rest

pub >>=-eq-ok {ℓ κ} :
    {A : Type ℓ} {B : Type κ} (call : Result A) (rest : A → Result B) {out : B}
    → (call >>= rest) ≡ ok out
    → (a : A) × (call ≡ ok a) × (rest a ≡ ok out)
>>=-eq-ok (err raised) rest h = cc
>>=-eq-ok (ok returned) rest h = (returned, refl, h)
