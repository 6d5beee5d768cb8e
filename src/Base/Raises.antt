-- ===== src/Base/Raises.antt =====
-- A postcondition on errors: every exception that may come out of a call satisfies `P`. One rule for
-- each way to build a call.
use mathlib.Core.Path.{◌≡◌, refl}
use mathlib.Core.Bool.{Bool, true, false}
use ino_a9_local_bridge.Base.Tests.{if◌then◌else◌}
use ino_a9_local_bridge.Base.Except.{
  Exception, packet_error, camera_error, out_of_fuel, Result, ok, err, require, ◌>>=◌, ◌>>◌,
}

abbrev pub IsPacketError : Exception → Type 0
IsPacketError (packet_error f) = Unit
IsPacketError _ = ⊥

abbrev pub IsCameraError : Exception → Type 0
IsCameraError camera_error = Unit
IsCameraError _ = ⊥

-- A loop that was given enough rounds does not raise this one.
abbrev pub IsPython : Exception → Type 0
IsPython out_of_fuel = ⊥
IsPython _ = Unit

abbrev pub OnlyRaises {ℓ} : {A : Type ℓ} → (Exception → Type 0) → Result A → Type 0
OnlyRaises P (ok a) = Unit
OnlyRaises P (err e) = P e

pub record Raises {ℓ} {A : Type ℓ} (P : Exception → Type 0) (r : Result A) : Type 0 where
  pub raises : OnlyRaises P r

module _ {ℓ} {A : Type ℓ} {P : Exception → Type 0} where
  pub ok-Raises : (a : A) → Raises P (ok a)
  ok-Raises a = record { raises = tt }

  pub err-Raises : (e : Exception) → P e → Raises P (let r : Result A = err e in r)
  err-Raises e h = record { raises = h }

  pub if_Raises :
      (b : Bool) (m n : Result A) → Raises P m → Raises P n → Raises P (if b then m else n)
  if_Raises true m n hm hn = hm
  if_Raises false m n hm hn = hn

module _ {ℓ κ} {A : Type ℓ} {B : Type κ} {P : Exception → Type 0} where
  -- The rest of the block may use what the call returned.
  pub >>=-Raises_eq :
      (r : Result A) (f : A → Result B)
      → Raises P r
      → ((a : A) → r ≡ ok a → Raises P (f a))
      → Raises P (r >>= f)
  >>=-Raises_eq (ok a) f hr hf = hf a refl
  >>=-Raises_eq (err e) f hr hf = record { raises = hr.raises }

  pub >>=-Raises :
      (r : Result A) (f : A → Result B)
      → Raises P r
      → ((a : A) → Raises P (f a))
      → Raises P (r >>= f)
  >>=-Raises r f hr hf = >>=-Raises_eq r f hr (λ a _. hf a)

pub Raises-weaken {ℓ} :
    {A : Type ℓ} {P Q : Exception → Type 0} (r : Result A)
    → ((e : Exception) → P e → Q e)
    → Raises P r
    → Raises Q r
Raises-weaken (ok a) f h = record { raises = tt }
Raises-weaken (err e) f h = record { raises = f e h.raises }

pub IsCameraError-IsPython : (e : Exception) → IsCameraError e → IsPython e
IsCameraError-IsPython camera_error h = tt
IsCameraError-IsPython (packet_error f) h = tt
IsCameraError-IsPython _ h = absurd h

pub IsPacketError-IsPython : (e : Exception) → IsPacketError e → IsPython e
IsPacketError-IsPython (packet_error f) h = tt
IsPacketError-IsPython _ h = absurd h

pub require-Raises :
    {P : Exception → Type 0} (b : Bool) (e : Exception) → P e → Raises P (require b e)
require-Raises true e h = ok-Raises tt
require-Raises false e h = err-Raises e h

pub require-then-Raises {ℓ} :
    {A : Type ℓ} {P : Exception → Type 0} (b : Bool) (e : Exception) (k : Result A)
    → P e
    → Raises P k
    → Raises P (require b e >> k)
require-then-Raises true e k h hk = hk
require-then-Raises false e k h hk = err-Raises e h

pub ruleset raising = (ok-Raises, err-Raises, >>=-Raises, require-Raises, if_Raises, tt)
