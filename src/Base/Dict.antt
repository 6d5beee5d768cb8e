-- ===== src/Base/Dict.antt =====
-- Python's dicts as association lists in insertion order, over any type of keys that can be compared.
use Prim.Native.Nat.{ℕ}
use Prim.Native.String.{String}
use mathlib.Core.Path.{◌≡◌, refl}
use mathlib.Core.Logic.{◌≢◌, ◌↔◌, inl, inr}
use mathlib.Core.List.{List, [], ◌∷◌}
use mathlib.Core.Bool.{Bool, true, false, ◌&&◌}
use mathlib.Core.Option.{Option, none, some}
use text.Mathlib.Text.{◌==◌ as str_eq}
use text.Mathlib.TextEquality.{eq_iff}
use native.Mathlib.Omega.{arith}
use ino_a9_local_bridge.Base.Tests.{◌==◌, ==_iff, if◌then◌else◌, Bool-cases}

pub record Key (K : Type 0) : Type 0 where
  pub same : K → K → Bool
  pub same_iff : (a b : K) → (same a b ≡ true) ↔ (a ≡ b)

instance abbrev pub nat_key : Key ℕ
nat_key = record { same = ◌==◌; same_iff = ==_iff }

instance abbrev pub string_key : Key String
string_key = record { same = str_eq; same_iff = eq_iff }

pub pair_iff : (a b : ℕ × ℕ) → ((a.0 == b.0 && a.1 == b.1) ≡ true) ↔ (a ≡ b)
pair_iff (a, a') (b, b') = ground arith

instance abbrev pub pair_key : Key (ℕ × ℕ)
pair_key = record { same = λ a b. a.0 == b.0 && a.1 == b.1; same_iff = pair_iff }

abbrev pub Dict : Type 0 → Type 0 → Type 0
Dict K V = List (K × V)

module _ {K : Type 0} ⦃key : Key K⦄ where
  same_refl : (k : K) → key.same k k ≡ true
  same_refl k = (key.same_iff k k).1 refl

  other : (k' k : K) → k' ≢ k → key.same k' k ≡ false
  other k' k h = elim (Bool-cases (key.same k' k)) [
    | inl e ↦ absurd (h ((key.same_iff k' k).0 e))
    | inr e ↦ e
  ]

module _ {K V : Type 0} ⦃key : Key K⦄ where
  -- `d.get(k)`
  abbrev pub lookup : K → Dict K V → Option V
  lookup k [] = none
  lookup k ((k', v) ∷ d) = if key.same k' k then some v else lookup k d

  -- `d[k] = v`, which keeps the place of a key that is there.
  abbrev pub insert : K → V → Dict K V → Dict K V
  insert k v [] = (k, v) ∷ []
  insert k v ((k', w) ∷ d) =
      let rest = insert k v d in if key.same k' k then (k, v) ∷ d else (k', w) ∷ rest

  -- `d.pop(k, None)`
  abbrev pub remove : K → Dict K V → Dict K V
  remove k [] = []
  remove k ((k', v) ∷ d) = let rest = remove k d in if key.same k' k then rest else (k', v) ∷ rest

  pub lookup-insert : (k : K) (v : V) (d : Dict K V) → lookup k (insert k v d) ≡ some v
  lookup-insert k v [] = rw (same_refl k) refl
  lookup-insert k v ((k', w) ∷ d) = elim (Bool-cases (key.same k' k)) [
    | inl e ↦ rw e (rw (same_refl k) refl)
    | inr e ↦ rw e (rw e (lookup-insert k v d))
  ]

  pub lookup-insert_other :
      (k k' : K) (v : V) (d : Dict K V) → k ≢ k' → lookup k' (insert k v d) ≡ lookup k' d
  lookup-insert_other k k' v [] h = rw (other k k' h) refl
  lookup-insert_other k k' v ((k'', w) ∷ d) h = elim (Bool-cases (key.same k'' k)) [
    | inl e ↦ let e' : k'' ≡ k = (key.same_iff k'' k).0 e in rw e (rw (e', other k k' h) refl)
    | inr e ↦ rw e (rw (lookup-insert_other k k' v d h) refl)
  ]

  pub lookup-remove : (k : K) (d : Dict K V) → lookup k (remove k d) ≡ none
  lookup-remove k [] = refl
  lookup-remove k ((k', v) ∷ d) = elim (Bool-cases (key.same k' k)) [
    | inl e ↦ rw e (lookup-remove k d)
    | inr e ↦ rw e (rw e (lookup-remove k d))
  ]

  pub lookup-remove_other :
      (k k' : K) (d : Dict K V) → k ≢ k' → lookup k' (remove k d) ≡ lookup k' d
  lookup-remove_other k k' [] h = refl
  lookup-remove_other k k' ((k'', v) ∷ d) h = elim (Bool-cases (key.same k'' k)) [
    | inl e ↦
        let e' : k'' ≡ k = (key.same_iff k'' k).0 e in
        rw e (rw (lookup-remove_other k k' d h, e', other k k' h) refl)
    | inr e ↦ rw e (rw (lookup-remove_other k k' d h) refl)
  ]
