-- ===== src/Runtime/State.antt =====
-- The state file that the app prepares: the entries of the cameras, before and after.
use Prim.Native.String.{String}
use text.Mathlib.Text.{◌==◌ as str_eq}
use text.Mathlib.TextEquality.{eq_iff}
use ino_a9_local_bridge.Base.{
  ◌≡◌, refl, ap, ap₂, ◌∙◌, List, [], ◌∷◌, Option, none, some, Bool, true, false, ◌||◌, inl, inr,
}
use ino_a9_local_bridge.Base.Tests.{Bool-cases}
use ino_a9_local_bridge.Value.{Value, Members, object, end, member, get, get_or_null}
use ino_a9_local_bridge.Config.{get_or}
use ino_a9_local_bridge.ControlApi.Store.{members_of, retained, restore, persisted_controls}
use ino_a9_local_bridge.ControlApi.Store.Restart.{member_of}
use ino_a9_local_bridge.Runtime.{entries}

-- Every one of the texts is among the names.
abbrev pub AreAmong : List String → List String → Type 0
AreAmong ids names = (id : String) → member_of id ids ≡ true → member_of id names ≡ true

or_true : (b : Bool) → (b || true) ≡ true
or_true true = refl
or_true false = refl

tail-AreAmong :
    (id : String) (ids names : List String) → AreAmong (id ∷ ids) names → AreAmong ids names
tail-AreAmong id ids names h k e = h k (rw e (or_true (str_eq id k)))

head-member : (id : String) (ids : List String) → member_of id (id ∷ ids) ≡ true
head-member id ids = rw ((eq_iff id id).1 refl) refl

get-entries :
    (before : Members) (names : List String) (id : String)
    → member_of id names ≡ true
    → get (entries before names) id ≡ some (get_or before id (object end))
unfolding get
get-entries before [] id h = cc
get-entries before (name ∷ names) id h = elim (Bool-cases (str_eq name id)) [
  | inl e ↦ rw e (ap (λ x. some (get_or before x (object end))) ((eq_iff name id).0 e))
  | inr e ↦ rw e (get-entries before names id (rw e at h))
]

-- What a camera's entry is, after as before.
get_or-entries :
    (before : Members) (names : List String) (id : String)
    → member_of id names ≡ true
    → get_or (entries before names) id (object end) ≡ get_or before id (object end)
get_or-entries before names id h =
    ap (λ o. elim o [ none ↦ object end | some v ↦ v ]) (get-entries before names id h)

members-entries :
    (before : Members) (names : List String) (id : String)
    → member_of id names ≡ true
    → members_of (get_or_null (entries before names) id) ≡ members_of (get_or_null before id)
members-entries before names id h =
    ap (λ o. members_of (elim o [ none ↦ Value.null | some v ↦ v ])) (get-entries before names id h)
    ∙ defaults (get before id)
  where
    defaults :
        (o : Option Value)
        → members_of (elim o [ none ↦ object end | some v ↦ v ])
          ≡ members_of (elim o [ none ↦ Value.null | some v ↦ v ])
    defaults none = refl
    defaults (some v) = refl

pub entries_again :
    (before : Members) (names ids : List String)
    → AreAmong ids names
    → entries (entries before names) ids ≡ entries before ids
entries_again before names [] h = refl
entries_again before names (id ∷ ids) h =
    ap₂ (member id) (get_or-entries before names id (h id (head-member id ids)))
      (entries_again before names ids (tail-AreAmong id ids names h))

-- The store finds in the entries what it found before.
pub restore-entries :
    (before : Members) (names ids : List String)
    → AreAmong ids names
    → restore (entries before names) ids ≡ restore before ids
unfolding restore
restore-entries before names [] h = refl
restore-entries before names (id ∷ ids) h =
    ap₂ (λ m rest. (id, retained m persisted_controls) ∷ rest)
      (members-entries before names id (h id (head-member id ids)))
      (restore-entries before names ids (tail-AreAmong id ids names h))
