-- ===== src/ControlApi/Store/Writes.antt =====
-- What a `set` of `ControlStateStore` has done, whether it returns or raises.
use Prim.Native.String.{String}
use ino_a9_local_bridge.Base.{◌+◌, ◌≡◌, sym, ap, ◌∙◌, ◌⊎◌, some, false, inl, inr}
use ino_a9_local_bridge.Base.Tests.{Bool-cases, Option-cases}
use ino_a9_local_bridge.Base.Dict.{lookup, insert, string_key}
use ino_a9_local_bridge.Base.Except.{
  Exception, ok, err, err≢ok, os_error, >>=-eq-ok, ok-injective, err-injective, Result-cases,
}
use ino_a9_local_bridge.Value.{Value}
use ino_a9_local_bridge.ControlApi.Values.{validated_control_value}
use ino_a9_local_bridge.ControlApi.Store.{
  Controls, ControlStateStore, file_of, write, values, checked, set,
}

pub values-lookup :
    (s : ControlStateStore) (camera_id : String) (controls : Controls)
    → values s camera_id ≡ ok controls
    → lookup camera_id s.state ≡ some controls
unfolding values
values-lookup s camera_id controls e = elim (Option-cases (lookup camera_id s.state)) [
  | inl n ↦ cc
  | inr (controls', f) ↦ f ∙ ap some (ok-injective (rw (f, values) at e))
]

-- The store with a validated value in it, and in its file.
abbrev pub updated : ControlStateStore → String → String → Controls → Value → ControlStateStore
updated s camera_id control controls value =
    let state = insert camera_id (insert control value controls) s.state in
    record s { state = state; file = file_of state; writes = s.writes + 1 }

write-eq-ok :
    (s s' : ControlStateStore)
    → write s ≡ (s', ok tt)
    → record s { file = file_of s.state; writes = s.writes + 1 } ≡ s'
unfolding write
write-eq-ok s s' e = elim (Bool-cases (s.disk s.writes)) [
  | inl taken ↦ ap (λ p. p.0) (rw (taken, write) at e)
  | inr refused ↦ absurd (err≢ok (ap (λ p. p.1) (rw (refused, write) at e)))
]

write-eq-err :
    (s s' : ControlStateStore) (x : Exception)
    → write s ≡ (s', err x)
    → (s.disk s.writes ≡ false) × (record s { writes = s.writes + 1 } ≡ s') × (os_error ≡ x)
unfolding write
write-eq-err s s' x e = elim (Bool-cases (s.disk s.writes)) [
  | inl taken ↦ absurd (err≢ok (sym (ap (λ p. p.1) (rw (taken, write) at e))))
  | inr refused ↦
      let same = rw (refused, write) at e in
      (refused, ap (λ p. p.0) same, err-injective (ap (λ p. p.1) same))
]

-- What a `set` that has come to its assignment has found.
record Found (s : ControlStateStore) (camera_id control : String) (value : Value)
    (p : Value × Controls) : Type 0 where
  valid : validated_control_value control value ≡ ok p.0
  held : values s camera_id ≡ ok p.1

checked-Found :
    (s : ControlStateStore) (camera_id control : String) (value : Value) (p : Value × Controls)
    → checked s camera_id control value ≡ ok p
    → Found s camera_id control value p
checked-Found s camera_id control value p e =
    let (v, e1, rest) = >>=-eq-ok (validated_control_value control value) _ e in
    let (cs, e2, made) = >>=-eq-ok (values s camera_id) _ rest in
    let same : (v, cs) ≡ p = ok-injective made in
    record { valid = e1 ∙ ap (λ q. ok (q.0)) same; held = e2 ∙ ap (λ q. ok (q.1)) same }

-- The store after the assignment.
abbrev pub assigned : ControlStateStore → String → String → Controls → Value → ControlStateStore
assigned s camera_id control controls value = record s {
  state = insert camera_id (insert control value controls) s.state;
}

-- What a `set` that returns has done.
pub record Writes (s s' : ControlStateStore) (camera_id control : String) (value : Value)
    : Type 0 where
  pub validated : Value
  pub controls : Controls
  pub valid : validated_control_value control value ≡ ok validated
  pub found : values s camera_id ≡ ok controls
  pub made : updated s camera_id control controls validated ≡ s'

pub set-Writes :
    (s s' : ControlStateStore) (camera_id control : String) (value : Value)
    → set s camera_id control value ≡ (s', ok tt)
    → Writes s s' camera_id control value
unfolding set
set-Writes s s' camera_id control value e =
    elim (Result-cases (checked s camera_id control value)) [
      | inl ((validated, controls), f) ↦
          let h = checked-Found s camera_id control value (validated, controls) f in
          record {
            validated = validated;
            controls = controls;
            valid = h.valid;
            found = h.held;
            made =
                write-eq-ok (assigned s camera_id control controls validated) s' (rw (f, set) at e);
          }
      | inr (x, f) ↦ absurd (err≢ok (ap (λ p. p.1) (rw (f, set) at e)))
    ]

-- What a `set` has done whose file the disk has refused.
pub record Refuses (s s' : ControlStateStore) (camera_id control : String) (value : Value)
    (x : Exception) : Type 0 where
  pub validated : Value
  pub controls : Controls
  pub valid : validated_control_value control value ≡ ok validated
  pub found : values s camera_id ≡ ok controls
  pub refused : s.disk s.writes ≡ false
  pub made : record (assigned s camera_id control controls validated) { writes = s.writes + 1 } ≡ s'
  pub raised : os_error ≡ x

pub set-Refuses :
    (s s' : ControlStateStore) (camera_id control : String) (value : Value) (x : Exception)
    → set s camera_id control value ≡ (s', err x)
    → (s ≡ s') ⊎ Refuses s s' camera_id control value x
unfolding set
set-Refuses s s' camera_id control value x e =
    elim (Result-cases (checked s camera_id control value)) [
      | inl ((validated, controls), f) ↦
          let h = checked-Found s camera_id control value (validated, controls) f in
          let (refused, made, raised) =
            write-eq-err (assigned s camera_id control controls validated) s' x
              (rw (f, set) at e) in
          inr (record {
            validated = validated;
            controls = controls;
            valid = h.valid;
            found = h.held;
            refused = refused;
            made = made;
            raised = raised;
          })
      | inr (y, f) ↦ inl (ap (λ p. p.0) (rw (f, set) at e))
    ]
