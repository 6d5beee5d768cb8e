-- ===== src/ControlApi/Store/Restart.antt =====
-- What the store keeps, and what a restart finds in its file. The order of a dict is forgotten.
use Prim.Native.String.{String}
use text.Mathlib.Text.{◌==◌ as str_eq}
use text.Mathlib.TextEquality.{eq_iff}
use ino_a9_local_bridge.Base.{
  ◌≡◌, ◌≢◌, refl, sym, ap, subst, ◌∙◌, List, [], ◌∷◌, Option, none, some, Bool, true, false, ◌||◌,
  ℕ, inl, inr,
}
use ino_a9_local_bridge.Base.Tests.{if◌then◌else◌, Bool-cases, Option-cases}
use ino_a9_local_bridge.Base.Dict.{
  Dict, lookup, insert, string_key, lookup-insert, lookup-insert_other,
}
use ino_a9_local_bridge.Base.Except.{ok, err, os_error}
use ino_a9_local_bridge.Value.{Value, null, Members, object, get, get_or_null}
use ino_a9_local_bridge.ControlApi.Values.{validated_control_value}
use ino_a9_local_bridge.ControlApi.Values.Idempotent.{validated_control_value-idempotent}
use ino_a9_local_bridge.ControlApi.Store.Writes.{values-lookup, updated, set-Writes}
use ino_a9_local_bridge.ControlApi.Store.{
  Controls, ControlStateStore, StateFile, file_of, controls_object, cameras_object, write, retained,
  restore, existing, members_of, persisted_controls, control_state_store, values, set,
}

-- The file is up to date, and every stored value is one that the validation returns.
pub record IsStored (s : ControlStateStore) : Type 0 where
  pub saved : s.file ≡ file_of s.state
  pub valid :
      (camera_id control : String) (controls : Controls) (value : Value)
      → lookup camera_id s.state ≡ some controls
      → lookup control controls ≡ some value
      → validated_control_value control value ≡ ok value

pub some-injective : {A : Type 0} {a b : A} → some a ≡ some b → a ≡ b
some-injective {a = a} {b = b} h = cc

true≢false : true ≢ false
true≢false h = cc

inserted_valid :
    (control : String) (value : Value) (controls : Controls) (k : String) (v : Value)
    → validated_control_value control value ≡ ok value
    → ((v' : Value) → lookup k controls ≡ some v' → validated_control_value k v' ≡ ok v')
    → lookup k (insert control value controls) ≡ some v
    → validated_control_value k v ≡ ok v
inserted_valid control value controls k v h others e = elim (Bool-cases (str_eq control k)) [
  | inl same ↦
      let c : control ≡ k = (eq_iff control k).0 same in
      let v≡ : value ≡ v = some-injective (
        sym (lookup-insert control value controls)
        ∙ subst (λ x. lookup x (insert control value controls) ≡ some v) (sym c) e) in
      subst (λ x. validated_control_value k x ≡ ok x) v≡
        (subst (λ x. validated_control_value x value ≡ ok value) c h)
  | inr different ↦
      let c : control ≢ k = λ same. true≢false (sym ((eq_iff control k).1 same) ∙ different) in
      others v (sym (lookup-insert_other control k value controls c) ∙ e)
]

updated-IsStored :
    (s : ControlStateStore) (camera_id control : String) (controls : Controls) (value : Value)
    → IsStored s
    → lookup camera_id s.state ≡ some controls
    → validated_control_value control value ≡ ok value
    → IsStored (updated s camera_id control controls value)
updated-IsStored s camera_id control controls value h there v = record {
  saved = refl;
  valid = λ id k cs x in_state in_controls. elim (Bool-cases (str_eq camera_id id)) [
    | inl same ↦
        let c : camera_id ≡ id = (eq_iff camera_id id).0 same in
        let held : insert control value controls ≡ cs = some-injective (
          sym (lookup-insert camera_id (insert control value controls) s.state)
          ∙ ap (λ n. lookup n (insert camera_id (insert control value controls) s.state)) c
          ∙ in_state) in
        inserted_valid control value controls k x v
          (λ x' e. h.valid camera_id k controls x' there e) (ap (lookup k) held ∙ in_controls)
    | inr different ↦
        let c : camera_id ≢ id = λ e. true≢false (sym ((eq_iff camera_id id).1 e) ∙ different) in
        h.valid id k cs x
          (sym (lookup-insert_other camera_id id (insert control value controls) s.state c)
            ∙ in_state)
          in_controls
  ];
}

-- On a valid store, a `set` that returns has validated the value, has stored the validated value
-- under the camera and the control and changed nothing else, and keeps the file up to date and
-- every stored value valid.
pub set-IsStored :
    (s s' : ControlStateStore) (camera_id control : String) (value : Value)
    → IsStored s
    → set s camera_id control value ≡ (s', ok tt)
    → IsStored s'
      × ((controls : Controls) × ((validated : Value) × (validated_control_value control value
              ≡ ok validated)
            × (lookup camera_id s.state ≡ some controls)
            × (s'.state ≡ insert camera_id (insert control validated controls) s.state)))
set-IsStored s s' camera_id control value h e =
    let w = set-Writes s s' camera_id control value e in
    let there = values-lookup s camera_id w.controls w.found in
    let again = validated_control_value-idempotent control value w.validated w.valid in
    (
      subst IsStored w.made
          (updated-IsStored s camera_id control w.controls w.validated h there again),
      (w.controls, (w.validated, w.valid, there, ap (λ x. x.state) (sym w.made))),
    )

get-controls_object :
    (controls : Controls) (control : String)
    → get (controls_object controls) control ≡ lookup control controls
unfolding get
get-controls_object [] control = refl
get-controls_object ((k, v) ∷ controls) control =
    ap (λ r. if str_eq k control then some v else r) (get-controls_object controls control)

get-cameras_object :
    (cameras : Dict String Controls) (camera_id : String) (controls : Controls)
    → lookup camera_id cameras ≡ some controls
    → get (cameras_object cameras) camera_id ≡ some (object (controls_object controls))
unfolding get
get-cameras_object [] camera_id controls h = cc
get-cameras_object ((k, cs) ∷ cameras) camera_id controls h =
    elim (Bool-cases (str_eq k camera_id)) [
      | inl e ↦ rw e (ap (λ x. some (object (controls_object x))) (some-injective (rw e at h)))
      | inr e ↦ rw e (get-cameras_object cameras camera_id controls (rw e at h))
    ]

abbrev pub member_of : String → List String → Bool
member_of k [] = false
member_of k (k' ∷ ks) = str_eq k' k || member_of k ks

abbrev no_value : Option Value
no_value = none

if_none : (b : Bool) → (if b then no_value else no_value) ≡ no_value
if_none true = refl
if_none false = refl

-- What is retained of an object whose values are all valid.
lookup-retained :
    (m : Members) (ks : List String) (k : String)
    → ((c : String) (v : Value) → get m c ≡ some v → validated_control_value c v ≡ ok v)
    → lookup k (retained m ks) ≡ (if member_of k ks then get m k else none)
unfolding retained
lookup-retained m [] k h = refl
lookup-retained m (c ∷ ks) k h =
    let rest = lookup-retained m ks k h in
    elim (Option-cases (get m c)) [
      | inl n ↦ elim (Bool-cases (str_eq c k)) [
        | inl e ↦
            let c≡ : c ≡ k = (eq_iff c k).0 e in
            let none_here : get m k ≡ none = subst (λ x. get m x ≡ none) c≡ n in
            rw (e, n, retained) (rest ∙ rw none_here (if_none (member_of k ks)))
        | inr e ↦ rw (e, n, retained) rest
      ]
      | inr (v, f) ↦ elim (Bool-cases (str_eq c k)) [
        | inl e ↦
            let c≡ : c ≡ k = (eq_iff c k).0 e in
            rw (e, f, h c v f, retained) (rw e (sym (subst (λ x. get m x ≡ some v) c≡ f)))
        | inr e ↦ rw (e, f, h c v f, retained) (rw e rest)
      ]
    ]

lookup-restore :
    (cameras : Members) (ids : List String) (id : String)
    → member_of id ids ≡ true
    → lookup id (restore cameras ids)
      ≡ some (retained (members_of (get_or_null cameras id)) persisted_controls)
unfolding restore
lookup-restore cameras [] id h = cc
lookup-restore cameras (i ∷ ids) id h = elim (Bool-cases (str_eq i id)) [
  | inl e ↦
      let i≡ : i ≡ id = (eq_iff i id).0 e in
      rw e (ap (λ x. some (retained (members_of (get_or_null cameras x)) persisted_controls)) i≡)
  | inr e ↦ rw e (lookup-restore cameras ids id (rw e at h))
]

-- The store that begins with what the cameras' members give.
abbrev pub restarted : (ℕ → Bool) → Members → List String → ControlStateStore
restarted disk cameras ids =
    let state = restore cameras ids in
    record { state = state; file = file_of state; disk = disk; writes = 1 }

pub control_state_store-restarted :
    (disk : ℕ → Bool) (file : StateFile) (cameras : Members) (ids : List String)
    → existing file ≡ ok cameras
    → control_state_store disk file ids
      ≡ (if disk 0 then ok (restarted disk cameras ids) else err os_error)
unfolding control_state_store write
control_state_store-restarted disk file cameras ids e = elim (Bool-cases (disk 0)) [
  | inl taken ↦ rw (e, taken) refl
  | inr refused ↦ rw (e, refused) refl
]

-- A store that is made again from the file of a valid store, which happens unless the disk refuses
-- its first write, has, for each camera that is stored and still among the ids, the same value of
-- every persisted control, or none where none was stored, whatever the order of the dicts.
pub restart_keeps :
    (disk : ℕ → Bool) (s : ControlStateStore) (ids : List String) (camera_id control : String)
    (controls : Controls)
    → IsStored s
    → member_of camera_id ids ≡ true
    → member_of control persisted_controls ≡ true
    → lookup camera_id s.state ≡ some controls
    → (s' : ControlStateStore) × (controls' : Controls) × (control_state_store disk s.file ids
        ≡ (if disk 0 then ok s' else err os_error))
      × (values s' camera_id ≡ ok controls')
      × (lookup control controls' ≡ lookup control controls)
unfolding values get
restart_keeps disk s ids camera_id control controls h is_camera is_control there =
    let cameras = cameras_object s.state in
    let file : existing s.file ≡ ok cameras = ap existing h.saved in
    let kept = retained (controls_object controls) persisted_controls in
    let s' = restarted disk cameras ids in
    let found : lookup camera_id (restore cameras ids) ≡ some kept =
      lookup-restore cameras ids camera_id is_camera
      ∙ ap
          (λ o.
            some (retained (members_of (elim o [ none ↦ null | some v ↦ v ])) persisted_controls))
          (get-cameras_object s.state camera_id controls there) in
    (
      s',
      kept,
      control_state_store-restarted disk s.file cameras ids file,
      rw (found, values) refl,
      lookup-retained (controls_object controls) persisted_controls control (λ c v e.
            h.valid camera_id c controls v there (sym (get-controls_object controls c) ∙ e))
          ∙ rw is_control (get-controls_object controls control),
    )
