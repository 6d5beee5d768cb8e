-- ===== src/Integration/Coordinator.antt =====
-- `_async_update_data` of custom_components/ino_a9/coordinator.py. The details are asked for in the
-- order of the list, and an error ends the update.
use Prim.Native.String.{String}
use text.Mathlib.Text.{◌==◌ as str_eq}
use text.Mathlib.TextEquality.{eq_iff}
use ino_a9_local_bridge.Base.{
  ◌≡◌, ◌≢◌, refl, sym, ap, ap₂, subst, ◌∙◌, List, [], ◌∷◌, none, some, Bool, true, false, ◌||◌, inl,
  inr,
}
use ino_a9_local_bridge.Base.Tests.{if◌then◌else◌, Bool-cases, Option-cases}
use ino_a9_local_bridge.Base.Dict.{lookup, insert, string_key, lookup-insert, lookup-insert_other}
use ino_a9_local_bridge.Base.Except.{
  Exception, Result, ok, err, api_error, value_error, lookup_error, update_failed, ◌>>=◌, >>=-eq-ok,
  ok-injective, err≢ok, Result-cases,
}
use ino_a9_local_bridge.Value.{Value, Members, null, str, get, get_or_null}
use ino_a9_local_bridge.ControlApi.Store.Restart.{member_of}
use ino_a9_local_bridge.Integration.Api.{
  InoA9Api, Transport, is_id, camera_path, async_list_cameras, async_get_camera, request_at,
}
use ino_a9_local_bridge.Integration.Entity.{Documents}

abbrev id_of : Value → Result String
id_of (str id) = if str_eq id "" then err value_error else ok id
id_of _ = err value_error

-- The ids of the summaries, which must be texts that are not empty.
abbrev camera_ids : List Members → Result (List String)
camera_ids [] = ok []
camera_ids (summary ∷ summaries) = do
  id ← id_of (get_or_null summary "id")
  ids ← camera_ids summaries
  ok (id ∷ ids)

-- `detail["id"]` of an answer that `async_get_camera` has passed, whose id is a text.
abbrev key_of : Members → Result String
key_of detail = elim (get detail "id") [
  | none ↦ err lookup_error
  | some v ↦ elim v [ str id ↦ ok id | _ ↦ err lookup_error ]
]

-- The dict of the details; of two with one id, the last counts.
unfoldable pub documents_from : Documents → List Members → Result Documents
documents_from documents [] = ok documents
documents_from documents (detail ∷ details) =
    key_of detail >>= λ id. documents_from (insert id detail documents) details

abbrev failed : {A : Type 0} → Result A → Result A
failed (ok a) = ok a
failed (err e) = err update_failed

-- Whether a summary of the list has the id,
abbrev pub is_listed : String → List Members → Bool
is_listed id [] = false
is_listed id (summary ∷ summaries) = is_id id (get_or_null summary "id") || is_listed id summaries

-- and whether a document is there for it.
abbrev pub is_there : String → Documents → Bool
is_there id documents = elim (lookup id documents) [ none ↦ false | some m ↦ true ]

module _ {W : Type 0} (transport : Transport W) (api : InoA9Api) where
  abbrev collected : W → Result Members → W × Result (List Members) → W × Result (List Members)
  collected w (err e) rest = (w, err e)
  collected w (ok detail) rest = (rest.0, rest.1 >>= λ details. ok (detail ∷ details))

  -- `asyncio.gather`
  gather : List String → W → W × Result (List Members)
  gather [] w = (w, ok [])
  gather (id ∷ ids) w =
      let (w', answer) = async_get_camera transport api id w in
      let rest = gather ids w' in collected w' answer rest

  gathered : Result (List String) → W → W × Result Documents
  unfolding gather documents_from
  gathered (err e) w = (w, err e)
  gathered (ok ids) w =
      let (w', details) = gather ids w in (w', details >>= λ ds. documents_from [] ds)

  -- `_async_update_data`
  unfoldable pub async_update_data : W → W × Result Documents
  unfolding gathered
  async_update_data w =
      let (w1, summaries) = async_list_cameras transport api w in
      let (w2, documents) = gathered (summaries >>= camera_ids) w1 in (w2, failed documents)

  -- Each detail has the id that was asked for.
  abbrev AreOf : List String → List Members → Type 0
  AreOf [] details = details ≡ []
  AreOf (id ∷ ids) [] = ⊥
  AreOf (id ∷ ids) (detail ∷ details) = (get_or_null detail "id" ≡ str id) × AreOf ids details

  is_id-eq-str : (id : String) (v : Value) → is_id id v ≡ true → v ≡ str id
  is_id-eq-str id (str text) h = ap str ((eq_iff text id).0 h)
  is_id-eq-str id _ h = cc

  -- An answer that passes the client's test has the id that was asked for.
  tested :
      (id : String) (payload m : Members) (e : Exception)
      → (if is_id id (get_or_null payload "id") then ok payload else err e) ≡ ok m
      → get_or_null m "id" ≡ str id
  tested id payload m raised h = elim (Bool-cases (is_id id (get_or_null payload "id"))) [
    | inl own ↦
        let same : payload ≡ m = ok-injective (rw own at h) in
        subst (λ x. get_or_null x "id" ≡ str id) same
          (is_id-eq-str id (get_or_null payload "id") own)
    | inr other ↦ let wrong : err raised ≡ ok m = rw other at h in cc
  ]

  async_get_camera-own :
      (id : String) (w : W) (m : Members)
      → (async_get_camera transport api id w).1 ≡ ok m
      → get_or_null m "id" ≡ str id
  unfolding async_get_camera
  async_get_camera-own id w m e =
      let answer = (request_at transport api "GET" (camera_path id) none w).1 in
      let (payload, _, e1) =
        >>=-eq-ok answer (λ p. if is_id id (get_or_null p "id") then ok p else err (api_error 502))
          e in
      tested id payload m (api_error 502) e1

  collected-AreOf :
      (id : String) (ids : List String) (w : W) (answer : Result Members)
      (rest : W × Result (List Members)) (details : List Members)
      → ((m : Members) → answer ≡ ok m → get_or_null m "id" ≡ str id)
      → ((ds : List Members) → rest.1 ≡ ok ds → AreOf ids ds)
      → (collected w answer rest).1 ≡ ok details
      → AreOf (id ∷ ids) details
  collected-AreOf id ids w (err e) rest details own others h = cc
  collected-AreOf id ids w (ok m) rest details own others h =
      let (ds, e1, made) = >>=-eq-ok rest.1 _ h in
      subst (AreOf (id ∷ ids)) (ok-injective made) (own m refl, others ds e1)

  gather-AreOf :
      (ids : List String) (w : W) (details : List Members)
      → (gather ids w).1 ≡ ok details
      → AreOf ids details
  unfolding gather
  gather-AreOf [] w details e = sym (ok-injective e)
  gather-AreOf (id ∷ ids) w details e =
      let first = async_get_camera transport api id w in
      collected-AreOf id ids first.0 first.1 (gather ids first.0) details
        (λ m got. async_get_camera-own id w m got) (λ ds got. gather-AreOf ids first.0 ds got) e

  key_of-own : (m : Members) (id : String) → get_or_null m "id" ≡ str id → key_of m ≡ ok id
  key_of-own m id own = elim (Option-cases (get m "id")) [
    | inl n ↦ let wrong : null ≡ str id = rw (n, get_or_null) at own in cc
    | inr (v, f) ↦
        let is_text : v ≡ str id = rw (f, get_or_null) at own in
        rw (f, key_of) (ap (λ x. elim x [ str id ↦ ok id | _ ↦ err lookup_error ]) is_text)
  ]

  is_there-insert :
      (i id : String) (m : Members) (documents : Documents)
      → is_there id (insert i m documents) ≡ (str_eq i id || is_there id documents)
  is_there-insert i id m documents = elim (Bool-cases (str_eq i id)) [
    | inl same ↦ rw same (
        ap (λ o. elim o [ none ↦ false | some m ↦ true ])
          (subst (λ x. lookup x (insert i m documents) ≡ some m) ((eq_iff i id).0 same)
            (lookup-insert i m documents)))
    | inr different ↦
        let other : i ≢ id =
          λ same. let wrong : true ≡ false = sym ((eq_iff i id).1 same) ∙ different in cc in
        rw different (
          ap (λ o. elim o [ none ↦ false | some m ↦ true ])
            (lookup-insert_other i id m documents other))
  ]

  turned : (a b c : Bool) → (a || (b || c)) ≡ ((b || a) || c)
  turned true true c = refl
  turned true false c = refl
  turned false true c = refl
  turned false false c = refl

  -- The ids of the details are the new keys.
  documents_from-there :
      (ids : List String) (details : List Members) (documents made : Documents) (id : String)
      → AreOf ids details
      → documents_from documents details ≡ ok made
      → is_there id made ≡ (member_of id ids || is_there id documents)
  unfolding documents_from
  documents_from-there [] [] documents made id own e = ap (is_there id) (sym (ok-injective e))
  documents_from-there [] (m ∷ details) documents made id own e = cc
  documents_from-there (i ∷ ids) [] documents made id own e = absurd own
  documents_from-there (i ∷ ids) (m ∷ details) documents made id (own, others) e =
      let rest : documents_from (insert i m documents) details ≡ ok made =
        ap (λ r. r >>= λ k. documents_from (insert k m documents) details)
          (sym (key_of-own m i own))
        ∙ e in
      documents_from-there ids details (insert i m documents) made id others rest
      ∙ ap (λ b. member_of id ids || b) (is_there-insert i id m documents)
      ∙ turned (member_of id ids) (str_eq i id) (is_there id documents)

  id_of-eq-ok : (v : Value) (id : String) → id_of v ≡ ok id → v ≡ str id
  id_of-eq-ok (str text) id e = elim (Bool-cases (str_eq text "")) [
    | inl empty ↦ absurd (err≢ok (rw (empty, id_of) at e))
    | inr filled ↦ ap str (ok-injective (rw (filled, id_of) at e))
  ]
  id_of-eq-ok _ id e = cc

  camera_ids-listed :
      (summaries : List Members) (ids : List String) (id : String)
      → camera_ids summaries ≡ ok ids
      → member_of id ids ≡ is_listed id summaries
  camera_ids-listed [] ids id e = ap (member_of id) (sym (ok-injective e))
  camera_ids-listed (summary ∷ summaries) ids id e =
      let (i, e1, rest) = >>=-eq-ok (id_of (get_or_null summary "id")) _ e in
      let (is, e2, made) = >>=-eq-ok (camera_ids summaries) _ rest in
      let named = id_of-eq-ok (get_or_null summary "id") i e1 in
      ap (member_of id) (sym (ok-injective made))
      ∙ ap₂ (λ a b. a || b) (ap (is_id id) (sym named)) (camera_ids-listed summaries is id e2)

  gathered-there :
      (ids : List String) (w : W) (documents : Documents) (id : String)
      → (gathered (ok ids) w).1 ≡ ok documents
      → is_there id documents ≡ member_of id ids
  unfolding gathered
  gathered-there ids w documents id e =
      let (details, e1, made) = >>=-eq-ok (gather ids w).1 _ e in
      documents_from-there ids details [] documents id (gather-AreOf ids w details e1) made
      ∙ or_false (member_of id ids)
    where
      or_false : (b : Bool) → (b || false) ≡ b
      or_false true = refl
      or_false false = refl

  failed-eq-ok : {A : Type 0} (r : Result A) (a : A) → failed r ≡ ok a → r ≡ ok a
  failed-eq-ok (ok b) a e = e
  failed-eq-ok (err raised) a e = let wrong : err update_failed ≡ ok a = e in cc

  listed-there :
      (summaries : Result (List Members)) (w : W) (documents : Documents)
      → (gathered (summaries >>= camera_ids) w).1 ≡ ok documents
      → (listed : List Members) × (summaries ≡ ok listed)
        × ((id : String) → is_there id documents ≡ is_listed id listed)
  unfolding gathered
  listed-there (err e) w documents h = absurd (err≢ok h)
  listed-there (ok listed) w documents h = elim (Result-cases (camera_ids listed)) [
    | inl (ids, f) ↦ (
      listed,
      refl,
      λ id.
          gathered-there ids w documents id (subst (λ r. (gathered r w).1 ≡ ok documents) f h)
          ∙ camera_ids-listed listed ids id f,
    )
    | inr (x, f) ↦ absurd (err≢ok (subst (λ r. (gathered r w).1 ≡ ok documents) f h))
  ]

  -- After an update that succeeds there is a document for each camera that the app has listed, and for
  -- no other, whatever the app has answered.
  pub async_update_data_listed :
      (w : W) (documents : Documents)
      → (async_update_data w).1 ≡ ok documents
      → (summaries : List Members) × ((async_list_cameras transport api w).1 ≡ ok summaries)
        × ((id : String) → is_there id documents ≡ is_listed id summaries)
  unfolding async_update_data
  async_update_data_listed w documents e =
      let listed = async_list_cameras transport api w in
      let updated = gathered (listed.1 >>= camera_ids) listed.0 in
      listed-there listed.1 listed.0 documents (failed-eq-ok updated.1 documents e)
