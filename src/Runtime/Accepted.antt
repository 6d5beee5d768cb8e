-- ===== src/Runtime/Accepted.antt =====
-- What options that pass the tests of `prepare_runtime` say.
use Prim.Native.String.{String}
use ino_a9_local_bridge.Base.{◌≡◌, refl, ap, subst, Bool, true, false}
use ino_a9_local_bridge.Base.Tests.{if◌then◌else◌}
use ino_a9_local_bridge.Base.Except.{ok, err, value_error, >>=-eq-ok, ok-injective}
use ino_a9_local_bridge.Value.{Value, Members, array, cons, object, str, get_or_null}
use ino_a9_local_bridge.Config.{BridgeSettings, is_in, get_or, members_or_raise, parse_config}
use ino_a9_local_bridge.Runtime.{log_levels, level_of, camera_list, bridge_raw, Options, options_of}

level_of-eq-ok :
    (v : Value) (level : String)
    → level_of v ≡ ok level
    → (v ≡ str level) × (is_in level log_levels ≡ true)
level_of-eq-ok (str text) level e = go (is_in text log_levels) refl e
  where
    go :
        (b : Bool)
        → is_in text log_levels ≡ b
        → (if b then ok text else err value_error) ≡ ok level
        → (str text ≡ str level) × (is_in level log_levels ≡ true)
    go true known e =
        (ap str (ok-injective e), subst (λ x. is_in x log_levels ≡ true) (ok-injective e) known)
    go false unknown e = cc
level_of-eq-ok _ level e = cc

pub members_or_raise-eq-ok : (v : Value) (m : Members) → members_or_raise v ≡ ok m → v ≡ object m
members_or_raise-eq-ok (object m') m e = ap object (ok-injective e)
members_or_raise-eq-ok _ m e = cc

camera_list-eq-ok : (v cameras : Value) → camera_list v ≡ ok cameras → v ≡ cameras
camera_list-eq-ok (array (cons v vs)) cameras e = ok-injective e
camera_list-eq-ok _ cameras e = cc

-- What options that pass the tests say.
pub record IsAccepted (raw : Value) (o : Options) : Type 0 where
  pub options : Members
  pub given : raw ≡ object options
  pub level : get_or options "log_level" (str "info") ≡ str o.log_level
  pub level_known : is_in o.log_level log_levels ≡ true
  pub cameras : get_or_null options "cameras" ≡ o.cameras
  pub settings : BridgeSettings
  pub parsed : parse_config (bridge_raw o.cameras) ≡ ok settings
  pub made : settings.cameras ≡ o.settings

pub options_of-IsAccepted : (raw : Value) (o : Options) → options_of raw ≡ ok o → IsAccepted raw o
unfolding options_of
options_of-IsAccepted raw o e =
    let (options, e1, rest1) = >>=-eq-ok (members_or_raise raw) _ e in
    let (level, e2, rest2) =
      >>=-eq-ok (level_of (get_or options "log_level" (str "info"))) _ rest1 in
    let (cameras, e3, rest3) = >>=-eq-ok (camera_list (get_or_null options "cameras")) _ rest2 in
    let (settings, e4, rest4) = >>=-eq-ok (parse_config (bridge_raw cameras)) _ rest3 in
    let (is_text, known) = level_of-eq-ok (get_or options "log_level" (str "info")) level e2 in
    subst (IsAccepted raw) (ok-injective rest4) (record {
      options = options;
      given = members_or_raise-eq-ok raw options e1;
      level = is_text;
      level_known = known;
      cameras = camera_list-eq-ok (get_or_null options "cameras") cameras e3;
      settings = settings;
      parsed = e4;
      made = refl;
    })
