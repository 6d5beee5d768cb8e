-- ===== src/Integration/Examples.antt =====
-- A client whose requests reach a bridge of one camera as they are.
use Prim.Native.String.{String}
use text.Mathlib.Text.{◌==◌ as str_eq}
use ino_a9_local_bridge.Base.{
  ℕ, ◌+◌, ◌≡◌, refl, ap, List, [], ◌∷◌, Option, some, none, true, false, arith,
}
use ino_a9_local_bridge.Base.Tests.{if◌then◌else◌}
use ino_a9_local_bridge.Base.Int.{pos}
use ino_a9_local_bridge.Value.{Members, null, str, object, array, cons, nil, end, member, get}
use ino_a9_local_bridge.Controls.{Time, IntrusionSchedule, after}
use ino_a9_local_bridge.ControlApi.Values.{clock_time, clock_from_value, intrusion_value}
use ino_a9_local_bridge.ControlApi.Values.Idempotent.{IsAccepted, clock_from_value-clock_text}
use ino_a9_local_bridge.ControlApi.Store.{Controls, members_of}
use ino_a9_local_bridge.Runtime.Discovery.{discovery_config}
use ino_a9_local_bridge.Integration.{ConnectionData, validated_data}
use ino_a9_local_bridge.Integration.Setup.{discovery_config-ino_a9_api}
use ino_a9_local_bridge.Integration.Entity.{
  TimeLibrary, Documents, control_state, is_on, intrusion_payload,
}
use ino_a9_local_bridge.Integration.Intrusion.{intrusion_payload-detail}
use ino_a9_local_bridge.Integration.Coordinator.{
  async_update_data, async_update_data_listed, is_there, is_listed, documents_from,
}
use ino_a9_local_bridge.Base.Dict.{Dict}
use ino_a9_local_bridge.Base.Except.{Result, ok, err}
use ino_a9_local_bridge.ControlApi.Handle.{
  Camera, Api, CameraStatus, update_control, intrusion_request, intrusion,
}
use ino_a9_local_bridge.ControlApi.Handle.Routes.{skip, detail}
use ino_a9_local_bridge.ControlApi.Examples.{answering, led_body, before}
use ino_a9_local_bridge.Bridge.{Route, Answer, serve}
use ino_a9_local_bridge.ControlApi.Handle.Bearer.{count, skip-append}
use ino_a9_local_bridge.Runtime.Discovery.Token.{bearer-authorized}
use ino_a9_local_bridge.Integration.Api.{
  InoA9Api, Transport, base_url, ino_a9_api, async_set_control, async_list_cameras,
  async_get_camera,
}
use ino_a9_local_bridge.Integration.Served.{
  received, client_result, IsServed, async_set_control-update_control,
}

abbrev client : InoA9Api
client = record { host = "local-ino"; http_port = 8080; rtsp_port = 8554; token = "s3cret" }

abbrev no_media : Route → ℕ → Answer
no_media = λ route w. none

abbrev one_camera : Dict String (Camera ℕ)
one_camera = ("garden", answering) ∷ []

-- What stands behind the base of the URL is the path.
abbrev direct : Transport (Api ℕ)
direct = λ r s.
    let (s', answer) =
      serve no_media ("garden" ∷ []) one_camera (some "s3cret")
        (record {
          method = r.method;
          path = skip (count (base_url client)) r.url;
          authorization = some r.authorization;
          body = r.json_payload;
        })
        s in
    (s', received answer)

direct-IsServed : IsServed no_media ("garden" ∷ []) one_camera (some "s3cret") direct client
direct-IsServed = record {
  served = λ method path body s plain.
      ap
        (λ p.
          let (s', answer) =
            serve no_media ("garden" ∷ []) one_camera (some "s3cret")
              (record {
                method = method;
                path = p;
                authorization = some "Bearer s3cret";
                body = body;
              })
              s in
          (s', received answer))
        (skip-append (base_url client) path);
}

async_set_control-update_control_example :
    async_set_control direct client "garden" "led" led_body before ≡ (
      let (s', r) = update_control "garden" answering "led" led_body before in
      (s', client_result r))
async_set_control-update_control_example =
    async_set_control-update_control no_media ("garden" ∷ []) one_camera (some "s3cret") direct
      client direct-IsServed "garden" "led" answering led_body before refl refl
      (bearer-authorized "s3cret" refl refl) refl

-- A schedule of the weekend evenings, and the library's times as the control API reads them.
abbrev weekend : IntrusionSchedule
weekend = record { days = 5 ∷ 6 ∷ []; start = clock_time 20 0; end = clock_time 23 30 }

weekend-IsAccepted : IsAccepted weekend
weekend-IsAccepted = record {
  schedule = record {
    some_day = refl;
    rising = (omega arith, omega arith, (omega arith, omega arith, tt));
    start_exact = refl;
    end_exact = refl;
    ordered = omega arith;
  };
  start_clock = record {
    hour = 20;
    minute = 0;
    hour_below = omega arith;
    minute_below = omega arith;
    same = refl;
  };
  end_clock = record {
    hour = 23;
    minute = 30;
    hour_below = omega arith;
    minute_below = omega arith;
    same = refl;
  };
}

abbrev returned : Result Time → Option Time
returned (ok t) = some t
returned (err e) = none

abbrev times : TimeLibrary
times = record {
  fromisoformat = λ text. returned (clock_from_value (str text));
  greater = λ a b. ok (after a b);
  fromisoformat-clock_text = λ t h. ap returned (clock_from_value-clock_text t h);
  greater_exact = λ a b exact exact'. refl;
}

abbrev saved : Controls
saved = ("intrusion", intrusion_value true weekend) ∷ []

abbrev status : CameraStatus
status = record { connected = true; has_error = false; media = end }

abbrev documents : Documents
documents = ("garden", members_of (detail "garden" status saved null null)) ∷ []

intrusion_payload-detail_example :
    (is_on "intrusion" (control_state documents "garden" "intrusion") ≡ some true)
    × ((payload : Members) × (intrusion_payload times
            (control_state documents "garden" "intrusion")
            false
          ≡ ok payload)
        × (intrusion_request payload ≡ ok (intrusion false weekend)))
intrusion_payload-detail_example =
    intrusion_payload-detail times documents "garden" status saved null null true false weekend
      weekend-IsAccepted refl refl

discovery_config-ino_a9_api_example :
    (d : ConnectionData) × (validated_data (discovery_config "local-ino" "s3cret") ≡ some d)
    × (ino_a9_api d.host (pos d.http_port) (pos d.rtsp_port) d.token
        ≡ ok (record { host = "local-ino"; http_port = 8080; rtsp_port = 8554; token = "s3cret" }))
discovery_config-ino_a9_api_example = discovery_config-ino_a9_api "local-ino" "s3cret" refl refl

-- An app that lists one camera, and answers every other request with its document.
abbrev garden : Members
garden = member "id" (str "garden") end

abbrev listing : Transport ℕ
listing = λ r w. (
  w + 1,
  some (record {
    status = 200;
    json = some (
        if str_eq r.url "http://local-ino:8080/api/v1/cameras"
        then object (member "cameras" (array (cons (object garden) nil)) end)
        else object garden);
    content = [];
  }),
)

updated : (async_update_data listing client 0).1 ≡ ok (("garden", garden) ∷ [])
unfolding async_update_data async_list_cameras async_get_camera documents_from get
updated = refl

async_update_data_listed_example :
    (summaries : List Members) × ((async_list_cameras listing client 0).1 ≡ ok summaries)
    × ((id : String) → is_there id (("garden", garden) ∷ []) ≡ is_listed id summaries)
async_update_data_listed_example =
    async_update_data_listed listing client 0 (("garden", garden) ∷ []) updated
