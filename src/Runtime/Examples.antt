-- ===== src/Runtime/Examples.antt =====
-- A first start of the app with one camera, and its discovery.
use Prim.Native.String.{◌++◌ as ◌+++◌}
use ino_a9_local_bridge.Config.{parse_config}
use ino_a9_local_bridge.Value.{get}
use ino_a9_local_bridge.Base.{ℕ, ◌+◌, ◌≡◌, refl, none, some}
use ino_a9_local_bridge.Base.Int.{pos}
use ino_a9_local_bridge.Base.Except.{ok}
use ino_a9_local_bridge.Value.{Value, array, cons, nil, object, str, int, end, member}
use ino_a9_local_bridge.ControlApi.Store.{missing, readable}
use ino_a9_local_bridge.Runtime.{RuntimeFiles, prepare_runtime}
use ino_a9_local_bridge.Config.Examples.{raw}
use ino_a9_local_bridge.Runtime.Prepared.{prepare_runtime_idempotent}
use ino_a9_local_bridge.Runtime.Discovery.{Supervisor, register_discovery}

abbrev no_files : RuntimeFiles
no_files = record {
  bridge_config = none;
  go2rtc_config = none;
  control_state = missing;
  control_token = none;
}

abbrev camera : Value
camera = object (
    member "name" (str "garden") (
      member "host" (str "192.0.2.7") (
        member "bootstrap_prefix" (str "prefix")
          (member "user" (str "admin") (member "lan_password" (str "secret") end)))))

abbrev first_start : RuntimeFiles
first_start = record {
  bridge_config = some (
      object (
        member "listen_host" (str "0.0.0.0") (
          member "listen_port" (int (pos 8080)) (member "cameras" (array (cons camera nil)) end))));
  go2rtc_config = some (
      "log:\n  format: text\n  level: info\napi:\n  listen: \"127.0.0.1:1984\"\n"
      +++ ("rtsp:\n  listen: \":8554\"\nffmpeg:\n  timeout: 30\nstreams:\n  ino_a9_garden:\n"
          +++ ("    - ffmpeg:http://127.0.0.1:8080/garden/stream.mjpeg#video=h264\n"
              +++ ("    - exec:ffmpeg -hide_banner -loglevel warning -re -f alaw -ar 8000 -ac 1 "
                  +++ ("-i http://127.0.0.1:8080/garden/audio.alaw -vn -c:a libopus "
                      +++ "-application lowdelay -ar 48000 -ac 1 -rtsp_transport tcp -f rtsp {output}\n")))));
  control_state = readable (
      some (
        object (
          member "version" (int (pos 1))
            (member "cameras" (object (member "garden" (object end) end)) end))));
  control_token = some "s3cret\n";
}

first_start_prepared : prepare_runtime "s3cret" raw no_files ≡ (first_start, ok tt)
unfolding get parse_config prepare_runtime register_discovery
first_start_prepared = refl

prepare_runtime_idempotent_example : prepare_runtime "other" raw first_start ≡ (first_start, ok tt)
prepare_runtime_idempotent_example =
    prepare_runtime_idempotent "s3cret" "other" raw no_files first_start refl first_start_prepared

-- It counts its requests and answers with the name of a host.
abbrev supervisor : Supervisor ℕ
supervisor = λ request w.
    (w + 1, ok (object (member "data" (object (member "hostname" (str "local_ino") end)) end)))
