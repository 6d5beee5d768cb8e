-- ===== src/Config/Examples.antt =====
-- A configuration of one camera.
use ino_a9_local_bridge.Base.{◌≡◌, refl, [], ◌∷◌, false}
use ino_a9_local_bridge.Base.Lists.{is_empty}
use ino_a9_local_bridge.Base.Except.{ok}
use ino_a9_local_bridge.Value.{Value, nil, cons, object, array, str, member, end, get}
use ino_a9_local_bridge.Config.{
  BridgeSettings, required_string, port, parse_camera, parse_cameras, parse_config,
}
use ino_a9_local_bridge.Config.Valid.{AreCameras, IsPort, parse_config-AreCameras}

abbrev pub raw : Value
raw = object (
    member "cameras"
      (array (
        cons
          (object (
            member "name" (str "garden") (
              member "host" (str "192.0.2.7") (
                member "bootstrap_prefix" (str "prefix")
                  (member "user" (str "admin") (member "lan_password" (str "secret") end))))))
          nil))
      end)

abbrev pub settings : BridgeSettings
settings = record {
  listen_host = str "127.0.0.1";
  listen_port = 8080;
  cameras =
      record {
        name = "garden";
        host = "192.0.2.7";
        port = 20190;
        credentials = record {
          bootstrap_prefix = "prefix";
          user = "admin";
          lan_password = "secret";
        };
      }
      ∷ [];
}

raw_parses : parse_config raw ≡ ok settings
unfolding parse_config parse_cameras parse_camera required_string port get
raw_parses = refl

parse_config-AreCameras_example :
    (is_empty settings.cameras ≡ false)
    × AreCameras [] settings.cameras
    × IsPort settings.listen_port
parse_config-AreCameras_example = parse_config-AreCameras raw settings raw_parses
