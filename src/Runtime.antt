-- ===== src/Runtime.antt =====
-- ino_a9_bridge/src/wificam_bridge/app_runtime.py: the files that the app prepares for the bridge and
-- for go2rtc, and the discovery message for Home Assistant.
pub mod State
pub mod Lines
pub mod Strip
pub mod Accepted
pub mod Prepared
pub mod Discovery
pub mod Examples
use Prim.Native.Char.{code}
use Prim.Native.String.{String, ◌++◌ as ◌+++◌}
use text.Mathlib.Text.{◌==◌ as str_eq}
use ino_a9_local_bridge.Base.{
  ℕ, List, [], ◌∷◌, ◌++◌, Option, none, some, Bool, false, not, ◌&&◌, ◌||◌,
}
use ino_a9_local_bridge.Base.Tests.{◌==◌, if◌then◌else◌}
use ino_a9_local_bridge.Base.Int.{pos}
use ino_a9_local_bridge.Base.Except.{Result, ok, err, value_error, ◌>>=◌}
use ino_a9_local_bridge.Value.{
  Value, Members, cons, end, member, object, array, str, int, get_or_null,
}
use ino_a9_local_bridge.Config.{
  CameraSettings, get_or, is_in, in_range, members_or_raise, parse_config,
}
use ino_a9_local_bridge.ControlApi.Store.{StateFile, readable, existing}

abbrev pub log_levels : List String
log_levels = "debug" ∷ "info" ∷ "warning" ∷ "error" ∷ []

-- What the four files of the data directory hold. The token file is none where it is missing.
pub record RuntimeFiles : Type 0 where
  pub bridge_config : Option Value
  pub go2rtc_config : Option String
  pub control_state : StateFile
  pub control_token : Option String

-- The tests of `str.isspace`.
abbrev pub is_space : ℕ → Bool
is_space n =
    in_range 9 13 n
    || in_range 28 32 n
    || n == 133
    || n == 160
    || n == 5760
    || in_range 8192 8202 n
    || n == 8232
    || n == 8233
    || n == 8239
    || n == 8287
    || n == 12288

abbrev pub lstrip : String → String
lstrip String.[] = String.[]
lstrip (String.◌∷◌ c rest) =
    let stripped = lstrip rest in if is_space (code c) then stripped else String.◌∷◌ c rest

abbrev pub rstrip : String → String
rstrip String.[] = String.[]
rstrip (String.◌∷◌ c rest) =
    let stripped = rstrip rest in
    if is_space (code c) && str_eq stripped "" then String.[] else String.◌∷◌ c stripped

-- `text.strip()`
abbrev pub strip : String → String
strip text = rstrip (lstrip text)

abbrev pub audio_command : String
audio_command =
    "    - exec:ffmpeg -hide_banner -loglevel warning -re -f alaw -ar 8000 -ac 1 "
    +++ "-i http://127.0.0.1:8080/"

abbrev pub audio_options : String
audio_options =
    "/audio.alaw -vn -c:a libopus "
    +++ "-application lowdelay -ar 48000 -ac 1 -rtsp_transport tcp -f rtsp {output}"

-- The lines of a camera in go2rtc's configuration.
abbrev pub stream_lines : String → List String
stream_lines name =
    (("  ino_a9_" +++ name) +++ ":")
    ∷ (("    - ffmpeg:http://127.0.0.1:8080/" +++ name) +++ "/stream.mjpeg#video=h264")
    ∷ ((audio_command +++ name) +++ audio_options)
    ∷ []

abbrev pub all_stream_lines : List CameraSettings → List String
all_stream_lines [] = []
all_stream_lines (camera ∷ cameras) = stream_lines camera.name ++ all_stream_lines cameras

abbrev pub config_lines : List CameraSettings → String → List String
config_lines cameras log_level =
    "log:"
    ∷ "  format: text"
    ∷ ("  level: " +++ log_level)
    ∷ "api:"
    ∷ "  listen: \"127.0.0.1:1984\""
    ∷ "rtsp:"
    ∷ "  listen: \":8554\""
    ∷ "ffmpeg:"
    ∷ "  timeout: 30"
    ∷ "streams:"
    ∷ all_stream_lines cameras

-- `"\n".join(lines) + "\n"`, where there is a line.
abbrev pub joined : List String → String
joined [] = String.[]
joined (line ∷ lines) = (line +++ "\n") +++ joined lines

-- `_go2rtc_config`
unfoldable pub go2rtc_config : List CameraSettings → String → String
go2rtc_config cameras log_level = joined (config_lines cameras log_level)

abbrev pub names_of : List CameraSettings → List String
names_of [] = []
names_of (camera ∷ cameras) = camera.name ∷ names_of cameras

-- The entries of the new state; a camera without one gets an empty one.
abbrev pub entries : Members → List String → Members
entries before [] = end
entries before (name ∷ names) = member name (get_or before name (object end)) (entries before names)

-- The new state.
abbrev pub state_of : Members → List CameraSettings → StateFile
state_of before cameras = readable (
    some (
      object (
        member "version" (int (pos 1))
          (member "cameras" (object (entries before (names_of cameras))) end))))

abbrev pub put_state :
    List CameraSettings → RuntimeFiles → Result Members → RuntimeFiles × Result (Unit {0})
put_state cameras files (err e) = (files, err e)
put_state cameras files (ok before) =
    (record files { control_state = state_of before cameras }, ok tt)

-- `_ensure_control_state`; what the reading of the old state raises, no JSON excepted, is raised.
unfoldable pub ensure_control_state :
    List CameraSettings → RuntimeFiles → RuntimeFiles × Result (Unit {0})
ensure_control_state cameras files = put_state cameras files (existing files.control_state)

-- A file whose text is not blank.
abbrev pub has_token : Option String → Bool
has_token none = false
has_token (some text) = not (str_eq (strip text) "")

-- `_ensure_control_token`; the first argument is what `secrets.token_urlsafe` returns.
unfoldable pub ensure_control_token : String → RuntimeFiles → RuntimeFiles
ensure_control_token fresh files =
    if has_token files.control_token
    then files
    else record files { control_token = some (fresh +++ "\n") }

-- `log_level`
abbrev pub level_of : Value → Result String
level_of (str text) = if is_in text log_levels then ok text else err value_error
level_of _ = err value_error

abbrev pub camera_list : Value → Result Value
camera_list (array (cons v vs)) = ok (array (cons v vs))
camera_list _ = err value_error

-- `bridge_raw`
abbrev pub bridge_raw : Value → Value
bridge_raw cameras = object (
    member "listen_host" (str "0.0.0.0")
      (member "listen_port" (int (pos 8080)) (member "cameras" cameras end)))

-- The token file, behind the state file.
abbrev pub then_token : String → RuntimeFiles × Result (Unit {0}) → RuntimeFiles × Result (Unit {0})
then_token fresh (files, err e) = (files, err e)
then_token fresh (files, ok _) = (ensure_control_token fresh files, ok tt)

-- The four files in turn, behind the tests.
pub write_files :
    String → Value → String → List CameraSettings → RuntimeFiles → RuntimeFiles × Result (Unit {0})
unfolding go2rtc_config ensure_control_state ensure_control_token
write_files fresh cameras log_level settings files = then_token fresh (
    ensure_control_state settings (record files {
      bridge_config = some (bridge_raw cameras);
      go2rtc_config = some (go2rtc_config settings log_level);
    }))

-- What the options say: the log level, the cameras, and these as the bridge will read them.
pub record Options : Type 0 where
  pub log_level : String
  pub cameras : Value
  pub settings : List CameraSettings

-- The tests of `prepare_runtime`, on the decoded options.
unfoldable pub options_of : Value → Result Options
options_of raw = do
  options ← members_or_raise raw
  log_level ← level_of (get_or options "log_level" (str "info"))
  cameras ← camera_list (get_or_null options "cameras")
  settings ← parse_config (bridge_raw cameras)
  ok (record { log_level = log_level; cameras = cameras; settings = settings.cameras })

-- `prepare_runtime`, on the decoded options. Where it raises, the files that were written before stay
-- written.
unfoldable pub prepare_runtime : String → Value → RuntimeFiles → RuntimeFiles × Result (Unit {0})
unfolding write_files options_of
prepare_runtime fresh raw files = elim (options_of raw) [
  | err e ↦ (files, err e)
  | ok o ↦ write_files fresh o.cameras o.log_level o.settings files
]
