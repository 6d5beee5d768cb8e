-- ===== src/Integration.antt =====
-- The Home Assistant integration in custom_components/ino_a9: the client of the control API in
-- api.py, what it is made from in config_flow.py, the coordinator, and what the entities read.
pub mod Api
pub mod Paths
pub mod Served
pub mod Setup
pub mod Coordinator
pub mod Entity
pub mod Intrusion
pub mod Examples
use Prim.Native.String.{String}
use text.Mathlib.Text.{◌==◌ as str_eq}
use ino_a9_local_bridge.Base.{ℕ, Option, none, some, Bool, true, false, ◌&&◌}
use ino_a9_local_bridge.Base.Tests.{if◌then◌else◌}
use ino_a9_local_bridge.Base.Int.{ℤ, pos}
use ino_a9_local_bridge.Base.Except.{Result, ok, err, value_error, ◌>>=◌}
use ino_a9_local_bridge.Value.{Value, Members, str, int, get_or_null}
use ino_a9_local_bridge.Config.{in_range}
use ino_a9_local_bridge.Runtime.{strip}

-- The data of a config entry.
pub record ConnectionData : Type 0 where
  pub host : String
  pub http_port : ℕ
  pub rtsp_port : ℕ
  pub token : String

abbrev pub port_number : Value → Option ℕ
port_number (int (pos n)) = if in_range 1 65535 n then some n else none
port_number _ = none

abbrev pub non_blank : String → Option String
non_blank text = if str_eq text "" then none else some text

-- The host is stripped,
abbrev pub host_text : Value → Option String
host_text (str text) = non_blank (strip text)
host_text _ = none

-- and the token is not.
abbrev pub token_text : Value → Option String
token_text (str text) = non_blank text
token_text _ = none

abbrev pub connection_data :
    Option String → Option ℕ → Option ℕ → Option String → Option ConnectionData
connection_data (some host) (some http_port) (some rtsp_port) (some token) =
    some (record { host = host; http_port = http_port; rtsp_port = rtsp_port; token = token })
connection_data _ _ _ _ = none

-- `_validated_data`
unfoldable pub validated_data : Members → Option ConnectionData
validated_data raw =
    connection_data (host_text (get_or_null raw "host")) (port_number (get_or_null raw "http_port"))
      (port_number (get_or_null raw "rtsp_port")) (token_text (get_or_null raw "token"))
