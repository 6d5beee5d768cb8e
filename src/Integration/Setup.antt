-- ===== src/Integration/Setup.antt =====
-- From the discovery message to a client.
use Prim.Native.String.{String}
use text.Mathlib.Text.{◌==◌ as str_eq}
use ino_a9_local_bridge.Base.{
  ℕ, ◌≡◌, refl, ap, subst, ◌∙◌, Option, none, some, true, false, inl, inr,
}
use ino_a9_local_bridge.Base.Tests.{Bool-cases}
use ino_a9_local_bridge.Base.Int.{pos}
use ino_a9_local_bridge.Base.Except.{ok}
use ino_a9_local_bridge.Value.{Value, Members, str, int, get, get_or_null}
use ino_a9_local_bridge.Config.{in_range}
use ino_a9_local_bridge.Runtime.{strip}
use ino_a9_local_bridge.Runtime.Discovery.{discovery_config}
use ino_a9_local_bridge.Integration.{
  ConnectionData, port_number, non_blank, host_text, token_text, connection_data, validated_data,
}
use ino_a9_local_bridge.Integration.Api.{InoA9Api, ino_a9_api}

-- The client with the data of an entry.
abbrev pub client_of : ConnectionData → InoA9Api
client_of d = record {
  host = d.host;
  http_port = d.http_port;
  rtsp_port = d.rtsp_port;
  token = d.token;
}

-- What each part of accepted data has passed.
record IsConnection (d : ConnectionData) : Type 0 where
  host : str_eq d.host "" ≡ false
  http : in_range 1 65535 d.http_port ≡ true
  rtsp : in_range 1 65535 d.rtsp_port ≡ true
  token : str_eq d.token "" ≡ false

some-injective : {A : Type 0} {a b : A} → some a ≡ some b → a ≡ b
some-injective h = cc

non_blank-eq-some : (text t : String) → non_blank text ≡ some t → str_eq t "" ≡ false
non_blank-eq-some text t e = elim (Bool-cases (str_eq text "")) [
  | inl blank ↦ let wrong : none ≡ some t = rw blank at e in cc
  | inr filled ↦ subst (λ x. str_eq x "" ≡ false) (some-injective (rw filled at e)) filled
]

host_text-eq-some : (v : Value) (t : String) → host_text v ≡ some t → str_eq t "" ≡ false
host_text-eq-some (str text) t e = non_blank-eq-some (strip text) t e
host_text-eq-some _ t e = cc

token_text-eq-some : (v : Value) (t : String) → token_text v ≡ some t → str_eq t "" ≡ false
token_text-eq-some (str text) t e = non_blank-eq-some text t e
token_text-eq-some _ t e = cc

port_number-eq-some : (v : Value) (n : ℕ) → port_number v ≡ some n → in_range 1 65535 n ≡ true
port_number-eq-some (int (pos m)) n e = elim (Bool-cases (in_range 1 65535 m)) [
  | inl valid ↦ subst (λ x. in_range 1 65535 x ≡ true) (some-injective (rw valid at e)) valid
  | inr invalid ↦ let wrong : none ≡ some n = rw invalid at e in cc
]
port_number-eq-some _ n e = cc

connection_data-IsConnection :
    (host : Option String) (http rtsp : Option ℕ) (token : Option String) (d : ConnectionData)
    → ((t : String) → host ≡ some t → str_eq t "" ≡ false)
    → ((n : ℕ) → http ≡ some n → in_range 1 65535 n ≡ true)
    → ((n : ℕ) → rtsp ≡ some n → in_range 1 65535 n ≡ true)
    → ((t : String) → token ≡ some t → str_eq t "" ≡ false)
    → connection_data host http rtsp token ≡ some d
    → IsConnection d
connection_data-IsConnection (some host) (some http) (some rtsp) (some token) d a b c f e =
    subst IsConnection (some-injective e)
      (record { host = a host refl; http = b http refl; rtsp = c rtsp refl; token = f token refl })
connection_data-IsConnection _ _ _ _ d a b c f e = cc

client-made :
    (d : ConnectionData)
    → IsConnection d
    → ino_a9_api d.host (pos d.http_port) (pos d.rtsp_port) d.token ≡ ok (client_of d)
unfolding ino_a9_api
client-made d h = rw (h.host, h.http, h.rtsp, h.token) refl

-- What the config flow accepts makes a client: the tests of `InoA9Api` do not fail on it.
pub validated_data-ino_a9_api :
    (raw : Members) (d : ConnectionData)
    → validated_data raw ≡ some d
    → ino_a9_api d.host (pos d.http_port) (pos d.rtsp_port) d.token ≡ ok (client_of d)
unfolding validated_data
validated_data-ino_a9_api raw d e = client-made d (
    connection_data-IsConnection (host_text (get_or_null raw "host"))
      (port_number (get_or_null raw "http_port")) (port_number (get_or_null raw "rtsp_port"))
      (token_text (get_or_null raw "token")) d (host_text-eq-some (get_or_null raw "host"))
      (port_number-eq-some (get_or_null raw "http_port"))
      (port_number-eq-some (get_or_null raw "rtsp_port"))
      (token_text-eq-some (get_or_null raw "token")) e)

-- The message that the app sends is accepted, unless the name of the host or the token is blank, and
-- makes a client of the bridge's ports with the token of the message.
pub discovery_config-ino_a9_api :
    (host token : String)
    → str_eq (strip host) "" ≡ false
    → str_eq token "" ≡ false
    → (d : ConnectionData) × (validated_data (discovery_config host token) ≡ some d)
      × (ino_a9_api d.host (pos d.http_port) (pos d.rtsp_port) d.token
          ≡ ok (record { host = strip host; http_port = 8080; rtsp_port = 8554; token = token }))
unfolding validated_data get
discovery_config-ino_a9_api host token h k =
    let d : ConnectionData = record {
      host = strip host;
      http_port = 8080;
      rtsp_port = 8554;
      token = token;
    } in
    (
      d,
      ap (λ t. connection_data t (some 8080) (some 8554) (non_blank token))
            (blank_not (strip host) h)
          ∙ ap (connection_data (some (strip host)) (some 8080) (some 8554)) (blank_not token k),
      client-made d (record { host = h; http = refl; rtsp = refl; token = k }),
    )
  where
    blank_not : (text : String) → str_eq text "" ≡ false → non_blank text ≡ some text
    blank_not text e = rw e refl
