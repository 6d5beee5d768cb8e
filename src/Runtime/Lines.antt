-- ===== src/Runtime/Lines.antt =====
-- The lines of go2rtc's configuration.
use Prim.Native.Char.{Char, code}
use Prim.Native.String.{String, ◌++◌ as ◌+++◌}
use text.Mathlib.Text.{◌==◌ as str_eq}
use text.Mathlib.TextEquality.{eq_iff}
use text.Mathlib.TextLemmas.{nil-append, cons-append}
use ino_a9_local_bridge.Base.{
  ℕ, ◌≡◌, refl, ap, subst, ◌∙◌, List, [], ◌∷◌, ◌++◌, Bool, true, false, not, ◌&&◌, inl, inr, arith,
}
use ino_a9_local_bridge.Base.Tests.{◌==◌, if◌then◌else◌, Bool-cases}
use ino_a9_local_bridge.Config.{CameraSettings, is_safe, all_safe, is_in}
use ino_a9_local_bridge.Config.Valid.{AreCameras}
use ino_a9_local_bridge.Runtime.{
  log_levels, audio_command, audio_options, stream_lines, all_stream_lines, config_lines, joined,
  go2rtc_config,
}

-- `text.split("\n")`, but for what stands behind the last line break where nothing does.
abbrev glue : Char → List String → List String
glue c [] = String.◌∷◌ c String.[] ∷ []
glue c (line ∷ lines) = String.◌∷◌ c line ∷ lines

abbrev pub lines_of : String → List String
lines_of String.[] = []
lines_of (String.◌∷◌ c rest) =
    let lines = lines_of rest in if code c == 10 then String.[] ∷ lines else glue c lines

abbrev is_line : String → Bool
is_line String.[] = true
is_line (String.◌∷◌ c rest) = not (code c == 10) && is_line rest

-- Every one of them is one line.
abbrev AreLines : List String → Type 0
AreLines [] = Unit
AreLines (line ∷ lines) = (is_line line ≡ true) × AreLines lines

and_right : (a b c : Bool) → (b ≡ true → c ≡ true) → (a && b) ≡ true → (a && c) ≡ true
and_right true b c f h = f h
and_right false b c f h = h

and_second : (a b : Bool) → (a && b) ≡ true → b ≡ true
and_second true b h = h
and_second false b h = cc

is_line-append : (a b : String) → is_line a ≡ true → is_line b ≡ true → is_line (a +++ b) ≡ true
is_line-append String.[] b h k = rw (nil-append b) k
is_line-append (String.◌∷◌ c a) b h k =
    rw (cons-append c a b) (and_right _ _ _ (λ e. is_line-append a b e k) h)

AreLines-append : (a b : List String) → AreLines a → AreLines b → AreLines (a ++ b)
AreLines-append [] b h k = k
AreLines-append (line ∷ a) b (h, hs) k = (h, AreLines-append a b hs k)

abbrev newline : Char
newline = "\n"

lines_of-line :
    (line rest : String)
    → is_line line ≡ true
    → lines_of ((line +++ "\n") +++ rest) ≡ line ∷ lines_of rest
lines_of-line String.[] rest h =
    rw (nil-append "\n", cons-append newline String.[] rest, nil-append rest) refl
lines_of-line (String.◌∷◌ c line) rest h = elim (Bool-cases (code c == 10)) [
  | inl e ↦ let wrong : false ≡ true = rw e at h in cc
  | inr e ↦
      rw (cons-append c line "\n", cons-append c (line +++ "\n") rest)
        (rw (e, lines_of-line line rest (and_second _ (is_line line) h)) refl)
]

lines_of-joined : (lines : List String) → AreLines lines → lines_of (joined lines) ≡ lines
lines_of-joined [] h = refl
lines_of-joined (line ∷ lines) (h, hs) =
    lines_of-line line (joined lines) h ∙ ap (λ ls. line ∷ ls) (lines_of-joined lines hs)

is_safe-IsLine : (n : ℕ) → is_safe n ≡ true → not (n == 10) ≡ true
is_safe-IsLine n h = ground arith

all_safe-IsLine : (name : String) → all_safe name ≡ true → is_line name ≡ true
all_safe-IsLine String.[] h = refl
all_safe-IsLine (String.◌∷◌ c name) h = elim (Bool-cases (is_safe (code c))) [
  | inl e ↦ rw (is_safe-IsLine (code c) e) (all_safe-IsLine name (rw e at h))
  | inr e ↦ let wrong : false ≡ true = rw e at h in cc
]

is_in-IsLine :
    (name : String) (names : List String)
    → AreLines names
    → is_in name names ≡ true
    → is_line name ≡ true
is_in-IsLine name [] h e = cc
is_in-IsLine name (n ∷ names) (h, hs) e = elim (Bool-cases (str_eq n name)) [
  | inl same ↦ subst (λ x. is_line x ≡ true) ((eq_iff n name).0 same) h
  | inr other ↦ is_in-IsLine name names hs (rw other at e)
]

between-IsLine :
    (a b name : String)
    → is_line a ≡ true
    → is_line b ≡ true
    → is_line name ≡ true
    → is_line ((a +++ name) +++ b) ≡ true
between-IsLine a b name h k e = is_line-append (a +++ name) b (is_line-append a name h e) k

stream_lines-AreLines : (name : String) → is_line name ≡ true → AreLines (stream_lines name)
stream_lines-AreLines name h = (
  between-IsLine "  ino_a9_" ":" name refl refl h,
  (
    between-IsLine "    - ffmpeg:http://127.0.0.1:8080/" "/stream.mjpeg#video=h264" name refl refl
        h,
    (between-IsLine audio_command audio_options name refl refl h, tt),
  ),
)

all_stream_lines-AreLines :
    (names : List String) (cameras : List CameraSettings)
    → AreCameras names cameras
    → AreLines (all_stream_lines cameras)
all_stream_lines-AreLines names [] h = tt
all_stream_lines-AreLines names (camera ∷ cameras) (safe, new, valid, hs) =
    AreLines-append (stream_lines camera.name) (all_stream_lines cameras)
      (stream_lines-AreLines camera.name
        (all_safe-IsLine camera.name (and_second _ (all_safe camera.name) safe)))
      (all_stream_lines-AreLines (camera.name ∷ names) cameras hs)

-- The names of the cameras and the log level break no line: read line by line, the configuration
-- is the header and three lines for each camera.
pub go2rtc_config-lines :
    (cameras : List CameraSettings) (log_level : String)
    → AreCameras [] cameras
    → is_in log_level log_levels ≡ true
    → lines_of (go2rtc_config cameras log_level) ≡ config_lines cameras log_level
unfolding go2rtc_config
go2rtc_config-lines cameras log_level h e =
    let level = is_in-IsLine log_level log_levels (refl, (refl, (refl, (refl, tt)))) e in
    let streams = all_stream_lines-AreLines [] cameras h in
    lines_of-joined (config_lines cameras log_level) (
      refl,
      (
        refl,
        (
          is_line-append "  level: " log_level refl level,
          (refl, (refl, (refl, (refl, (refl, (refl, (refl, streams))))))),
        ),
      ),
    )
