-- ===== src/Runtime/Prepared.antt =====
-- What a start of the app leaves for the bridge and for go2rtc.
use Prim.Native.String.{String, ◌++◌ as ◌+++◌}
use ino_a9_local_bridge.Base.{
  ℕ, ◌≡◌, refl, sym, ap, ap₂, subst, ◌∙◌, Option, some, Bool, true, inl, inr,
}
use ino_a9_local_bridge.Base.Tests.{if◌then◌else◌, Bool-cases}
use ino_a9_local_bridge.Base.Int.{pos}
use ino_a9_local_bridge.Base.Except.{ok, err≢ok, Result-cases}
use ino_a9_local_bridge.Value.{Value, Members, object, str, int, end, member, get, get_or_null}
use ino_a9_local_bridge.Config.{BridgeSettings, safe_name, is_in, get_or, parse_config}
use ino_a9_local_bridge.ControlApi.Store.{readable, existing, control_state_store}
use ino_a9_local_bridge.Runtime.{
  RuntimeFiles, log_levels, config_lines, go2rtc_config, names_of, entries, ensure_control_state,
  ensure_control_token, has_token, bridge_raw, write_files, prepare_runtime, state_of, put_state,
  then_token, Options, options_of,
}
use ino_a9_local_bridge.Runtime.State.{entries_again}
use ino_a9_local_bridge.Runtime.Strip.{fresh-HasToken}
use ino_a9_local_bridge.Runtime.Lines.{lines_of}

-- The token that stands in the file afterwards.
abbrev pub token_after : String → RuntimeFiles → Option String
token_after fresh files =
    if has_token files.control_token then files.control_token else some (fresh +++ "\n")

token_after-HasToken :
    (fresh : String) (files : RuntimeFiles)
    → safe_name fresh ≡ true
    → has_token (token_after fresh files) ≡ true
token_after-HasToken fresh files h = elim (Bool-cases (has_token files.control_token)) [
  | inl e ↦ rw e e
  | inr e ↦ rw e (fresh-HasToken fresh h)
]

-- The files that a start writes, with what the old state had of the cameras.
abbrev written_files : String → Options → Members → RuntimeFiles → RuntimeFiles
written_files fresh o before files = record {
  bridge_config = some (bridge_raw o.cameras);
  go2rtc_config = some (go2rtc_config o.settings o.log_level);
  control_state = state_of before o.settings;
  control_token = token_after fresh files;
}

abbrev with_configs : Options → RuntimeFiles → RuntimeFiles
with_configs o files = record files {
  bridge_config = some (bridge_raw o.cameras);
  go2rtc_config = some (go2rtc_config o.settings o.log_level);
}

write_files-written :
    (fresh : String) (o : Options) (before : Members) (files : RuntimeFiles)
    → existing files.control_state ≡ ok before
    → write_files fresh o.cameras o.log_level o.settings files
      ≡ (written_files fresh o before files, ok tt)
unfolding write_files ensure_control_token ensure_control_state
write_files-written fresh o before files e =
    ap (λ r. then_token fresh (put_state o.settings (with_configs o files) r)) e
    ∙ elim (Bool-cases (has_token files.control_token)) [ inl t ↦ rw t refl | inr t ↦ rw t refl ]

-- The parts of a start that returns.
record IsStarted (fresh : String) (raw : Value) (files files' : RuntimeFiles) : Type 0 where
  o : Options
  before : Members
  accepted : options_of raw ≡ ok o
  read : existing files.control_state ≡ ok before
  written : written_files fresh o before files ≡ files'

write_files-IsStarted :
    (fresh : String) (raw : Value) (o : Options) (files files' : RuntimeFiles)
    → options_of raw ≡ ok o
    → write_files fresh o.cameras o.log_level o.settings files ≡ (files', ok tt)
    → IsStarted fresh raw files files'
unfolding write_files ensure_control_token ensure_control_state
write_files-IsStarted fresh raw o files files' accepted e =
    elim (Result-cases (existing files.control_state)) [
      | inl (before, read) ↦ record {
        o = o;
        before = before;
        accepted = accepted;
        read = read;
        written = ap (λ p. p.0) (sym (write_files-written fresh o before files read) ∙ e);
      }
      | inr (x, f) ↦ absurd (
          err≢ok (
            ap (λ p. p.1)
              (sym (ap (λ r. then_token fresh (put_state o.settings (with_configs o files) r)) f)
                ∙ e)))
    ]

prepare_runtime-IsStarted :
    (fresh : String) (raw : Value) (files files' : RuntimeFiles)
    → prepare_runtime fresh raw files ≡ (files', ok tt)
    → IsStarted fresh raw files files'
unfolding prepare_runtime
prepare_runtime-IsStarted fresh raw files files' e = elim (Result-cases (options_of raw)) [
  | inl (o, f) ↦ write_files-IsStarted fresh raw o files files' f (rw (f, prepare_runtime) at e)
  | inr (x, f) ↦ absurd (err≢ok (ap (λ p. p.1) (rw (f, prepare_runtime) at e)))
]

-- What the bridge and go2rtc find, by the options of the app.
pub record IsPrepared (fresh : String) (raw : Value) (files files' : RuntimeFiles) : Type 0 where
  pub options : Members
  pub given : raw ≡ object options
  pub log_level : String
  pub level : get_or options "log_level" (str "info") ≡ str log_level
  pub level_known : is_in log_level log_levels ≡ true
  pub settings : BridgeSettings
  pub config : Value
  pub config_made :
      config
      ≡ object (
          member "listen_host" (str "0.0.0.0") (
            member "listen_port"
              (int (pos 8080))
              (member "cameras" (get_or_null options "cameras") end)))
  pub config_written : files'.bridge_config ≡ some config
  pub config_parses : parse_config config ≡ ok settings
  pub text : String
  pub text_written : files'.go2rtc_config ≡ some text
  pub lines : lines_of text ≡ config_lines settings.cameras log_level
  pub state :
      (disk : ℕ → Bool)
      → control_state_store disk files'.control_state (names_of settings.cameras)
        ≡ control_state_store disk files.control_state (names_of settings.cameras)
  pub token : files'.control_token ≡ token_after fresh files
  pub token_valid : has_token files'.control_token ≡ true

-- A second start on the same options finds all four files as it would write them, and so keeps the
-- token, whatever new token it is offered.
pub prepare_runtime_idempotent :
    (fresh other : String) (raw : Value) (files files' : RuntimeFiles)
    → safe_name fresh ≡ true
    → prepare_runtime fresh raw files ≡ (files', ok tt)
    → prepare_runtime other raw files' ≡ (files', ok tt)
unfolding prepare_runtime get
prepare_runtime_idempotent fresh other raw files files' safe e =
    let h = prepare_runtime-IsStarted fresh raw files files' e in
    let names = names_of h.o.settings in
    let again = entries h.before names in
    rw (h.accepted, prepare_runtime)
      (subst (λ f. write_files other h.o.cameras h.o.log_level h.o.settings f ≡ (f, ok tt))
        h.written
        (write_files-written other h.o again (written_files fresh h.o h.before files) refl
          ∙ ap (λ f. (f, ok tt)) (same h.o h.before)))
  where
    same :
        (o : Options) (before : Members)
        → written_files other o
            (entries before (names_of o.settings))
            (written_files fresh o before files)
          ≡ written_files fresh o before files
    same o before =
        let names = names_of o.settings in
        let first = written_files fresh o before files in
        ap₂ (λ state token. record first { control_state = state; control_token = token })
          (ap
            (λ m.
              readable
                (some (object (member "version" (int (pos 1)) (member "cameras" (object m) end)))))
            (entries_again before names names (λ id h. h)))
          (rw (token_after-HasToken fresh files safe) refl)
