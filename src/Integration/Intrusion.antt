-- ===== src/Integration/Intrusion.antt =====
-- The intrusion switch against the control API.
use Prim.Native.String.{String}
use ino_a9_local_bridge.Base.{◌≡◌, refl, ap, ◌∙◌, none, some, Bool, false, arith}
use ino_a9_local_bridge.Base.Except.{ok, ◌>>=◌}
use ino_a9_local_bridge.Value.{Value, Members, bool, array, end, member, get}
use ino_a9_local_bridge.Controls.{IntrusionSchedule, Time, after, day_numbers}
use ino_a9_local_bridge.Controls.Laws.{
  IsSchedule, sorted_set-rising, list_eq_refl, day_numbers-values, RisesFrom-All,
}
use ino_a9_local_bridge.ControlApi.Values.{schedule_value, intrusion_value, clock_text, day_array}
use ino_a9_local_bridge.ControlApi.Values.Idempotent.{
  IsAccepted, IsClock, minute_bound, elements-day_array, schedule_from_value-schedule_value,
}
use ino_a9_local_bridge.ControlApi.Store.{Controls, members_of}
use ino_a9_local_bridge.ControlApi.Handle.Routes.{detail, unknown}
use ino_a9_local_bridge.Base.Dict.{lookup, string_key}
use ino_a9_local_bridge.ControlApi.Handle.{CameraStatus, known, intrusion_request, intrusion}
use ino_a9_local_bridge.Integration.Entity.{
  TimeLibrary, parsed, days_checked, days_of, time_of, Documents, mapping_or_unknown, state_in,
  control_state, is_on, validated_schedule, intrusion_payload,
}

after-ordered : (s : IntrusionSchedule) → IsAccepted s → after s.start s.end ≡ false
after-ordered s h =
    let a = minute_bound s.start h.start_clock in
    let b = minute_bound s.end h.end_clock in let ordered = h.schedule.ordered in ground arith

days_of-day_array :
    (s : IntrusionSchedule)
    → IsSchedule s
    → days_of (array (day_array s.days)) ≡ ok (day_array s.days)
days_of-day_array s h =
    ap (λ vs. days_checked (day_array s.days) (day_numbers vs)) (elements-day_array s.days)
    ∙ ap (days_checked (day_array s.days))
        (day_numbers-values s.days (RisesFrom-All 0 s.days h.rising))
    ∙ rw (h.some_day, sorted_set-rising 0 s.days h.rising) (rw (list_eq_refl s.days) refl)

module _ (lib : TimeLibrary) where
  time_of-clock_text : (t : Time) → IsClock t → time_of lib (clock_text t) ≡ ok t
  time_of-clock_text t h = ap parsed (lib.fromisoformat-clock_text t h)

  greater-schedule : (s : IntrusionSchedule) → IsAccepted s → lib.greater s.start s.end ≡ ok false
  greater-schedule s h =
      lib.greater_exact s.start s.end h.schedule.start_exact h.schedule.end_exact
      ∙ ap ok (after-ordered s h)

  -- A schedule that the control API accepts passes the integration's test as it is.
  validated_schedule-schedule_value :
      (s : IntrusionSchedule)
      → IsAccepted s
      → validated_schedule lib (schedule_value s) ≡ ok (schedule_value s)
  unfolding validated_schedule schedule_value get
  validated_schedule-schedule_value s h = rw (days_of-day_array s h.schedule) (
      rw (time_of-clock_text s.start h.start_clock)
        (rw (time_of-clock_text s.end h.end_clock) (rw (greater-schedule s h) refl)))

  payload-known :
      (was enabled : Bool) (source : String) (s : IntrusionSchedule)
      → IsAccepted s
      → intrusion_payload lib (members_of (known (intrusion_value was s) source)) enabled
        ≡ ok (member "enabled" (bool enabled) (member "schedule" (schedule_value s) end))
  unfolding intrusion_payload intrusion_value schedule_value get
  payload-known was enabled source s h =
      ap
        (λ r.
          r >>= λ validated. ok (member "enabled" (bool enabled) (member "schedule" validated end)))
        (validated_schedule-schedule_value s h)

  request-schedule :
      (enabled : Bool) (s : IntrusionSchedule)
      → IsAccepted s
      → intrusion_request
          (member "enabled" (bool enabled) (member "schedule" (schedule_value s) end))
        ≡ ok (intrusion enabled s)
  unfolding get
  request-schedule enabled s h =
      ap (λ r. r >>= λ schedule. ok (intrusion enabled schedule))
        (schedule_from_value-schedule_value s h)

  -- The state of the control in the document that the control API makes of a camera.
  control_state-detail :
      (documents : Documents) (camera_id : String) (status : CameraStatus) (saved : Controls)
      (night flip value : Value)
      → lookup camera_id documents ≡ some (members_of (detail camera_id status saved night flip))
      → lookup "intrusion" saved ≡ some value
      → control_state documents camera_id "intrusion" ≡ members_of (known value "persisted")
  unfolding control_state get
  control_state-detail documents camera_id status saved night flip value e stored =
      ap (λ o. state_in (elim o [ none ↦ end | some d ↦ d ]) "intrusion") e
      ∙ ap (λ o. mapping_or_unknown (elim o [ none ↦ unknown | some v ↦ known v "persisted" ]))
          stored

  -- Where the coordinator has of a camera the document that the control API makes, and the API has
  -- stored the intrusion detection with a schedule that it had accepted, the switch shows whether the
  -- detection is on; and turned on or off, it sends a payload that the API reads as that state with
  -- the same schedule.
  pub intrusion_payload-detail :
      (documents : Documents) (camera_id : String) (status : CameraStatus) (saved : Controls)
      (night flip : Value) (was enabled : Bool) (s : IntrusionSchedule)
      → IsAccepted s
      → lookup camera_id documents ≡ some (members_of (detail camera_id status saved night flip))
      → lookup "intrusion" saved ≡ some (intrusion_value was s)
      → (is_on "intrusion" (control_state documents camera_id "intrusion") ≡ some was)
        × ((payload : Members) × (intrusion_payload lib
                (control_state documents camera_id "intrusion")
                enabled
              ≡ ok payload)
            × (intrusion_request payload ≡ ok (intrusion enabled s)))
  unfolding is_on intrusion_value get
  intrusion_payload-detail documents camera_id status saved night flip was enabled s h e stored =
      let value = intrusion_value was s in
      let state : control_state documents camera_id "intrusion"
          ≡ members_of (known value "persisted") =
        control_state-detail documents camera_id status saved night flip value e stored in
      (
        ap (is_on "intrusion") state,
        (
          member "enabled" (bool enabled) (member "schedule" (schedule_value s) end),
          ap (λ m. intrusion_payload lib m enabled) state
              ∙ payload-known was enabled "persisted" s h,
          request-schedule enabled s h,
        ),
      )
