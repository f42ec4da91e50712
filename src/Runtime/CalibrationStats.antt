-- ===== src/Runtime/CalibrationStats.antt =====
-- `CalibrationStats` of core/runtime/src/calibration_stats.rs, modelled as the DSP's statistics are.
use aeryon.Base.{
  ℕ, ◌%◌, ◌^◌, not, Bool, true, false, ◌&&◌, ◌||◌, Option, none, some, if◌then◌else◌, ◌==◌, leb,
  ltb, fetch_add,
}
use aeryon.Base.Text.{Str}
use aeryon.Base.Floats.{F64}
use aeryon.Runtime.Health.{RuntimeHealth}

pub data CalibrationWorkerState : Type 0 where
  disabled idle running stopped failed : CalibrationWorkerState

unfoldable pub calibration_state_to_u64 : CalibrationWorkerState → ℕ
calibration_state_to_u64 disabled = 0
calibration_state_to_u64 idle = 1
calibration_state_to_u64 running = 2
calibration_state_to_u64 stopped = 3
calibration_state_to_u64 failed = 4

unfoldable pub u64_to_calibration_state : ℕ → CalibrationWorkerState
u64_to_calibration_state n =
    if n == 1
    then idle
    else if n == 2
    then running
    else if n == 3
    then stopped
    else if n == 4
    then failed
    else disabled

pub record CalibrationStats : Type 0 where
  pub enabled : Bool
  pub worker_state : ℕ
  pub profile_id : Option Str
  pub profile_version : ℕ
  pub raw_frames_submitted : ℕ
  pub frames_calibrated : ℕ
  pub calibration_failures : ℕ
  pub latest_sequence : ℕ
  pub latest_timestamp_nanos : ℕ
  pub has_calibrated : Bool
  pub last_duration_ns : ℕ
  pub average_duration_ns_bits : ℕ
  pub average_count : ℕ
  pub queue_depth : ℕ
  pub last_error : Option Str
  pub last_warning : Option Str
  pub unexpected_exit : Bool

unfoldable pub set_worker_state : CalibrationWorkerState → CalibrationStats → CalibrationStats
set_worker_state w s = record s { worker_state = calibration_state_to_u64 w }

unfoldable pub get_worker_state : CalibrationStats → CalibrationWorkerState
get_worker_state s = u64_to_calibration_state s.worker_state

unfoldable pub configure : Bool → Option Str → ℕ → CalibrationStats → CalibrationStats
unfolding set_worker_state
configure enabled id version s =
    set_worker_state (if enabled then idle else disabled)
      (record s { enabled = enabled; profile_id = id; profile_version = version })

unfoldable pub reset_counters : CalibrationStats → CalibrationStats
reset_counters s = record s {
  raw_frames_submitted = 0;
  frames_calibrated = 0;
  calibration_failures = 0;
  latest_sequence = 0;
  latest_timestamp_nanos = 0;
  has_calibrated = false;
  last_duration_ns = 0;
  average_duration_ns_bits = 0;
  average_count = 0;
  queue_depth = 0;
  unexpected_exit = false;
  last_error = none;
  last_warning = none;
}

unfoldable pub record_submitted : CalibrationStats → CalibrationStats
record_submitted s = record s { raw_frames_submitted = fetch_add s.raw_frames_submitted 1 }

unfoldable pub set_queue_depth : (depth : ℕ) → CalibrationStats → CalibrationStats
set_queue_depth depth s = record s { queue_depth = depth }

unfoldable pub set_last_error : Str → CalibrationStats → CalibrationStats
set_last_error e s = record s { last_error = some e }

unfoldable pub set_last_warning : Str → CalibrationStats → CalibrationStats
set_last_warning w s = record s { last_warning = some w }

unfoldable pub record_failure : Str → CalibrationStats → CalibrationStats
unfolding set_last_error
record_failure e s =
    set_last_error e (record s { calibration_failures = fetch_add s.calibration_failures 1 })

-- The getters that are none before the first calibrated frame, or without a profile.
unfoldable pub get_latest_sequence : CalibrationStats → Option ℕ
get_latest_sequence s = if s.has_calibrated then some s.latest_sequence else none

unfoldable pub get_latest_timestamp_nanos : CalibrationStats → Option ℕ
get_latest_timestamp_nanos s = if s.has_calibrated then some s.latest_timestamp_nanos else none

unfoldable pub get_last_duration_ns : CalibrationStats → Option ℕ
get_last_duration_ns s = if s.has_calibrated then some s.last_duration_ns else none

unfoldable pub get_profile_version : CalibrationStats → Option ℕ
get_profile_version s = elim s.profile_id [
  | none ↦ none
  | some id ↦ some (s.profile_version % 2 ^ 32)
]

unfoldable pub mark_unexpected_exit : CalibrationStats → CalibrationStats
unfolding set_worker_state
mark_unexpected_exit s = set_worker_state failed (record s { unexpected_exit = true })

unfoldable pub record_success :
    ⦃o : F64⦄ → (sequence timestamp_nanos duration_ns : ℕ) → CalibrationStats → CalibrationStats
record_success ⦃o⦄ sequence time duration s =
    let previous = s.average_duration_ns_bits in
    record s {
      frames_calibrated = fetch_add s.frames_calibrated 1;
      latest_sequence = sequence;
      latest_timestamp_nanos = time;
      has_calibrated = true;
      last_duration_ns = duration;
      average_count = fetch_add s.average_count 1;
      average_duration_ns_bits =
          o.add previous
            (o.div (o.sub (o.of_nat duration) previous) (o.of_nat (fetch_add s.average_count 1)));
    }

abbrev is_failed : CalibrationWorkerState → Bool
is_failed failed = true
is_failed _ = false

unfoldable pub evaluate_calibration_health : CalibrationStats → Option RuntimeHealth
evaluate_calibration_health s =
    if not s.enabled
    then none
    else if s.unexpected_exit || is_failed (get_worker_state s)
    then some RuntimeHealth.failed
    else if leb 3 s.calibration_failures && ltb s.frames_calibrated s.calibration_failures
    then some RuntimeHealth.degraded
    else none
