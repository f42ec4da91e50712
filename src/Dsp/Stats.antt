-- ===== src/Dsp/Stats.antt =====
-- `DspStats` of core/dsp/src/stats.rs. Each atomic or locked field is a field of the record, and a
-- method returns the statistics that it leaves; no lock is poisoned, since nothing panics that holds one.
pub mod History
use aeryon.Base.{
  ℕ, suc, ◌+◌, Bool, true, false, ◌||◌, Option, none, some, if◌then◌else◌, ◌==◌, is_some, fetch_add,
}
use aeryon.Base.Text.{Str}
use aeryon.Base.Floats.{F64}

pub data DspWorkerState : Type 0 where
  disabled idle running completed stopped failed : DspWorkerState

unfoldable pub worker_state_to_u64 : DspWorkerState → ℕ
worker_state_to_u64 disabled = 0
worker_state_to_u64 idle = 1
worker_state_to_u64 running = 2
worker_state_to_u64 completed = 3
worker_state_to_u64 stopped = 4
worker_state_to_u64 failed = 5

unfoldable pub u64_to_worker_state : ℕ → DspWorkerState
u64_to_worker_state n =
    if n == 1
    then idle
    else if n == 2
    then running
    else if n == 3
    then completed
    else if n == 4
    then stopped
    else if n == 5
    then failed
    else disabled

-- Floats are stored as their bits.
pub record DspStats : Type 0 where
  pub enabled : Bool
  pub worker_state : ℕ
  pub profile_id : Option Str
  pub profile_version : ℕ
  pub window_size_frames : ℕ
  pub hop_size_frames : ℕ
  pub calibrated_frames_received : ℕ
  pub windows_emitted : ℕ
  pub windows_rejected : ℕ
  pub latest_first_sequence : ℕ
  pub latest_last_sequence : ℕ
  pub has_window : Bool
  pub latest_window_timestamp_nanos : ℕ
  pub last_duration_ns : ℕ
  pub average_duration_ns_bits : ℕ
  pub average_count : ℕ
  pub effective_sample_rate_bits : ℕ
  pub has_sample_rate : Bool
  pub latest_jitter_bits : ℕ
  pub has_jitter : Bool
  pub latest_dominant_hz_bits : ℕ
  pub has_dominant : Bool
  pub last_error : Option Str
  pub last_warning : Option Str
  pub unexpected_exit : Bool
  pub consecutive_failures : ℕ
  pub configured_backend : Option Str
  pub active_backend : Option Str
  pub backend_version : Option Str
  pub backend_abi_version : ℕ
  pub has_backend_abi : Bool
  pub backend_available : Bool
  pub backend_init_status : Option Str
  pub last_backend_error : Option Str

unfoldable pub new_stats : DspStats
new_stats = record {
  enabled = false;
  worker_state = 0;
  profile_id = none;
  profile_version = 0;
  window_size_frames = 0;
  hop_size_frames = 0;
  calibrated_frames_received = 0;
  windows_emitted = 0;
  windows_rejected = 0;
  latest_first_sequence = 0;
  latest_last_sequence = 0;
  has_window = false;
  latest_window_timestamp_nanos = 0;
  last_duration_ns = 0;
  average_duration_ns_bits = 0;
  average_count = 0;
  effective_sample_rate_bits = 0;
  has_sample_rate = false;
  latest_jitter_bits = 0;
  has_jitter = false;
  latest_dominant_hz_bits = 0;
  has_dominant = false;
  last_error = none;
  last_warning = none;
  unexpected_exit = false;
  consecutive_failures = 0;
  configured_backend = none;
  active_backend = none;
  backend_version = none;
  backend_abi_version = 0;
  has_backend_abi = false;
  backend_available = false;
  backend_init_status = none;
  last_backend_error = none;
}

unfoldable pub set_worker_state : DspWorkerState → DspStats → DspStats
set_worker_state w s = record s { worker_state = worker_state_to_u64 w }

unfoldable pub get_worker_state : DspStats → DspWorkerState
get_worker_state s = u64_to_worker_state s.worker_state

unfoldable pub configure :
    (enabled : Bool)
    → (profile_id : Option Str) → (profile_version window_size_frames hop_size_frames : ℕ)
    → DspStats
    → DspStats
unfolding set_worker_state
configure enabled id version window hop s =
    set_worker_state (if enabled then idle else disabled) (record s {
      enabled = enabled;
      profile_id = id;
      profile_version = version;
      window_size_frames = window;
      hop_size_frames = hop;
    })

unfoldable pub set_backend_identity :
    (backend_id implementation_version : Str)
    → (abi_version : Option ℕ) → (available : Bool) → (init_status : Str)
    → (last_error : Option Str) → DspStats
    → DspStats
set_backend_identity id version abi available status error s = record s {
  configured_backend = some id;
  active_backend = if available then some id else none;
  backend_version = some version;
  backend_abi_version = elim abi [ none ↦ 0 | some v ↦ v ];
  has_backend_abi = is_some abi;
  backend_available = available;
  backend_init_status = some status;
  last_backend_error = error;
}

unfoldable pub reset_counters : DspStats → DspStats
reset_counters s = record s {
  calibrated_frames_received = 0;
  windows_emitted = 0;
  windows_rejected = 0;
  latest_first_sequence = 0;
  latest_last_sequence = 0;
  has_window = false;
  latest_window_timestamp_nanos = 0;
  last_duration_ns = 0;
  average_duration_ns_bits = 0;
  average_count = 0;
  effective_sample_rate_bits = 0;
  has_sample_rate = false;
  latest_jitter_bits = 0;
  has_jitter = false;
  latest_dominant_hz_bits = 0;
  has_dominant = false;
  unexpected_exit = false;
  consecutive_failures = 0;
  backend_available = false;
  has_backend_abi = false;
  backend_abi_version = 0;
  last_error = none;
  last_warning = none;
  configured_backend = none;
  active_backend = none;
  backend_version = none;
  backend_init_status = none;
  last_backend_error = none;
}

unfoldable pub record_frame_received : DspStats → DspStats
record_frame_received s = record s {
  calibrated_frames_received = fetch_add s.calibrated_frames_received 1;
}

unfoldable pub set_last_error : Str → DspStats → DspStats
set_last_error e s = record s { last_error = some e }

unfoldable pub set_last_warning : Str → DspStats → DspStats
set_last_warning w s = record s { last_warning = some w }

unfoldable pub record_window_failure : Str → DspStats → DspStats
unfolding set_last_error
record_window_failure e s = set_last_error e (record s {
  windows_rejected = fetch_add s.windows_rejected 1;
  consecutive_failures = fetch_add s.consecutive_failures 1;
})

unfoldable pub mark_unexpected_exit : DspStats → DspStats
unfolding set_worker_state
mark_unexpected_exit s = set_worker_state failed (record s { unexpected_exit = true })

module _ ⦃o : F64⦄ where
  -- The count that divides is the counter before its increment, plus one, which wraps round as in a
  -- release build.
  unfoldable pub update_average_duration : ℕ → DspStats → DspStats
  update_average_duration duration_ns s =
      let previous = s.average_duration_ns_bits in
      record s {
        average_count = fetch_add s.average_count 1;
        average_duration_ns_bits = o.add previous (
            o.div (o.sub (o.of_nat duration_ns) previous) (o.of_nat (fetch_add s.average_count 1)));
      }

  unfoldable pub record_window_success :
      (first_sequence last_sequence window_timestamp_nanos duration_ns sample_rate_hz jitter : ℕ)
      → (dominant_hz : Option ℕ) → DspStats
      → DspStats
  unfolding update_average_duration
  record_window_success first last time duration rate jitter dominant s =
      let t : DspStats = update_average_duration duration (record s {
        windows_emitted = fetch_add s.windows_emitted 1;
        consecutive_failures = 0;
        latest_first_sequence = first;
        latest_last_sequence = last;
        latest_window_timestamp_nanos = time;
        has_window = true;
        last_duration_ns = duration;
      }) in
      record t {
        effective_sample_rate_bits = rate;
        has_sample_rate = true;
        latest_jitter_bits = jitter;
        has_jitter = true;
        latest_dominant_hz_bits = elim dominant [ none ↦ t.latest_dominant_hz_bits | some d ↦ d ];
        has_dominant = is_some dominant;
      }

-- A value that is there only if the flag is set.
abbrev pub when {ℓ} : {A : Type ℓ} → Bool → A → Option A
when flag a = if flag then some a else none

unfoldable pub latest_sequence_range : DspStats → Option (ℕ × ℕ)
latest_sequence_range s = when s.has_window (s.latest_first_sequence, s.latest_last_sequence)

unfoldable pub latest_window_timestamp : DspStats → Option ℕ
latest_window_timestamp s = when s.has_window s.latest_window_timestamp_nanos

unfoldable pub get_last_duration_ns : DspStats → Option ℕ
get_last_duration_ns s = when s.has_window s.last_duration_ns

unfoldable pub effective_sample_rate_hz : DspStats → Option ℕ
effective_sample_rate_hz s = when s.has_sample_rate s.effective_sample_rate_bits

unfoldable pub latest_timestamp_jitter : DspStats → Option ℕ
latest_timestamp_jitter s = when s.has_jitter s.latest_jitter_bits

unfoldable pub latest_dominant_non_dc_hz : DspStats → Option ℕ
latest_dominant_non_dc_hz s = when s.has_dominant s.latest_dominant_hz_bits

unfoldable pub get_backend_abi_version : DspStats → Option ℕ
get_backend_abi_version s = when s.has_backend_abi s.backend_abi_version

unfoldable pub get_profile_version : DspStats → Option ℕ
get_profile_version s = when (is_some s.profile_id) s.profile_version
