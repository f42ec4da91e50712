-- ===== src/Runtime/Samples.antt =====
-- Test data: a calibration worker that has not begun.
use aeryon.Base.{true, false, none, []}
use aeryon.Calibration.Samples.{doubles, singles}
use aeryon.Runtime.CalibrationStats.{CalibrationStats}
use aeryon.Runtime.CalibrationService.{Worker}

abbrev pub new_stats : CalibrationStats
new_stats = record {
  enabled = true;
  worker_state = 2;
  profile_id = none;
  profile_version = 0;
  raw_frames_submitted = 0;
  frames_calibrated = 0;
  calibration_failures = 0;
  latest_sequence = 0;
  latest_timestamp_nanos = 0;
  has_calibrated = false;
  last_duration_ns = 0;
  average_duration_ns_bits = 0;
  average_count = 0;
  queue_depth = 0;
  last_error = none;
  last_warning = none;
  unexpected_exit = false;
}

abbrev pub new_worker : Worker (Unit {0}) (Unit {0}) (Unit {0})
new_worker = record {
  stats = new_stats;
  store = none;
  ticks = 0;
  published = [];
  forwards = true;
  sent = [];
  alive = true;
}
