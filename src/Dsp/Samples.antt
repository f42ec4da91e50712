-- ===== src/Dsp/Samples.antt =====
-- Frames and settings that the tests share.
use aeryon.Base.{ℕ, pos, none, [], ◌∷◌}
use aeryon.Base.Text.{codes}
use aeryon.Csi.Frame as Raw
use aeryon.Calibration.Report.{success}
use aeryon.Calibration.Frame.{CalibratedCsiFrame}
use aeryon.Dsp.Assembler.{AssemblerConfig}

-- A frame with one sample.
abbrev pub at : (sequence nanos : ℕ) → CalibratedCsiFrame
at sequence nanos = record {
  raw = record {
    metadata = record {
      frame_id = sequence;
      sensor_id = 7;
      timestamp = record { nanos = nanos };
      sequence = sequence;
      mission_id = none;
      metadata = record { fields = [] };
    };
    receive_timestamp = record { nanos = nanos };
    center_frequency_hz = none;
    bandwidth_hz = none;
    receive_antennas = 1;
    transmit_antennas = 1;
    subcarrier_indices = pos 1 ∷ [];
    samples = record { re = 0; im = 0 } ∷ [];
    source = Raw.replay;
    radio = record { rssi_dbm = none; noise_floor_dbm = none; agc = none; flags = none };
  };
  samples = record { re = 0; im = 0 } ∷ [];
  profile_id = codes "indoor";
  profile_version = 1;
  calibrated_at = record { nanos = nanos };
  report = record {
    raw_frame_id = sequence;
    sequence = sequence;
    profile_id = codes "indoor";
    profile_version = 1;
    started_at = record { nanos = nanos };
    completed_at = record { nanos = nanos };
    duration_ns = 0;
    stages = [];
    input_sample_count = 1;
    output_sample_count = 1;
    warnings = [];
    status = success;
  };
}

-- Windows of `window` frames, `hop` apart, without a gap.
abbrev pub settings : (window hop : ℕ) → AssemblerConfig
settings window hop = record {
  window_size_frames = window;
  hop_size_frames = hop;
  queue_capacity = 4;
  maximum_sequence_gap = 0;
  timestamp_jitter_tolerance = 0;
}
