-- ===== src/Lib.antt =====
-- Aeryon: a perception runtime that turns WiFi channel state information (CSI) into windows for signal
-- processing, built from plugins. This library models the parts below and proves them correct.
--
-- Base        lists, options, results, tests, machine words, floats by their bit patterns, strings,
--             and the ordered map that stands for `BTreeMap`.
-- Domain      core/domain/src/{ids,time,frame}.rs: identifiers, timestamps, frame metadata.
-- Csi         core/csi/src/{frame,error}.rs: `CsiFrame`, its construction and its sample layout;
--             fixture.rs: the reader of recorded frames.
-- Calibration core/calibration/src: the pipeline that makes the calibrated frame that the DSP reads
--             (pipeline.rs), its stages over the antenna links (stage.rs and stages/), its profile and
--             configuration (profile.rs), the frame and the report (frame.rs, report.rs, errors.rs).
-- Dsp         core/dsp/src/{errors,window,assembler}.rs: windows of frames, and the assembler that cuts
--             them from a stream; {kernels,backend,motion,spectral,report,result}.rs: the processing of
--             a window; profile.rs: the configuration; stats.rs and the worker loop of service.rs.
-- Features    core/features/src/{schema,vector}.rs: the schema of the features and their vectors.
-- Perception  core/perception/src: the profile of the observation and its configuration (profile.rs), and
--             the observation that is made from a feature vector (channel_change.rs).
-- Runtime     core/runtime/src: recent signals (signal_store.rs), the calibration worker
--             (calibration_service.rs, calibration_stats.rs), and the evaluation of the runtime's
--             health (metrics.rs, health.rs).
-- Replay      plugins/csi-replay/src: the plugin that replays recorded frames, with its task.
-- Flow        how a recording gets through the calibration worker to the DSP worker.
-- Plugins     core/plugin-runtime/src: the plugin contract, registry, loader, and lifecycle runtime.
--
-- A sensor frame (`CsiFrame`) is calibrated by the calibration worker (`CalibratedCsiFrame`), which
-- hands it to the DSP worker. That pushes it to the `WindowAssembler`, which validates it against the
-- frames it has seen and emits a `CsiWindow` when enough are buffered.
-- The DSP worker processes each window to motion energies and spectra, stores the result, publishes events
-- and keeps statistics, from which the runtime evaluates its health.
-- From a feature vector of a window, `observe_channel_change` makes the observation of how the channel
-- changes; it takes the identifier of the observation from a shared counter.
-- The sources of frames are plugins: the loader makes them from factories and puts them in the registry;
-- the runtime starts and stops them there. One of them is the replay, whose task reads recorded frames
-- and puts them in the queue of the calibration worker.
--
-- A struct is a record, an enum a data type, and each method a function of the same name that returns
-- the state it leaves with its result (a getter that a field of the record would shadow has `get_` before
-- its name). `usize` and `u64` are natural numbers; where the code saturates or checks for overflow the
-- model does at 2^64 - 1. An `Outcome` is a value, an error, or a panic. A float is its bit pattern, on
-- which finiteness and order are computed; its arithmetic is the interface `F64` of doubles, of which no
-- law is assumed, and `F32` of singles, for which a theorem may assume `IsIeee`: facts of IEEE 754 on values
-- of small magnitude, with which the two `while` loops of the phase unwrapping end. These loops take
-- fuel, the bit pattern of the value that they start at, which is enough since each round moves the
-- value, and so its pattern, nearer to that of zero. The printing of a number takes itself as
-- fuel. All other loops are structural recursion. A formatted message of an error is a constructor with
-- the values it prints.
--
-- A task or worker runs in rounds. Those of the two workers are the frames of their queues; those of the
-- replay's task are observations: what the file, the cancel signal, the event bus, the queue and the wait
-- give in that round.
--
-- Parameters: the third-party Fourier transform (it works in place, and so keeps the length), the
-- decoder of JSON, the clock, the measured durations and the text of an error. Atomics are fields that
-- change in program order, a lock is never poisoned, and what publishing an event returns is ignored
-- where the code ignores it.
--
-- Not modelled: the extraction of features from a window, the workers of the features and of the
-- observation, the configuration and orchestration of the runtime, the event bus, the server, the
-- native backend, serialization, network, files, logging, the channels and threads around a worker.
pub mod Base
pub mod Calibration
pub mod Csi
pub mod Domain
pub mod Dsp
pub mod Features
pub mod Flow
pub mod Perception
pub mod Plugins
pub mod Replay
pub mod Runtime
