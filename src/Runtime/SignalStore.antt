-- ===== src/Runtime/SignalStore.antt =====
-- `SignalSnapshotStore` of core/runtime/src/signal_store.rs, over the types of what it keeps. Each
-- locked field is a field of the record; no lock is poisoned, since nothing panics that holds one.
pub mod Recent
use mathlib.Core.List.{reverse}
use Prim.Native.Nat.{min, max}
use aeryon.Base.{ℕ, Option, none, some, List, [], ◌∷◌, ◌++◌, length, take, drop, leb, if◌then◌else◌}
use aeryon.Csi.Frame.{CsiFrame}
use aeryon.Calibration.Frame.{CalibratedCsiFrame}
use aeryon.Dsp.Report.{DspWindowResult}

pub record SignalSnapshotStore (V O E : Type 0) : Type 0 where
  pub latest_raw : Option CsiFrame
  pub latest_calibrated : Option CalibratedCsiFrame
  pub latest_dsp : Option DspWindowResult
  pub latest_features : Option V
  pub latest_observation : Option O
  pub recent_events : List E
  pub recent_capacity : ℕ

module _ {V O E : Type 0} where
  unfoldable pub new : ℕ → SignalSnapshotStore V O E
  new recent_capacity = record {
    latest_raw = none;
    latest_calibrated = none;
    latest_dsp = none;
    latest_features = none;
    latest_observation = none;
    recent_events = [];
    recent_capacity = max recent_capacity 1;
  }

  unfoldable pub store_calibrated :
      CalibratedCsiFrame → SignalSnapshotStore V O E → SignalSnapshotStore V O E
  store_calibrated f s = record s { latest_raw = some f.raw; latest_calibrated = some f }

  unfoldable pub store_dsp : DspWindowResult → SignalSnapshotStore V O E → SignalSnapshotStore V O E
  store_dsp r s = record s { latest_dsp = some r }

  unfoldable pub store_features : V → SignalSnapshotStore V O E → SignalSnapshotStore V O E
  store_features v s = record s { latest_features = some v }

  unfoldable pub store_observation : O → SignalSnapshotStore V O E → SignalSnapshotStore V O E
  store_observation o s = record s { latest_observation = some o }

  unfoldable pub push_event : E → SignalSnapshotStore V O E → SignalSnapshotStore V O E
  push_event e s =
      let kept =
        if leb s.recent_capacity (length s.recent_events)
        then drop 1 s.recent_events
        else s.recent_events in
      record s { recent_events = kept ++ (e ∷ []) }

  -- The getter `recent_events`.
  unfoldable pub recent : ℕ → SignalSnapshotStore V O E → List E
  recent limit s = reverse (take (min limit (length s.recent_events)) (reverse s.recent_events))
