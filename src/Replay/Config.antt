-- ===== src/Replay/Config.antt =====
-- `CsiReplayConfig` of plugins/csi-replay/src/config.rs. A path is its string; what the file system says of
-- it is a parameter.
use aeryon.Base.{ℕ, Bool, true, false, not, [], ◌==◌}
use aeryon.Base.Text.{Str}
use aeryon.Base.Outcomes.{Outcome, done, ◌>>◌, refuse}

pub record CsiReplayConfig : Type 0 where
  pub enabled : Bool
  pub path : Str
  pub loop_playback : Bool
  pub frame_interval_ms : ℕ
  pub maximum_frames : ℕ

pub data CsiReplayConfigError : Type 0 where
  zero_interval : CsiReplayConfigError
  empty_path : CsiReplayConfigError
  fixture_missing : (path : Str) → CsiReplayConfigError
  fixture_not_file : (path : Str) → CsiReplayConfigError

abbrev pub is_empty : Str → Bool
is_empty [] = true
is_empty _ = false

unfoldable pub validate :
    (exists is_file : Str → Bool) → CsiReplayConfig → Outcome CsiReplayConfigError (Unit {0})
validate exists is_file c = do
  refuse (c.frame_interval_ms == 0) zero_interval
  elim c.enabled [
    | false ↦ done tt
    | true ↦
        refuse (is_empty c.path) empty_path
        >> refuse (not (exists c.path)) (fixture_missing c.path)
        >> refuse (not (is_file c.path)) (fixture_not_file c.path)
  ]
