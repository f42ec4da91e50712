-- ===== src/Calibration/Warnings.antt =====
-- The texts of warnings, of core/calibration/src/report.rs.
use aeryon.Base.{List, [], ◌∷◌, ◌++◌, Option, none, some}
use aeryon.Base.Text.{Str, codes, decimal}
use aeryon.Calibration.Report.{
  CalibrationWarning, stage_skipped, single_subcarrier_link_unchanged, CalibrationReport,
}
use aeryon.Calibration.Stage.{as_str}

unfoldable pub summary : CalibrationWarning → Str
summary (stage_skipped stage order) =
    codes "stage "
    ++ as_str stage
    ++ codes " at order "
    ++ decimal order
    ++ codes " skipped (disabled)"
summary (single_subcarrier_link_unchanged stage rx tx) =
    as_str stage
    ++ codes ": single-subcarrier link rx="
    ++ decimal rx
    ++ codes " tx="
    ++ decimal tx
    ++ codes " left unchanged"

-- The summaries with `; ` between them.
unfoldable pub join_summaries : CalibrationWarning → List CalibrationWarning → Str
join_summaries w [] = summary w
join_summaries w (x ∷ xs) = summary w ++ codes "; " ++ join_summaries x xs

unfoldable pub warning_summary : CalibrationReport → Option Str
warning_summary r = elim r.warnings [ [] ↦ none | (w ∷ ws) ↦ some (join_summaries w ws) ]
