-- ===== src/Csi/FixtureTests.antt =====
-- The fixture reader on a stream of a header, a blank line and two frames.
use aeryon.Base.{ℕ, refl, list_eq, is_finite32, ◌≤◌, ◌≡◌, true, none, some, length}
use aeryon.Base.Outcomes.{Returns, done, failed, panicked}
use aeryon.Base.Text.{is_blank, blank_after}
use aeryon.Csi.Fixture.{
  FixtureHeader, new, next_frame, next_from, handle_record, frame_record_to_csi, convert,
  metadata_of,
}
use aeryon.Csi.Frame as Frame
use aeryon.Csi.Frame.{try_new, check_ascending, check_dimensions, check_finite, is_finite}
use aeryon.Csi.Fixture.Order.{Ascends, frames, reader_after, new_reads_in_order}
use aeryon.Csi.Recordings.{decode, stream, opened}

-- The blank line is passed over, and the frame of the third line is returned.
first_frame :
    ◌≡◌ {A = ℕ}
      (elim (next_frame decode opened).1 [
        | done (some c) ↦ Frame.sequence c
        | done none ↦ 0
        | failed e ↦ 0
        | panicked ↦ 0
      ])
      97
unfolding next_frame next_from handle_record frame_record_to_csi convert metadata_of try_new
    check_ascending check_dimensions check_finite is_finite is_finite32 is_blank blank_after list_eq
first_frame = refl

new_reads_in_order_example :
    Returns
      (λ r.
        (h : FixtureHeader) × (r.header ≡ some h)
        × Ascends h none (frames decode 4 r)
        × (length stream ≤ 4 → (reader_after decode 4 r).finished ≡ true))
      (new decode stream)
new_reads_in_order_example = new_reads_in_order decode stream 4
