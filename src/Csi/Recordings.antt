-- ===== src/Csi/Recordings.antt =====
-- Test data: a stream of a header, a blank line and two frames.
use aeryon.Base.{
  false, refl, list_eq, ◌≡◌, none, some, List, [], ◌∷◌, pos, Result, ok, err, if◌then◌else◌, ◌==◌,
}
use aeryon.Base.Outcomes.{done}
use aeryon.Base.Text.{Str, codes, is_blank, blank_after}
use aeryon.Csi.Fixture.{
  RawRecord, header, frame, new, FixtureReader, rx_tx_subcarrier, read_header, handle_header,
  check_header, parse_layout, parse_u64, parse_digits,
}

-- A line that begins with `h` is a header, any other a frame whose sequence number is the first byte.
abbrev pub decode : Str → Result Str RawRecord
decode [] = err (codes "end of file")
decode (c ∷ s) =
    if c == 104
    then ok (
        header (record {
          record_type = codes "header";
          schema = codes "aeryon-csi-fixture";
          version = 1;
          sensor_id = codes "+7";
          description = [];
          sample_layout = codes "rx-tx-subcarrier";
        }))
    else ok (
        frame (record {
          record_type = codes "frame";
          frame_id = 1;
          sequence = c;
          capture_timestamp_nanos = 100;
          center_frequency_hz = none;
          bandwidth_hz = none;
          receive_antennas = 1;
          transmit_antennas = 1;
          subcarrier_indices = pos 1 ∷ [];
          samples = record { re = 0; im = 0 } ∷ [];
          radio = none;
        }))

abbrev pub stream : List (Result Str Str)
stream = ok (codes "h\n") ∷ ok (codes " \n") ∷ ok (codes "a\n") ∷ ok (codes "b\n") ∷ []

abbrev pub opened : FixtureReader Str
opened = record {
  reads = ok (codes " \n") ∷ ok (codes "a\n") ∷ ok (codes "b\n") ∷ [];
  header = some (record {
    schema = codes "aeryon-csi-fixture";
    version = 1;
    sensor_id = 7;
    description = [];
    sample_layout = rx_tx_subcarrier;
  });
  line = 1;
  last_sequence = none;
  finished = false;
}

pub opens : new decode stream ≡ done opened
unfolding new read_header handle_header check_header parse_layout parse_u64 parse_digits is_blank
    blank_after list_eq
opens = refl
