-- ===== src/Paper/Examples.antt =====
-- Three rows of two streams to try the observation on.
use the_pass.Prelude.{ℕ, String, none, List, [], ◌∷◌, ◌≡◌, refl}
use the_pass.Paper.Sorting.{sort_by}
use the_pass.Paper.Observation.{
  CanonicalEvent, ObservationPolicy, stale_data, outage_gap, group_from, future_rows, skew_breaches,
  gap_breaches, stream_breaches, outage_breaches, row_breaches, validate_observation, key_of,
}
use the_pass.Paper.Clean.{IsClean, validate_observation-IsClean}

abbrev limits : ObservationPolicy
limits = record { max_staleness_ns = 50; max_clock_skew_ns = 5; max_outage_gap_ns = 20 }

abbrev trade : String → ℕ → CanonicalEvent
trade venue n = record {
  source = "feed";
  venue = venue;
  instrument_id = "BTC";
  event_type = "trade";
  event_time_ns = n;
  receive_time_ns = n;
  ingest_id = "id";
  sequence = none;
}

-- Out of order, and with a long gap between the rows of different venues only.
abbrev rows : List CanonicalEvent
rows = trade "b" 140 ∷ trade "a" 100 ∷ trade "a" 110 ∷ []

rows_pass : validate_observation limits 150 rows ≡ []
unfolding validate_observation row_breaches sort_by group_from future_rows skew_breaches
    gap_breaches stream_breaches outage_breaches
rows_pass = refl

-- A gap within a stream is found, at the row after it, and so is a late observation.
gap_found :
    validate_observation limits 191 (trade "a" 100 ∷ trade "b" 140 ∷ trade "a" 130 ∷ [])
    ≡ stale_data ∷ outage_gap (key_of (trade "a" 100)) 1 ∷ []
unfolding validate_observation row_breaches sort_by group_from future_rows skew_breaches
    gap_breaches stream_breaches outage_breaches
gap_found = refl

validate_observation-IsClean_example : IsClean limits 150 rows
validate_observation-IsClean_example = validate_observation-IsClean limits 150 rows rows_pass
