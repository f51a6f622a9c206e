-- ===== src/Paper/Observation.antt =====
-- paper/runtime.py: `validate_observation`, with the events and their order of data/contracts.py.
use Prim.Native.Nat.{Ordering, compare}
use Prim.Native.String.{compare as text_compare}
use the_pass.Prelude.{
  ℕ, ◌+◌, String, Bool, true, false, ◌&&◌, ◌||◌, Option, none, some, List, [], ◌∷◌, ◌++◌, str_eq,
  ltb, if◌then◌else◌,
}
use the_pass.Paper.Sorting.{sort_by}

-- `CanonicalEvent`, without the fields that the observation does not read.
pub record CanonicalEvent : Type 0 where
  pub source : String
  pub venue : String
  pub instrument_id : String
  pub event_type : String
  pub event_time_ns : ℕ
  pub receive_time_ns : ℕ
  pub ingest_id : String
  pub sequence : Option ℕ

pub record ObservationPolicy : Type 0 where
  pub max_staleness_ns : ℕ
  pub max_clock_skew_ns : ℕ
  pub max_outage_gap_ns : ℕ

-- The key of the stream that an event belongs to.
pub record Key : Type 0 where
  pub source : String
  pub venue : String
  pub instrument_id : String
  pub event_type : String

pub data Breach : Type 0 where
  no_data : Breach
  future_data : List ℕ → Breach
  stale_data : Breach
  clock_skew : ℕ → Breach
  outage_gap : Key → ℕ → Breach

-- The later parts of a key decide where the earlier ones are equal.
abbrev first_of : Ordering → Ordering → Ordering
first_of Ordering.eq o = o
first_of o _ = o

abbrev is_not_greater : Ordering → Bool
is_not_greater Ordering.gt = false
is_not_greater _ = true

-- `2**63 - 1` stands for a sequence that is missing.
abbrev sequence_of : CanonicalEvent → ℕ
sequence_of e = elim e.sequence [ none ↦ 9223372036854775807 | some n ↦ n ]

-- The comparison of two `CanonicalEvent.sort_key`.
abbrev pub sorts_before : CanonicalEvent → CanonicalEvent → Bool
sorts_before a b = is_not_greater (
    first_of (compare a.event_time_ns b.event_time_ns) (
      first_of (compare (sequence_of a) (sequence_of b)) (
        first_of (compare a.receive_time_ns b.receive_time_ns)
          (text_compare a.ingest_id b.ingest_id))))

abbrev pub key_of : CanonicalEvent → Key
key_of e = record {
  source = e.source;
  venue = e.venue;
  instrument_id = e.instrument_id;
  event_type = e.event_type;
}

abbrev pub key_eq : Key → Key → Bool
key_eq a b =
    str_eq a.source b.source
    && str_eq a.venue b.venue
    && str_eq a.instrument_id b.instrument_id
    && str_eq a.event_type b.event_type

abbrev pub key_sorts_before : (Key × List CanonicalEvent) → (Key × List CanonicalEvent) → Bool
key_sorts_before (a, xs) (b, ys) = is_not_greater (
    first_of (text_compare a.source b.source) (
      first_of (text_compare a.venue b.venue) (
        first_of (text_compare a.instrument_id b.instrument_id)
          (text_compare a.event_type b.event_type))))

-- `streams.setdefault(key, []).append(event)`
abbrev pub add_to :
    CanonicalEvent → List (Key × List CanonicalEvent) → List (Key × List CanonicalEvent)
add_to e [] = (key_of e, e ∷ []) ∷ []
add_to e ((k, es) ∷ g) = if key_eq (key_of e) k then (k, es ++ e ∷ []) ∷ g else (k, es) ∷ add_to e g

unfoldable pub group_from :
    List (Key × List CanonicalEvent) → List CanonicalEvent → List (Key × List CanonicalEvent)
group_from g [] = g
group_from g (e ∷ es) = group_from (add_to e g) es

-- The indexes of the rows received after the observation.
unfoldable pub future_rows : ℕ → ℕ → List CanonicalEvent → List ℕ
future_rows t i [] = []
future_rows t i (e ∷ es) =
    let rest = future_rows t (i + 1) es in if ltb t e.receive_time_ns then i ∷ rest else rest

abbrev pub last_of : CanonicalEvent → List CanonicalEvent → CanonicalEvent
last_of e [] = e
last_of e (f ∷ es) = last_of f es

-- `observation_time_ns - rows[-1].receive_time_ns > policy.max_staleness_ns`
abbrev pub is_stale : ObservationPolicy → ℕ → CanonicalEvent → Bool
is_stale p t e = ltb (e.receive_time_ns + p.max_staleness_ns) t

-- `abs(event.receive_time_ns - event.event_time_ns) > policy.max_clock_skew_ns`
abbrev pub is_skewed : ObservationPolicy → CanonicalEvent → Bool
is_skewed p e =
    ltb (e.event_time_ns + p.max_clock_skew_ns) e.receive_time_ns
    || ltb (e.receive_time_ns + p.max_clock_skew_ns) e.event_time_ns

unfoldable pub skew_breaches : ObservationPolicy → ℕ → List CanonicalEvent → List Breach
skew_breaches p i [] = []
skew_breaches p i (e ∷ es) =
    let rest = skew_breaches p (i + 1) es in if is_skewed p e then clock_skew i ∷ rest else rest

-- `current.receive_time_ns - previous.receive_time_ns > policy.max_outage_gap_ns`
abbrev pub is_gap : ObservationPolicy → CanonicalEvent → CanonicalEvent → Bool
is_gap p a b = ltb (a.receive_time_ns + p.max_outage_gap_ns) b.receive_time_ns

-- The rows of a stream after `a`, whose own index is before `i`.
unfoldable pub gap_breaches :
    ObservationPolicy → Key → ℕ → CanonicalEvent → List CanonicalEvent → List Breach
gap_breaches p k i a [] = []
gap_breaches p k i a (b ∷ es) =
    let rest = gap_breaches p k (i + 1) b es in if is_gap p a b then outage_gap k i ∷ rest else rest

unfoldable pub stream_breaches : ObservationPolicy → (Key × List CanonicalEvent) → List Breach
stream_breaches p (k, []) = []
stream_breaches p (k, a ∷ es) = gap_breaches p k 1 a es

unfoldable pub outage_breaches : ObservationPolicy → List (Key × List CanonicalEvent) → List Breach
outage_breaches p [] = []
outage_breaches p (s ∷ ss) = stream_breaches p s ++ outage_breaches p ss

abbrev pub future_breaches : List ℕ → List Breach
future_breaches [] = []
future_breaches (i ∷ is) = future_data (i ∷ is) ∷ []

abbrev pub stale_breaches : Bool → List Breach
stale_breaches true = stale_data ∷ []
stale_breaches false = []

-- The breaches of the sorted rows.
unfoldable pub row_breaches : ObservationPolicy → ℕ → List CanonicalEvent → List Breach
row_breaches p t [] = no_data ∷ []
row_breaches p t (e ∷ es) =
    future_breaches (future_rows t 0 (e ∷ es))
    ++ (stale_breaches (is_stale p t (last_of e es))
        ++ (skew_breaches p 0 (e ∷ es)
            ++ outage_breaches p (sort_by key_sorts_before (group_from [] (e ∷ es)))))

unfoldable pub validate_observation : ObservationPolicy → ℕ → List CanonicalEvent → List Breach
validate_observation p t events = row_breaches p t (sort_by sorts_before events)
