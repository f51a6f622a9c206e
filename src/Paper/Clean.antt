-- ===== src/Paper/Clean.antt =====
-- What an observation without breaches guarantees.
use mathlib.Core.Path.{subst}
use the_pass.Prelude.{
  ||-eq-false, ℕ, ◌+◌, ◌≤◌, Bool, true, false, List, [], ◌∷◌, ◌≡◌, refl, ap, arith, All, is_nil,
  select, ltb, append-eq-nil, if◌then◌else◌,
}
use the_pass.Paper.Sorting.{sort_by, All-sort_by}
use the_pass.Paper.Observation.{
  CanonicalEvent, ObservationPolicy, Key, key_eq, sorts_before, key_sorts_before, group_from,
  future_rows, last_of, is_stale, is_skewed, skew_breaches, is_gap, gap_breaches, stream_breaches,
  outage_breaches, future_breaches, stale_breaches, row_breaches, validate_observation,
}
use the_pass.Paper.Streams.{rows_of, is_in, rows_of-group_from}

-- No row arrives more than the allowed gap after the one before it.
pub SteadyAfter : ObservationPolicy → CanonicalEvent → List CanonicalEvent → Type 0
SteadyAfter p a [] = Unit {0}
SteadyAfter p a (b ∷ es) =
    (b.receive_time_ns ≤ a.receive_time_ns + p.max_outage_gap_ns) × SteadyAfter p b es

pub IsSteady : ObservationPolicy → List CanonicalEvent → Type 0
IsSteady p [] = Unit {0}
IsSteady p (a ∷ es) = SteadyAfter p a es

-- The clocks of the venue and of the receiver agree up to the allowed skew.
abbrev pub IsInStep : ObservationPolicy → CanonicalEvent → Type 0
IsInStep p e =
    (e.receive_time_ns ≤ e.event_time_ns + p.max_clock_skew_ns)
    × (e.event_time_ns ≤ e.receive_time_ns + p.max_clock_skew_ns)

pub record IsClean (p : ObservationPolicy) (t : ℕ) (events : List CanonicalEvent) : Type 0 where
  pub some_data : is_nil (sort_by sorts_before events) ≡ false
  pub none_later : All (λ e. e.receive_time_ns ≤ t) events
  pub fresh :
      (e : CanonicalEvent) (es : List CanonicalEvent)
      → sort_by sorts_before events ≡ e ∷ es
      → t ≤ (last_of e es).receive_time_ns + p.max_staleness_ns
  pub in_step : All (IsInStep p) events
  pub steady : (k : Key) → IsSteady p (select (is_in k) (sort_by sorts_before events))

-- A report that adds to an empty list and is empty was not made.
unreported {ℓ} :
    {A : Type ℓ} (b : Bool) (x : A) (r : List A)
    → (if b then x ∷ r else r) ≡ []
    → (b ≡ false) × (r ≡ [])
unreported true x r h = cc
unreported false x r h = (refl, h)

ltb-false : (m n : ℕ) → ltb m n ≡ false → n ≤ m
ltb-false m n e = ground arith

future_rows-eq-nil :
    (t i : ℕ) (es : List CanonicalEvent)
    → future_rows t i es ≡ []
    → All (λ e. e.receive_time_ns ≤ t) es
unfolding future_rows
future_rows-eq-nil t i [] h = tt
future_rows-eq-nil t i (e ∷ es) h =
    let q = unreported (ltb t e.receive_time_ns) _ _ h in
    (ltb-false _ _ q.0, future_rows-eq-nil t (i + 1) es q.1)

skew_breaches-eq-nil :
    (p : ObservationPolicy) (i : ℕ) (es : List CanonicalEvent)
    → skew_breaches p i es ≡ []
    → All (IsInStep p) es
unfolding skew_breaches
skew_breaches-eq-nil p i [] h = tt
skew_breaches-eq-nil p i (e ∷ es) h =
    let q = unreported (is_skewed p e) _ _ h in
    let r = ||-eq-false _ _ q.0 in
    ((ltb-false _ _ r.0, ltb-false _ _ r.1), skew_breaches-eq-nil p (i + 1) es q.1)

gap_breaches-eq-nil :
    (p : ObservationPolicy) (k : Key) (i : ℕ) (a : CanonicalEvent) (es : List CanonicalEvent)
    → gap_breaches p k i a es ≡ []
    → SteadyAfter p a es
unfolding gap_breaches SteadyAfter
gap_breaches-eq-nil p k i a [] h = tt
gap_breaches-eq-nil p k i a (b ∷ es) h =
    let q = unreported (is_gap p a b) _ _ h in
    (ltb-false _ _ q.0, gap_breaches-eq-nil p k (i + 1) b es q.1)

stream_breaches-eq-nil :
    (p : ObservationPolicy) (k : Key) (es : List CanonicalEvent)
    → stream_breaches p (k, es) ≡ []
    → IsSteady p es
unfolding stream_breaches IsSteady
stream_breaches-eq-nil p k [] h = tt
stream_breaches-eq-nil p k (a ∷ es) h = gap_breaches-eq-nil p k 1 a es h

outage_breaches-eq-nil :
    (p : ObservationPolicy) (ss : List (Key × List CanonicalEvent))
    → outage_breaches p ss ≡ []
    → All (λ s. IsSteady p s.1) ss
unfolding outage_breaches
outage_breaches-eq-nil p [] h = tt
outage_breaches-eq-nil p ((k, es) ∷ ss) h =
    let q = append-eq-nil _ _ h in
    (stream_breaches-eq-nil p k es q.0, outage_breaches-eq-nil p ss q.1)

-- A stream is steady if all groups are.
rows_of-IsSteady :
    (p : ObservationPolicy) (k : Key) (g : List (Key × List CanonicalEvent))
    → All (λ s. IsSteady p s.1) g
    → IsSteady p (rows_of k g)
unfolding IsSteady
rows_of-IsSteady p k [] h = tt
rows_of-IsSteady p k ((j, es) ∷ g) h = pick (key_eq k j) (rows_of-IsSteady p k g h.1)
  where
    pick : (b : Bool) → IsSteady p (rows_of k g) → IsSteady p (if b then es else rows_of k g)
    pick true q = h.0
    pick false q = q

outages-IsSteady :
    (p : ObservationPolicy) (k : Key) (rows : List CanonicalEvent)
    → outage_breaches p (sort_by key_sorts_before (group_from [] rows)) ≡ []
    → IsSteady p (select (is_in k) rows)
outages-IsSteady p k rows h = subst (IsSteady p) (rows_of-group_from k [] rows) (
    rows_of-IsSteady p k (group_from [] rows) (
      All-sort_by (λ s. IsSteady p s.1) key_sorts_before (group_from [] rows)
        (outage_breaches-eq-nil p _ h)))

-- What the sorted rows satisfy.
record IsCleanRows (p : ObservationPolicy) (t : ℕ) (rows : List CanonicalEvent) : Type 0 where
  pub some_data : is_nil rows ≡ false
  pub none_later : All (λ e. e.receive_time_ns ≤ t) rows
  pub fresh :
      (e : CanonicalEvent) (es : List CanonicalEvent)
      → rows ≡ e ∷ es
      → t ≤ (last_of e es).receive_time_ns + p.max_staleness_ns
  pub in_step : All (IsInStep p) rows
  pub steady : (k : Key) → IsSteady p (select (is_in k) rows)

abbrev last_time : List CanonicalEvent → ℕ
last_time [] = 0
last_time (e ∷ es) = (last_of e es).receive_time_ns

row_breaches-IsCleanRows :
    (p : ObservationPolicy) (t : ℕ) (rows : List CanonicalEvent)
    → row_breaches p t rows ≡ []
    → IsCleanRows p t rows
unfolding row_breaches
row_breaches-IsCleanRows p t [] h = cc
row_breaches-IsCleanRows p t (e ∷ es) h =
    let a = append-eq-nil _ _ h in
    let b = append-eq-nil _ _ a.1 in
    let c = append-eq-nil _ _ b.1 in
    record {
      some_data = refl;
      none_later = future_rows-eq-nil t 0 (e ∷ es) (none_future (future_rows t 0 (e ∷ es)) a.0);
      fresh = λ f fs q. fresh_at f fs (ap last_time q) (not_stale _ b.0);
      in_step = skew_breaches-eq-nil p 0 (e ∷ es) c.0;
      steady = λ k. outages-IsSteady p k (e ∷ es) c.1;
    }
  where
    not_stale : (s : Bool) → stale_breaches s ≡ [] → s ≡ false
    not_stale true h = cc
    not_stale false h = refl

    fresh_at :
        (f : CanonicalEvent) (fs : List CanonicalEvent)
        → (last_of e es).receive_time_ns ≡ (last_of f fs).receive_time_ns
        → is_stale p t (last_of e es) ≡ false
        → t ≤ (last_of f fs).receive_time_ns + p.max_staleness_ns
    fresh_at f fs q s = let r = ltb-false _ _ s in omega arith

    none_future : (is : List ℕ) → future_breaches is ≡ [] → is ≡ []
    none_future [] h = refl
    none_future (i ∷ is) h = cc

-- An observation without breaches has data, none of it received after the observation, the last of
-- the sorted rows within the staleness limit, every row within the clock skew, and in each stream of
-- the sorted rows no row that arrives later than the allowed gap after the one before it.
pub validate_observation-IsClean :
    (p : ObservationPolicy) (t : ℕ) (events : List CanonicalEvent)
    → validate_observation p t events ≡ []
    → IsClean p t events
unfolding validate_observation
validate_observation-IsClean p t events h =
    let q = row_breaches-IsCleanRows p t (sort_by sorts_before events) h in
    record {
      some_data = q.some_data;
      none_later = All-sort_by (λ e. e.receive_time_ns ≤ t) sorts_before events q.none_later;
      fresh = q.fresh;
      in_step = All-sort_by (IsInStep p) sorts_before events q.in_step;
      steady = q.steady;
    }
