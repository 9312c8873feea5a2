-- ===== src/BullMq/Events/Throughput.antt =====
-- `EventsStatus` and `Throughput` of crates/lenses/keylens-bullmq/src/events.rs, and the event that
-- crates/keylens/src/events.rs reads off a stream. The map of series is the list of its entries.
use keylens.Base.{
  ℕ, Bool, true, false, List, [], ◌∷◌, Option, none, some, if◌then◌else◌, length, ◌≡◌, refl, arith,
}
use keylens.Base.Text.{Text, text_eq, text_eq_iff}
use keylens.Base.Int.{ℤ, div_ℤ}
use keylens.BullMq.Events.{EventKind, Series, default_series, record_event}

-- `enum EventsStatus`
pub data EventsStatus : Type 0 where
  attaching live : EventsStatus
  unavailable : Text → EventsStatus

-- `struct Throughput`
pub record Throughput : Type 0 where
  pub series : List (Text × Series)
  pub status : EventsStatus

abbrev pub default_throughput : Throughput
default_throughput = record { series = []; status = attaching }

-- `Throughput::is_live`
abbrev is_live_status : EventsStatus → Bool
is_live_status live = true
is_live_status _ = false

unfoldable is_live : Throughput → Bool
is_live t = is_live_status t.status

-- `series.entry(queue).or_default()`, and what is then done to the entry.
unfoldable entry_or_default : Text → (Series → Series) → List (Text × Series) → List (Text × Series)
entry_or_default queue f [] = (queue, f default_series) ∷ []
entry_or_default queue f ((q, s) ∷ r) =
    if text_eq q queue then (q, f s) ∷ r else (q, s) ∷ entry_or_default queue f r

-- `Throughput::record`
unfoldable pub record_throughput : Text → EventKind → ℤ → Throughput → Throughput
unfolding entry_or_default
record_throughput queue kind at_ms t = record t {
  series = entry_or_default queue (record_event kind (div_ℤ at_ms 1000)) t.series;
}

abbrev series_in : Text → List (Text × Series) → Option Series
series_in queue [] = none
series_in queue ((q, s) ∷ r) = if text_eq q queue then some s else series_in queue r

-- `Throughput::series`
unfoldable pub series_of : Text → Throughput → Option Series
series_of queue t = series_in queue t.series

-- `Throughput::watching`
unfoldable watching : Throughput → ℕ
watching t = length t.series

-- `struct StreamEvent`
pub record StreamEvent : Type 0 where
  pub queue : Text
  pub kind : EventKind
  pub at_ms : ℤ

abbrev pub or_new : Option Series → Series
or_new none = default_series
or_new (some s) = s

series_in-entry :
    (queue other : Text) (f : Series → Series) (r : List (Text × Series))
    → series_in other (entry_or_default queue f r)
      ≡ (if text_eq queue other then some (f (or_new (series_in queue r))) else series_in other r)
unfolding entry_or_default
series_in-entry queue other f [] = refl
series_in-entry queue other f ((q, s) ∷ r) = ground (
  arith,
  series_in-entry queue other f r,
  text_eq_iff q queue,
  text_eq_iff q other,
  text_eq_iff queue other,
)

-- An event is recorded in the series of its own queue, which starts out empty, in the second of its
-- timestamp; the series of every other queue stays as it is.
pub record_throughput_lem :
    (queue other : Text) (k : EventKind) (at_ms : ℤ) (t : Throughput)
    → series_of other (record_throughput queue k at_ms t) ≡ (
        if text_eq queue other
        then some (record_event k (div_ℤ at_ms 1000) (or_new (series_of queue t)))
        else series_of other t)
unfolding series_of record_throughput
record_throughput_lem queue other k at_ms t =
    series_in-entry queue other (record_event k (div_ℤ at_ms 1000)) t.series
