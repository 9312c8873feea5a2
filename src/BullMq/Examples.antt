-- ===== src/BullMq/Examples.antt =====
-- The events series and the key layout on concrete events and queues.
use keylens.Base.{
  ◌⊎◌, ◌≤◌, ◌-◌, ◌+◌, ◌^◌, none, map, ℕ, ◌≡◌, ◌≢◌, refl, ◌↔◌, true, false, [], ◌∷◌, ◌++◌, some,
  arith, length, get_elem?, if◌then◌else◌, ◌<◌,
}
use keylens.Base.Text.{Text, codes, text_eq, compare_text}
use keylens.Base.Int.{pos, div_ℤ, ◌+ℤ◌, ◌-ℤ◌}
use keylens.Conn.Value.{byte_length, char_bytes}
use keylens.Conn.Error.{ok}
use keylens.Conn.Program.{run}
use keylens.Conn.Sample.{sample_client, sample_conn, sample_server}
use keylens.BullMq.Fields.{max_field_bytes, field_marker, cap_field}
use keylens.BullMq.Fields.Capped.{cap_field_lem}
use keylens.BullMq.Jobs.{page_range, jobs, job_logs}
use keylens.BullMq.Lens.{summaries}
use keylens.BullMq.Jobs.Ranges.{IsBounded, page_range_lem, lists_are_bounded}
use keylens.BullMq.Lens.Slots.{summary_alone, run-summaries}
use keylens.BullMq.Events.{
  EventKind, Series, default_series, record_event, bump, window, rposition_le, place, trim, fill,
}
use keylens.BullMq.Events.Order.{touched, ordered_touch, touched-eq-ordered_touch}
use keylens.BullMq.Events.History.{bucket_at, IsValid, default-IsValid, record_event-IsValid}
use keylens.BullMq.Events.Window.{second_of, window_exact}
use keylens.BullMq.Events.Throughput.{
  default_throughput, record_throughput, series_of, or_new, record_throughput_lem,
}
use keylens.BullMq.Keys.{
  waiting, active, completed, QueueKeys, state_key, meta_key, key, base, queue_name_from_meta_key,
  is_paused,
}
use keylens.BullMq.Keys.RoundTrip.{queue_name_round_trip}
use keylens.BullMq.Keys.Layout.{state_keys_distinct}

abbrev one_event : Series
one_event = record_event EventKind.completed (pos 100) default_series

abbrev two_events : Series
two_events = record_event EventKind.failed (pos 101) one_event

one_event-IsValid : IsValid one_event
one_event-IsValid =
    record_event-IsValid EventKind.completed (pos 100) default_series default-IsValid

two_events-IsValid : IsValid two_events
two_events-IsValid = record_event-IsValid EventKind.failed (pos 101) one_event one_event-IsValid

quiet_tail : window (pos 105) 6 (λ b. b.total) one_event ≡ 1 ∷ 0 ∷ 0 ∷ 0 ∷ 0 ∷ 0 ∷ []
unfolding window fill record_event place bump trim rposition_le ◌+ℤ◌ ◌-ℤ◌
quiet_tail = refl

touched-eq-ordered_touch_example :
    touched EventKind.completed (pos 100) one_event.buckets
    ≡ ordered_touch EventKind.completed (pos 100) one_event.buckets
touched-eq-ordered_touch_example =
    touched-eq-ordered_touch EventKind.completed (pos 100) one_event.buckets
      one_event-IsValid.ascending

window_exact_example :
    (length (window (pos 105) 6 (λ b. b.total) two_events) ≡ 6)
    × ((i : ℕ)
        → i < 6
        → get_elem? (window (pos 105) 6 (λ b. b.total) two_events) i
          ≡ some ((bucket_at (second_of (pos 105) 6 i) two_events.buckets).total))
window_exact_example =
    window_exact (pos 105) 6 (λ b. b.total) two_events two_events-IsValid (λ s. refl)

record_throughput_lem_example :
    series_of
      (codes "a")
      (record_throughput (codes "a") EventKind.added (pos 1500) default_throughput)
    ≡ (if text_eq (codes "a") (codes "a")
        then some (
            record_event EventKind.added
              (div_ℤ (pos 1500) 1000)
              (or_new (series_of (codes "a") default_throughput)))
        else series_of (codes "a") default_throughput)
record_throughput_lem_example =
    record_throughput_lem (codes "a") (codes "a") EventKind.added (pos 1500) default_throughput

abbrev emails : QueueKeys
emails = record { prefix = codes "bull"; name = codes "emails:bulk" }

queue_name_round_trip_example :
    (queue_name_from_meta_key (codes "bull") (codes "bull:emails:bulk:meta")
      ≡ some (codes "emails:bulk"))
    ↔ ((codes "bull:emails:bulk:meta" ≡ meta_key emails) × (codes "emails:bulk" ≢ []))
queue_name_round_trip_example =
    queue_name_round_trip (codes "bull") (codes "bull:emails:bulk:meta") (codes "emails:bulk")

meta_of_emails : meta_key emails ≡ codes "bull:emails:bulk:meta"
unfolding meta_key key base
meta_of_emails = refl

state_keys_distinct_example : state_key emails waiting ≢ state_key emails active
state_keys_distinct_example = state_keys_distinct emails waiting active (λ e. ground arith)

paused_flags : (is_paused (some (codes "1")) ≡ true) × (is_paused (some (codes "0")) ≡ false)
unfolding is_paused compare_text
paused_flags = (refl, refl)

page_range_lem_example :
    (page_range 400 200 ≡ none) × ((◌≡◌ {A = ℕ} 200 0) ⊎ ((2 ^ 63 ≤ 200) ⊎ (2 ^ 63 < 400 + 200)))
    ⊎ (page_range 400 200 ≡ some (400, 400 + (200 - 1))) × (0 < 200) × (400 + (200 - 1) < 2 ^ 63)
page_range_lem_example = page_range_lem 400 200

-- A page whose last element is the greatest `i64` is refused, if it starts at 0.
greatest_page : page_range 0 (2 ^ 63) ≡ none
unfolding page_range
greatest_page = refl

lists_are_bounded_example :
    IsBounded sample_client
      (codes "bull")
      (codes "mail")
      0
      200
      (jobs sample_client (codes "bull") (codes "mail") completed 0 200)
    × IsBounded sample_client
        (codes "bull")
        (codes "mail")
        0
        200
        (job_logs sample_client (codes "bull") (codes "mail") (codes "7") 200)
lists_are_bounded_example =
    lists_are_bounded sample_client (codes "bull") (codes "mail") completed (codes "7") 0 200

run-summaries_example :
    run sample_server
      (summaries sample_client sample_conn (codes "bull") (codes "mail" ∷ codes "sms" ∷ []))
    ≡ ok (
        map
          (summary_alone sample_client (codes "bull") sample_server)
          (codes "mail" ∷ codes "sms" ∷ []))
run-summaries_example =
    run-summaries sample_client (codes "bull") sample_server sample_conn
      (codes "mail" ∷ codes "sms" ∷ [])

cap_field_lem_example :
    ((byte_length (codes "{}") ≤ max_field_bytes) × (cap_field (codes "{}") ≡ codes "{}"))
    ⊎ ((kept : Text) × (c : ℕ) × (rest : Text) × (codes "{}" ≡ kept ++ c ∷ rest)
        × (byte_length kept ≤ max_field_bytes)
        × (max_field_bytes < byte_length kept + char_bytes c)
        × (cap_field (codes "{}") ≡ kept ++ field_marker))
cap_field_lem_example = cap_field_lem (codes "{}")
