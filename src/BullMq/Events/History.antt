-- ===== src/BullMq/Events/History.antt =====
-- A series as a function from seconds to buckets: what `record` does to it, within the window.
use keylens.Base.{
  ◌+◌, ◌≤◌, ◌≡◌, Bool, true, false, List, [], ◌∷◌, arith, ltb, if◌then◌else◌, length, All,
  Bool-cases, inl, inr,
}
use keylens.Base.Int.{ℤ, pos, ◌+ℤ◌, leb_ℤ, eq_ℤ}
use keylens.BullMq.Events.{
  EventKind, Bucket, empty_bucket, Series, default_series, trim, newest, window_secs, record_event,
  is_failed,
}
use keylens.BullMq.Events.Order.{
  IsAscending, touched, touched-eq-ordered_touch, ordered_touch-IsAscending,
}

-- The bucket of a second: an empty one where none is kept.
abbrev pub bucket_at : ℤ → List Bucket → Bucket
bucket_at q [] = empty_bucket q
bucket_at q (b ∷ bs) = if eq_ℤ b.second q then b else bucket_at q bs

length-trim : (bs : List Bucket) → length (trim bs) ≤ window_secs
unfolding trim
length-trim [] = omega arith
length-trim (b ∷ bs) = ground (arith, length-trim bs)

All-trim : (P : Bucket → Type 0) (bs : List Bucket) → All P bs → All P (trim bs)
unfolding trim
All-trim P [] h = tt
All-trim P (b ∷ bs) h = elim (Bool-cases (ltb window_secs (length (b ∷ bs)))) [
  | inl e ↦ rw e (All-trim P bs h.1)
  | inr e ↦ rw e h
]

trim-IsAscending : (bs : List Bucket) → IsAscending bs → IsAscending (trim bs)
unfolding trim
trim-IsAscending [] h = tt
trim-IsAscending (b ∷ bs) h = elim (Bool-cases (ltb window_secs (length (b ∷ bs)))) [
  | inl e ↦ rw e (trim-IsAscending bs h.1)
  | inr e ↦ rw e h
]

-- What every series that `record` builds satisfies.
pub record IsValid (r : Series) : Type 0 where
  pub ascending : IsAscending r.buckets
  pub bounded : length r.buckets ≤ window_secs

pub default-IsValid : IsValid default_series
default-IsValid = record { ascending = tt; bounded = omega arith }

touched-IsAscending :
    (k : EventKind) (s : ℤ) (bs : List Bucket) → IsAscending bs → IsAscending (touched k s bs)
touched-IsAscending k s bs h =
    rw (touched-eq-ordered_touch k s bs h) (ordered_touch-IsAscending k s bs h)

-- The event is older than the window that ends at the newest bucket.
abbrev is_late : ℤ → Series → Bool
is_late s r = leb_ℤ (s +ℤ pos window_secs) (newest r.buckets s)

record_late : (k : EventKind) (s : ℤ) (r : Series) → is_late s r ≡ true → record_event k s r ≡ r
unfolding record_event
record_late k s r e = rw e

record_kept :
    (k : EventKind) (s : ℤ) (r : Series)
    → is_late s r ≡ false
    → record_event k s r ≡ record {
      buckets = trim (touched k s r.buckets);
      seen = r.seen + 1;
      failed_total = r.failed_total + is_failed k;
    }
unfolding record_event touched
record_kept k s r e = rw e

-- Recording an event keeps the buckets in strictly increasing order of their seconds, and at most
-- `window_secs` of them.
pub record_event-IsValid :
    (k : EventKind) (s : ℤ) (r : Series) → IsValid r → IsValid (record_event k s r)
record_event-IsValid k s r v = elim (Bool-cases (is_late s r)) [
  | inl e ↦ rw (record_late k s r e) v
  | inr e ↦ rw (record_kept k s r e) (record {
    ascending = trim-IsAscending _ (touched-IsAscending k s r.buckets v.ascending);
    bounded = length-trim (touched k s r.buckets);
  })
]
