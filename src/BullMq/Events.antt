-- ===== src/BullMq/Events.antt =====
-- crates/lenses/keylens-bullmq/src/events.rs: live throughput from the events stream. Counters are
-- unbounded numbers; a second is an integer, since `i64` timestamps may be negative.
pub mod Order
pub mod History
pub mod Window
pub mod Throughput
use keylens.Base.{
  ℕ, zero, suc, ◌+◌, ◌-◌, ◌≡◌, refl, Bool, true, false, ◌&&◌, List, [], ◌∷◌, ◌++◌, Option, none,
  some, ltb, if◌then◌else◌, length, set, replicate,
}
use keylens.Base.Text.{Text, codes, text_eq}
use keylens.Base.Int.{ℤ, pos, ◌+ℤ◌, ◌-ℤ◌, leb_ℤ, ltb_ℤ, eq_ℤ, to_ℕ, div_ℤ}

abbrev window_secs : ℕ
window_secs = 120

-- `enum EventKind`
pub data EventKind : Type 0 where
  added active completed failed delayed progress removed paused resumed drained stalled other :
      EventKind

-- `EventKind::parse`
unfoldable pub parse_kind : Text → EventKind
parse_kind raw =
    if text_eq raw (codes "added")
    then added
    else if text_eq raw (codes "active")
    then active
    else if text_eq raw (codes "completed")
    then completed
    else if text_eq raw (codes "failed")
    then failed
    else if text_eq raw (codes "delayed")
    then delayed
    else if text_eq raw (codes "progress")
    then progress
    else if text_eq raw (codes "removed")
    then removed
    else if text_eq raw (codes "paused")
    then paused
    else if text_eq raw (codes "resumed")
    then resumed
    else if text_eq raw (codes "drained")
    then drained
    else if text_eq raw (codes "stalled")
    then stalled
    else other

-- `struct Bucket`
pub record Bucket : Type 0 where
  pub second : ℤ
  pub completed_count : ℕ
  pub failed_count : ℕ
  pub added_count : ℕ
  pub total : ℕ

-- `Bucket { second, ..Default::default() }`
abbrev empty_bucket : ℤ → Bucket
empty_bucket s = record {
  second = s;
  completed_count = 0;
  failed_count = 0;
  added_count = 0;
  total = 0;
}

-- `struct Series`
pub record Series : Type 0 where
  pub buckets : List Bucket
  pub seen : ℕ
  pub failed_total : ℕ

abbrev pub default_series : Series
default_series = record { buckets = []; seen = 0; failed_total = 0 }

-- `buckets.back().map(|b| b.second).unwrap_or(second)`
abbrev newest : List Bucket → ℤ → ℤ
newest [] s = s
newest (b ∷ bs) s = newest bs b.second

abbrev after_first : Option ℕ → Bool → Option ℕ
after_first (some i) here = some (suc i)
after_first none here = if here then some 0 else none

-- `buckets.iter().rposition(|b| b.second <= second)`
unfoldable pub rposition_le : ℤ → List Bucket → Option ℕ
rposition_le s [] = none
rposition_le s (b ∷ bs) = after_first (rposition_le s bs) (leb_ℤ b.second s)

-- `buckets[i].second == second`
abbrev second_is : ℤ → ℕ → List Bucket → Bool
second_is s i [] = false
second_is s zero (b ∷ bs) = eq_ℤ b.second s
second_is s (suc i) (b ∷ bs) = second_is s i bs

-- `buckets.insert(i, b)`
abbrev insert_at : ℕ → Bucket → List Bucket → List Bucket
insert_at zero b bs = b ∷ bs
insert_at (suc i) b [] = b ∷ []
insert_at (suc i) b (c ∷ bs) = c ∷ insert_at i b bs

-- The `match` that finds or makes the bucket: the buckets, and its index.
unfoldable pub place : ℤ → Option ℕ → List Bucket → List Bucket × ℕ
place s (some i) bs =
    if second_is s i bs then (bs, i) else (insert_at (i + 1) (empty_bucket s) bs, i + 1)
place s none bs = (empty_bucket s ∷ bs, 0)

-- `bucket.total += 1`, and the counter of the event's kind.
unfoldable pub bump : EventKind → Bucket → Bucket
bump completed b = record b { total = b.total + 1; completed_count = b.completed_count + 1 }
bump failed b = record b { total = b.total + 1; failed_count = b.failed_count + 1 }
bump added b = record b { total = b.total + 1; added_count = b.added_count + 1 }
bump _ b = record b { total = b.total + 1 }

-- The change to `self.buckets[i]`.
abbrev modify : ℕ → (Bucket → Bucket) → List Bucket → List Bucket
modify i f [] = []
modify zero f (b ∷ bs) = f b ∷ bs
modify (suc i) f (b ∷ bs) = b ∷ modify i f bs

-- `while buckets.len() > WINDOW_SECS { buckets.pop_front(); }`
unfoldable pub trim : List Bucket → List Bucket
trim [] = []
trim (b ∷ bs) = let rest = trim bs in if ltb window_secs (length (b ∷ bs)) then rest else b ∷ bs

abbrev is_failed : EventKind → ℕ
is_failed failed = 1
is_failed _ = 0

-- `Series::record`
unfoldable pub record_event : EventKind → ℤ → Series → Series
unfolding rposition_le place bump trim
record_event k s r =
    if leb_ℤ (s +ℤ pos window_secs) (newest r.buckets s)
    then r
    else let (bs, i) = place s (rposition_le s r.buckets) r.buckets in
      record {
        buckets = trim (modify i (bump k) bs);
        seen = r.seen + 1;
        failed_total = r.failed_total + is_failed k;
      }

-- The loop of `window` over the buckets.
unfoldable pub fill : ℤ → ℤ → (Bucket → ℕ) → List Bucket → List ℕ → List ℕ
fill start now pick [] out = out
fill start now pick (b ∷ bs) out = fill start now pick bs (
    if leb_ℤ start b.second && leb_ℤ b.second now
    then set out (to_ℕ (b.second -ℤ start)) (pick b)
    else out)

-- `Series::window`
unfoldable pub window : ℤ → ℕ → (Bucket → ℕ) → Series → List ℕ
unfolding fill
window now zero pick r = []
window now (suc width) pick r =
    let start = now -ℤ pos (suc width) +ℤ pos 1 in
    fill start now pick r.buckets (replicate (suc width) 0)
