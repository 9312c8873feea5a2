-- ===== src/BullMq/Job.antt =====
-- The jobs and the queue summaries of crates/lenses/keylens-bullmq/src/job.rs and lens.rs.
use keylens.Base.{
  ℕ, Bool, not, ◌||◌, List, [], ◌∷◌, Option, none, some, if◌then◌else◌, ◌&&◌, ◌^◌, ◌-◌,
}
use keylens.Base.Text.{Text, is_empty, text_eq}
use keylens.Base.Int.{ℤ, pos, negsuc, leb_ℤ, ◌-ℤ◌}
use keylens.Conn.Reply.{F64}
use keylens.BullMq.Keys.{State, suffix}

-- `struct JobRef`
pub record JobRef : Type 0 where
  pub id : Text
  pub score : Option F64

-- `struct Job`
pub record Job : Type 0 where
  pub id : Text
  pub name : Text
  pub data_json : Text
  pub opts : Text
  pub attempts_made : ℕ
  pub attempts_allowed : Option ℕ
  pub stacktrace : List Text
  pub failed_reason : Text
  pub return_value : Text
  pub progress : Text
  pub timestamp : Option ℤ
  pub processed_on : Option ℤ
  pub finished_on : Option ℤ
  pub delay : Option ℤ
  pub priority : Option ℤ
  pub parent_key : Text

-- `i64::checked_sub`
abbrev i64_fits : ℤ → Bool
i64_fits a = leb_ℤ (negsuc (2 ^ 63 - 1)) a && leb_ℤ a (pos (2 ^ 63 - 1))

unfoldable checked_sub : ℤ → ℤ → Option ℤ
checked_sub a b = if i64_fits (a -ℤ b) then some (a -ℤ b) else none

abbrev elapsed : Option ℤ → Option ℤ → Option ℤ
elapsed (some from) (some to) = if leb_ℤ from to then checked_sub to from else none
elapsed _ _ = none

-- `Job::duration_ms`
unfoldable duration_ms : Job → Option ℤ
unfolding checked_sub
duration_ms j = elapsed j.processed_on j.finished_on

-- `Job::wait_ms`
unfoldable wait_ms : Job → Option ℤ
unfolding checked_sub
wait_ms j = elapsed j.timestamp j.processed_on

-- `Job::has_failed`
unfoldable has_failed : Job → Bool
has_failed j = not (is_empty j.failed_reason) || not (is_empty j.stacktrace)

-- `struct QueueSummary`
pub record QueueSummary : Type 0 where
  pub name : Text
  pub paused : Bool
  pub counts : List (State × ℕ)

abbrev count_in : State → List (State × ℕ) → ℕ
count_in s [] = 0
count_in s ((t, n) ∷ r) = if text_eq (suffix t) (suffix s) then n else count_in s r

-- `QueueSummary::count`
unfoldable count_of : State → QueueSummary → ℕ
count_of s q = count_in s q.counts
