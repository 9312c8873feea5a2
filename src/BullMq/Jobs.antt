-- ===== src/BullMq/Jobs.antt =====
-- crates/lenses/keylens-bullmq/src/lens.rs: the jobs in a state, and the logs of a job.
pub mod Ranges
use keylens.Base.{
  ℕ, zero, suc, ◌+◌, ◌-◌, ◌*◌, ◌^◌, Bool, true, false, List, [], ◌∷◌, ◌++◌, Option, none, some,
  if◌then◌else◌, length, take, drop, ltb, leb, map, compare, Ordering, ◌==◌,
}
use keylens.Base.Text.{Text, codes, text_eq, is_empty, compare_text}
use keylens.Base.Decimal.{to_string}
use keylens.Base.Find.{strip_prefix}
use keylens.Lens.{Detection, Confidence, weak, likely, certain}
use keylens.Conn.Value.{
  Value, array, Values, nil, cons, to_list, text, number, Client, chunks, filter_map, keep_some,
}
use keylens.Conn.Error.{ConnError, Result, ok, err}
use keylens.Conn.Capability.{has, scan_type_filter}
use keylens.Conn.Program.{Command, Program, done, fail, of_result, ◌>>=◌}
use keylens.Conn.Command.{Conn, cmd, pipeline, reply_at}
use keylens.Conn.Scan.{Scanned, next_page}
use keylens.BullMq.Keys.{
  State, all_states, is_list_backed, count_cmd, QueueKeys, meta_key, state_key, job_key,
  job_logs_key, queue_name_from_meta_key, is_paused, parse_meta_version,
}
use keylens.BullMq.Job.{Job, JobRef, QueueSummary}

-- `page_range`. The numbers are of type `usize`, and the bounds of type `i64`.
unfoldable pub page_range : ℕ → ℕ → Option (ℕ × ℕ)
page_range offset limit =
    if limit == 0
    then none
    else if ltb (2 ^ 63 - 1) offset
    then none
    else if ltb (2 ^ 63 - 1) limit
    then none
    else if ltb (2 ^ 63 - 1) (offset + (limit - 1))
    then none
    else some (offset, offset + (limit - 1))

module _ (client : Client) where
  open client use {as_string, as_f64}

  abbrev pub job_ref : Option Text → Option ℕ → Option JobRef
  job_ref none score = none
  job_ref (some id) score = some (record { id = id; score = score })

  abbrev pub listed : Value → Option JobRef
  listed v = job_ref (as_string v) none

  abbrev pub scored : Value × Value → Option JobRef
  scored (id, score) = job_ref (as_string id) (as_f64 score)

  abbrev pub job_refs : Bool → Value → List JobRef
  job_refs true (array items) = filter_map listed (to_list items)
  job_refs false (array items) = filter_map scored (chunks (to_list items))
  job_refs is_list _ = []

  -- The command of `jobs`.
  unfoldable pub jobs_cmd : Text → State → ℕ × ℕ → Command
  jobs_cmd key s (start, stop) =
      if is_list_backed s then (codes "LRANGE", text key ∷ number start ∷ number stop ∷ []) else (
        codes "ZREVRANGE",
        text key ∷ number start ∷ number stop ∷ text (codes "WITHSCORES") ∷ [],
      )

  abbrev pub send_jobs : State → Command → Program (List JobRef)
  send_jobs s (name, args) =
      cmd client name args >>= λ reply. done (job_refs (is_list_backed s) reply)

  abbrev pub jobs_in : QueueKeys → State → Option (ℕ × ℕ) → Program (List JobRef)
  jobs_in keys s none = done []
  jobs_in keys s (some range) = send_jobs s (jobs_cmd (state_key keys s) s range)

  -- `BullMqLens::jobs`
  unfoldable pub jobs : Text → Text → State → ℕ → ℕ → Program (List JobRef)
  unfolding cmd page_range jobs_cmd
  jobs prefix queue s offset limit =
      jobs_in (record { prefix = prefix; name = queue }) s (page_range offset limit)

  abbrev pub log_lines : Value → List Text
  log_lines (array items) = filter_map as_string (to_list items)
  log_lines _ = []

  abbrev pub logs_in : QueueKeys → Text → Option (ℕ × ℕ) → Program (List Text)
  logs_in keys id none = done []
  logs_in keys id (some (start, stop)) =
      cmd client (codes "LRANGE") (text (job_logs_key keys id) ∷ number start ∷ number stop ∷ [])
      >>= λ reply. done (log_lines reply)

  -- `BullMqLens::job_logs`
  unfoldable pub job_logs : Text → Text → Text → ℕ → Program (List Text)
  unfolding cmd page_range
  job_logs prefix queue id limit =
      logs_in (record { prefix = prefix; name = queue }) id (page_range 0 limit)
