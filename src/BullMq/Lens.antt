-- ===== src/BullMq/Lens.antt =====
-- crates/lenses/keylens-bullmq/src/lens.rs: the queues of a BullMQ installation.
pub mod Slots
use keylens.Base.{
  ℕ, zero, suc, ◌+◌, ◌-◌, ◌*◌, ◌^◌, Bool, true, false, List, [], ◌∷◌, ◌++◌, Option, none, some,
  if◌then◌else◌, length, take, drop, ltb, leb, map, compare, Ordering, ◌==◌,
}
use keylens.Base.Text.{Text, codes, text_eq, is_empty, compare_text}
use keylens.Base.Decimal.{to_string}
use keylens.Base.Find.{strip_prefix}
use keylens.Lens.{Detection, Confidence, weak, likely, certain}
use keylens.Conn.Value.{
  Value, array, Values, nil, cons, to_list, text, number, Client, chunks, filter_map, keep_some,
}
use keylens.Conn.Error.{ConnError, Result, ok, err}
use keylens.Conn.Capability.{has, scan_type_filter}
use keylens.Conn.Program.{Command, Program, done, fail, of_result, ◌>>=◌}
use keylens.Conn.Command.{Conn, cmd, pipeline, reply_at}
use keylens.Conn.Scan.{Scanned, next_page}
use keylens.BullMq.Keys.{
  State, all_states, is_list_backed, count_cmd, QueueKeys, meta_key, state_key, job_key,
  job_logs_key, queue_name_from_meta_key, is_paused, parse_meta_version,
}
use keylens.BullMq.Job.{Job, JobRef, QueueSummary}

-- `MAX_DETECT_PAGES`, `SCAN_COUNT` and `MAX_QUEUES`
abbrev max_detect_pages : ℕ
max_detect_pages = 40

abbrev scan_count : ℕ
scan_count = 4000

abbrev max_queues : ℕ
max_queues = 500

-- The names in a page of keys.
unfoldable pub names_in : Text → List Text → List Text
unfolding queue_name_from_meta_key
names_in prefix keys = filter_map (queue_name_from_meta_key prefix) keys

-- What follows one page of the scan.
abbrev on_page :
    Result (Option (List Text))
    → Text
    → List Text
    → (List Text → Result (List Text))
    → Result (List Text)
on_page (err e) prefix names later = err e
on_page (ok none) prefix names later = ok names
on_page (ok (some keys)) prefix names later =
    let names' = names ++ names_in prefix keys in
    if leb max_queues (length names') then ok names' else later names'

-- The loop of `scan_meta_keys` over what the scanner yields, for `pages` pages at most.
unfoldable pub gather_names : ℕ → Text → List Scanned → List Text → Result (List Text)
unfolding names_in next_page
gather_names zero prefix scan names = ok names
gather_names (suc pages) prefix scan names =
    let (page, rest) = next_page scan in
    on_page page prefix names (λ names'. gather_names pages prefix rest names')

unfoldable pub insert_text : Text → List Text → List Text
unfolding compare_text
insert_text t [] = t ∷ []
insert_text t (u ∷ us) = elim (compare_text t u) [
  | Ordering.gt ↦ u ∷ insert_text t us
  | _ ↦ t ∷ u ∷ us
]

-- `sort` and `dedup` on a list of texts.
unfoldable pub sort : List Text → List Text
unfolding insert_text
sort [] = []
sort (t ∷ ts) = insert_text t (sort ts)

unfoldable pub dedup : List Text → List Text
dedup [] = []
dedup (t ∷ []) = t ∷ []
dedup (t ∷ u ∷ us) = let rest = dedup (u ∷ us) in if text_eq t u then rest else t ∷ rest

abbrev tidied : Result (List Text) → Result (List Text)
unfolding sort dedup
tidied (ok names) = ok (take max_queues (dedup (sort names)))
tidied (err e) = err e

-- `scan_meta_keys`, on what the scanner yields for the pattern `<prefix>:*:meta`.
unfoldable pub scan_meta_keys : Text → List Scanned → Result (List Text)
unfolding gather_names sort dedup
scan_meta_keys prefix scan = tidied (gather_names max_detect_pages prefix scan [])

-- The command that reads the version and the pause of a queue.
abbrev pub meta_cmd : QueueKeys → Command
meta_cmd keys =
    (codes "HMGET", text (meta_key keys) ∷ text (codes "version") ∷ text (codes "paused") ∷ [])

abbrev pub count_of_cmd : QueueKeys → State → Command
count_of_cmd keys s = (count_cmd s, text (state_key keys s) ∷ [])

-- The commands of `summaries` for one queue: `PER_QUEUE` of them.
unfoldable pub queue_cmds : QueueKeys → List Command
queue_cmds keys = meta_cmd keys ∷ map (count_of_cmd keys) all_states

abbrev pub per_queue : ℕ
per_queue = 1 + length all_states

unfoldable pub summary_cmds : Text → List Text → List Command
unfolding queue_cmds
summary_cmds prefix [] = []
summary_cmds prefix (name ∷ names) =
    queue_cmds (record { prefix = prefix; name = name }) ++ summary_cmds prefix names

abbrev pub or_zero : Option ℕ → ℕ
or_zero none = 0
or_zero (some n) = n

abbrev pub and_then {ℓ κ} : {A : Type ℓ} {B : Type κ} → Option A → (A → Option B) → Option B
and_then none f = none
and_then (some a) f = f a

abbrev pub second : Values → Option Value
second (cons v (cons w r)) = some w
second _ = none

abbrev pub first_value : Values → Option Value
first_value (cons v r) = some v
first_value nil = none

-- `QueueSummary::total`
abbrev counts_total : List (State × ℕ) → ℕ
counts_total [] = 0
counts_total ((s, n) ∷ r) = n + counts_total r

unfoldable pub total : QueueSummary → ℕ
total q = counts_total q.counts

module _ (client : Client) where
  open client use {as_string, as_u64}

  -- Whether a reply to `HMGET` says that the queue is paused.
  abbrev pub paused_in : Option Value → Bool
  paused_in (some (array fields)) = is_paused (and_then (second fields) as_string)
  paused_in _ = false

  -- The counts of a queue whose first count is in the slot `i`.
  unfoldable pub counts_from : List (Result Value) → ℕ → List State → List (State × ℕ)
  counts_from replies i [] = []
  counts_from replies i (s ∷ ss) =
      (s, or_zero (and_then (reply_at replies i) as_u64)) ∷ counts_from replies (i + 1) ss

  abbrev pub summary_at : List (Result Value) → ℕ → Text → QueueSummary
  summary_at replies i name =
      let base = i * per_queue in
      record {
        name = name;
        paused = paused_in (reply_at replies base);
        counts = counts_from replies (base + 1) all_states;
      }

  unfoldable pub summaries_from : List (Result Value) → ℕ → List Text → List QueueSummary
  unfolding is_paused counts_from
  summaries_from replies i [] = []
  summaries_from replies i (name ∷ names) =
      summary_at replies i name ∷ summaries_from replies (i + 1) names

  -- `summaries`
  unfoldable pub summaries : Conn → Text → List Text → Program (List QueueSummary)
  unfolding pipeline summary_cmds summaries_from
  summaries conn prefix [] = done []
  summaries conn prefix (name ∷ names) =
      pipeline client conn (summary_cmds prefix (name ∷ names)) >>= λ replies.
      done (summaries_from replies 0 (name ∷ names))

  -- `all_queues`, on what the scanner yields.
  unfoldable pub all_queues : Conn → Text → List Scanned → Program (List QueueSummary)
  unfolding scan_meta_keys summaries
  all_queues conn prefix scan = of_result (scan_meta_keys prefix scan) >>= summaries conn prefix

  abbrev meta_of : Value → Option Text × Bool
  unfolding is_paused
  meta_of (array fields) =
      (and_then (first_value fields) as_string, is_paused (and_then (second fields) as_string))
  meta_of _ = (none, false)

  -- `read_meta`
  unfoldable pub read_meta : Text → Text → Program (Option Text × Bool)
  unfolding cmd is_paused
  read_meta prefix name =
      let keys : QueueKeys = record { prefix = prefix; name = name } in
      cmd client (codes "HMGET")
        (text (meta_key keys) ∷ text (codes "version") ∷ text (codes "paused") ∷ [])
      >>= λ reply. done (meta_of reply)
