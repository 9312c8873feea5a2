-- ===== src/BullMq/Jobs/Ranges.antt =====
-- The ranges that the lens asks for.
use keylens.Base.{
  ℕ, ◌+◌, ◌-◌, ◌^◌, ◌≤◌, ◌<◌, ◌≡◌, refl, ◌⊎◌, true, false, List, [], ◌∷◌, Option, none, some, arith,
}
use keylens.Base.Text.{Text, codes}
use keylens.Conn.Value.{Value, text, number, Client}
use keylens.Conn.Program.{Program, done, ◌>>=◌, Sends, Sends-bind}
use keylens.Conn.Command.{one_of, cmd, read_only_command}
use keylens.Conn.Command.Allowed.{NotRefused, cmd-Sends}
use keylens.Conn.Bounds.{ranges, BoundedRead, range_read}
use keylens.BullMq.Keys.{State, waiting, active, QueueKeys, state_key, job_logs_key}
use keylens.BullMq.Jobs.{
  page_range, jobs, jobs_cmd, jobs_in, send_jobs, job_refs, job_logs, logs_in, log_lines,
}

-- A page is refused exactly when it is empty, its limit is no `i64`, or its last element is past the
-- greatest `i64`; else it has `limit` elements from `offset` on, and both bounds are an `i64`.
pub page_range_lem :
    (offset limit : ℕ)
    → (page_range offset limit ≡ none)
        × ((limit ≡ 0) ⊎ ((2 ^ 63 ≤ limit) ⊎ (2 ^ 63 < offset + limit)))
      ⊎ (page_range offset limit ≡ some (offset, offset + (limit - 1)))
        × (0 < limit)
        × (offset + (limit - 1) < 2 ^ 63)
unfolding page_range
page_range_lem offset limit = ground arith

-- The page of a range that is there.
page_range-some :
    (offset limit start stop : ℕ)
    → page_range offset limit ≡ some (start, stop)
    → (start ≤ stop) × (stop < start + limit) × (stop < 2 ^ 63)
unfolding page_range
page_range-some offset limit start stop h = ground arith

module _ (client : Client) (prefix queue : Text) where
  abbrev queue_of : QueueKeys
  queue_of = record { prefix = prefix; name = queue }

  module _ (offset limit : ℕ) where
    abbrev pub IsBounded : {A : Type 0} → Program A → Type 0
    IsBounded m = Sends (BoundedRead limit) NotRefused m

    sent :
        {A : Type 0} (name : Text) (args : List Value) (f : Value → A)
        → read_only_command client name args ≡ true
        → BoundedRead limit (name, args)
        → IsBounded (cmd client name args >>= λ v. done (f v))
    sent name args f a b =
        Sends-bind (BoundedRead limit) NotRefused (cmd client name args) (λ v. done (f v))
          (cmd-Sends client (BoundedRead limit) name args a b) (λ v. tt)

    -- The two commands that list jobs, in a page that is there.
    module _ (key : Text) (start stop : ℕ) (h : page_range offset limit ≡ some (start, stop)) where
      ranged :
          (name : Text) (rest : List Value)
          → one_of name ranges ≡ true
          → BoundedRead limit (name, text key ∷ number start ∷ number stop ∷ rest)
      ranged name rest r =
          let (a, b, c) = page_range-some offset limit start stop h in
          range_read name key start stop rest r a b c

      send_jobs-IsBounded :
          (s : State) → IsBounded (send_jobs client s (jobs_cmd client key s (start, stop)))
      unfolding jobs_cmd read_only_command
      send_jobs-IsBounded waiting =
          sent (codes "LRANGE") _ (job_refs client true) refl (ranged (codes "LRANGE") [] refl)
      send_jobs-IsBounded active =
          sent (codes "LRANGE") _ (job_refs client true) refl (ranged (codes "LRANGE") [] refl)
      send_jobs-IsBounded s =
          sent (codes "ZREVRANGE") _ (job_refs client false) refl
            (ranged (codes "ZREVRANGE") (text (codes "WITHSCORES") ∷ []) refl)

      send_logs-IsBounded : IsBounded (
          cmd client (codes "LRANGE") (text key ∷ number start ∷ number stop ∷ []) >>= λ v.
          done (log_lines client v))
      unfolding read_only_command
      send_logs-IsBounded =
          sent (codes "LRANGE") _ (log_lines client) refl (ranged (codes "LRANGE") [] refl)

    jobs_in-IsBounded :
        (s : State) (range : Option (ℕ × ℕ))
        → page_range offset limit ≡ range
        → IsBounded (jobs_in client queue_of s range)
    jobs_in-IsBounded s none h = tt
    jobs_in-IsBounded s (some (start, stop)) h =
        send_jobs-IsBounded (state_key queue_of s) start stop h s

  logs_in-IsBounded :
      (id : Text) (limit : ℕ) (range : Option (ℕ × ℕ))
      → page_range 0 limit ≡ range
      → IsBounded 0 limit (logs_in client queue_of id range)
  logs_in-IsBounded id limit none h = tt
  logs_in-IsBounded id limit (some (start, stop)) h =
      send_logs-IsBounded 0 limit (job_logs_key queue_of id) start stop h

  -- For every offset and limit, whatever the server answers, `jobs` and `job_logs` send bounded reads
  -- only, of at most `limit` elements, and the allowlist refuses none of them.
  pub lists_are_bounded :
      (s : State) (id : Text) (offset limit : ℕ)
      → IsBounded offset limit (jobs client prefix queue s offset limit)
        × IsBounded offset limit (job_logs client prefix queue id limit)
  unfolding jobs job_logs
  lists_are_bounded s id offset limit = (
    jobs_in-IsBounded offset limit s (page_range offset limit) refl,
    logs_in-IsBounded id limit (page_range 0 limit) refl,
  )
