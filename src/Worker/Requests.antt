-- ===== src/Worker/Requests.antt =====
-- crates/keylens/src/worker.rs: what the worker does with each request. A scanner that a request
-- makes is what the client will yield for it, `fresh`; the reads on tasks of their own are named
-- here, and are run by `detail` and `refresh`.
use keylens.Base.{ℕ, Bool, true, false, not, List, [], ◌∷◌, Option, none, some, if◌then◌else◌}
use keylens.Base.Text.{Text, codes}
use keylens.Base.Lines.{to_lowercase}
use keylens.Ui.Pane.{PaneState, ready_with, unavailable, failed_with}
use keylens.Lens.{Detection}
use keylens.App.{
  Request, rescan_request, more, select, refresh_info, load_slowlog, load_clients, load_cluster,
  load_pub_sub, detect, load_queues, load_jobs_request, load_job_request, JobDetail, Update, batch,
  detail_update, error_update, slowlog_update, clients_update, cluster_update, pub_sub_update,
  detected, queues_update, jobs_update, job_update,
}
use keylens.Conn.Kind.{Kind, stream, kind_eq}
use keylens.Conn.Reply.{KeyMeta, KeyValue, StreamInfo, ClusterTopology}
use keylens.Conn.Value.{Client}
use keylens.Conn.Error.{ConnError, Result, ok, err, contains}
use keylens.Conn.Capability.{
  Availability, denied, is_available, reason, get_feature, has, slowlog, client_list, cluster,
  pub_sub, server_info,
}
use keylens.Conn.Program.{Program, done, attempt, ◌>>=◌}
use keylens.Conn.Command.{Conn}
use keylens.Conn.Scan.{Scanned}
use keylens.Conn.Read.{read_key}
use keylens.Conn.Server.{read_slowlog, read_clients, read_topology, read_channels}
use keylens.Conn.Listings.{no_topology}
use keylens.Conn.Stream.{stream_info}
use keylens.BullMq.Fields.{Json, job}
use keylens.BullMq.Job.{Job}
use keylens.BullMq.Lens.{all_queues}
use keylens.BullMq.Jobs.{jobs, job_logs}
use keylens.BullMq.Detect as Detector
use keylens.Worker.{Worker, Gathered, gathered, broken, gather, max_pages_per_batch, type_keys}

-- `SLOWLOG_ENTRIES`, `PUBSUB_CHANNELS`, `JOB_PAGE` and `JOB_LOG_LINES`
abbrev pub slowlog_entries : ℕ
slowlog_entries = 128

abbrev pub pubsub_channels : ℕ
pubsub_channels = 200

abbrev pub job_page : ℕ
job_page = 200

abbrev pub job_log_lines : ℕ
job_log_lines = 200

-- The tasks that the worker spawns.
pub data Task : Type 0 where
  detail_of : Text → Task
  refresh_stats : Task

-- What the handling of a request comes to: the worker, the update to send, the task spawned and the
-- task that was running and is aborted.
pub record Handled : Type 0 where
  pub worker : Worker
  pub update : Option Update
  pub spawned : Option Task
  pub aborted : Option ℕ

-- `Display` of the errors, which a macro writes.
module _ (client : Client) (json : Json) (show_error : ConnError → Text) where
  abbrev pub pane_of : {T : Type 0} → Result T → PaneState T
  pane_of (ok v) = ready_with v
  pane_of (err e) = failed_with (show_error e)

  abbrev pub or_blocked : Option Text → Text
  or_blocked none = codes "blocked by this server"
  or_blocked (some why) = why

  -- `Worker::pane`
  unfoldable pub pane : {T : Type 0} → Availability → Program T → Program (PaneState T)
  pane a load =
      if is_available a
      then (attempt load >>= λ r. done (pane_of r))
      else done (unavailable (or_blocked (reason a)))

  abbrev pub is_standalone : Availability → Bool
  is_standalone (denied why) = contains (to_lowercase why) (codes "cluster support disabled")
  is_standalone _ = false

  -- `Worker::cluster`
  unfoldable pub cluster_pane : Conn → Program (PaneState ClusterTopology)
  unfolding contains to_lowercase pane get_feature read_topology
  cluster_pane conn =
      let a = get_feature conn.capabilities cluster in
      if is_standalone a then done (ready_with no_topology) else pane a (read_topology client conn)

  abbrev pub lines_or_none : Result (List Text) → List Text
  lines_or_none (ok ls) = ls
  lines_or_none (err e) = []

  abbrev pub with_logs :
      Text → Text → Text → Result (Option Job) → Program (PaneState (Option JobDetail))
  with_logs prefix queue id (err e) = done (failed_with (show_error e))
  with_logs prefix queue id (ok none) = done (ready_with none)
  with_logs prefix queue id (ok (some j)) =
      attempt (job_logs client prefix queue id job_log_lines) >>= λ logs.
      done (ready_with (some (record { job = j; logs = lines_or_none logs })))

  -- `Worker::job`
  unfoldable pub job_pane : Worker → Text → Text → Program (PaneState (Option JobDetail))
  unfolding job job_logs
  job_pane w queue id =
      attempt (job json client w.prefix queue id) >>= λ r. with_logs w.prefix queue id r

  abbrev pub kept_info : Result StreamInfo → Option StreamInfo
  kept_info (ok i) = some i
  kept_info (err e) = none

  abbrev pub detail_for : Conn → Text → Result (KeyMeta × KeyValue) → Program Update
  detail_for conn key (err e) = done (error_update (show_error e))
  detail_for conn key (ok (meta, value)) =
      if kind_eq meta.kind stream
      then (attempt (stream_info client conn key) >>= λ i.
          done (detail_update meta value (kept_info i)))
      else done (detail_update meta value none)

  -- `detail`
  unfoldable pub detail : Conn → Text → Program Update
  unfolding read_key stream_info
  detail conn key = attempt (read_key client conn key) >>= λ r. detail_for conn key r

  abbrev pub sends : Worker → Update → Handled
  sends w u = record { worker = w; update = some u; spawned = none; aborted = none }

  abbrev pub silent : Worker → Handled
  silent w = record { worker = w; update = none; spawned = none; aborted = none }

  abbrev pub batch_of : Conn → Bool → Gathered × Worker → Program Handled
  batch_of conn reset (broken e, w) = done (sends w (error_update (show_error e)))
  batch_of conn reset (gathered keys pages, w) = type_keys client conn w keys >>= λ typed.
      done (sends w (batch typed reset w.is_complete pages))

  -- `scan_batch`
  unfoldable pub scan_batch : Conn → Worker → Bool → Program Handled
  unfolding gather type_keys
  scan_batch conn w reset = batch_of conn reset (gather max_pages_per_batch w [] 0)

  -- The worker that starts over.
  abbrev pub restarted : Option Text → Option Kind → List Scanned → Worker → Worker
  restarted pattern kind fresh w = record w {
    pattern = pattern;
    kind = kind;
    is_complete = false;
    scanner = some fresh;
  }

  -- `spawn_detail`; the new task's number is `task`.
  abbrev pub spawn_detail : Text → ℕ → Worker → Handled
  spawn_detail key task w = record {
    worker = record w { detail_task = some task };
    update = none;
    spawned = some (detail_of key);
    aborted = w.detail_task;
  }

  abbrev pub is_running : (ℕ → Bool) → Option ℕ → Bool
  is_running is_finished none = false
  is_running is_finished (some t) = not (is_finished t)

  abbrev pub started : ℕ → Worker → Handled
  started task w = record {
    worker = record w { info_task = some task };
    update = none;
    spawned = some refresh_stats;
    aborted = none;
  }

  -- `spawn_info`
  abbrev pub spawn_info : (ℕ → Bool) → ℕ → Worker → Handled
  spawn_info is_finished task w =
      if is_running is_finished w.info_task then silent w else started task w

  abbrev pub adopted : Worker → Result (Option Detection) → Handled
  adopted w (ok (some d)) = sends (record w { prefix = d.prefix }) (detected (d ∷ []))
  adopted w (ok none) = sends w (detected [])
  adopted w (err e) = sends w (detected [])

  -- One turn of `run`: `is_finished` tells which tasks have ended, and `task` numbers a new one.
  unfoldable pub handle : Conn → (ℕ → Bool) → ℕ → List Scanned → Request → Worker → Program Handled
  unfolding scan_batch pane cluster_pane job_pane get_feature has
  handle conn is_finished task fresh (rescan_request pattern kind) w =
      scan_batch conn (restarted pattern kind fresh w) true
  handle conn is_finished task fresh more w = scan_batch conn w false
  handle conn is_finished task fresh (select key) w = done (spawn_detail key task w)
  handle conn is_finished task fresh refresh_info w =
      done (if has conn.capabilities server_info then spawn_info is_finished task w else silent w)
  handle conn is_finished task fresh load_slowlog w =
      pane (get_feature conn.capabilities slowlog) (read_slowlog client conn slowlog_entries)
      >>= λ p. done (sends w (slowlog_update p))
  handle conn is_finished task fresh load_clients w =
      pane (get_feature conn.capabilities client_list) (read_clients client conn) >>= λ p.
      done (sends w (clients_update p))
  handle conn is_finished task fresh load_cluster w =
      cluster_pane conn >>= λ p. done (sends w (cluster_update p))
  handle conn is_finished task fresh load_pub_sub w =
      pane (get_feature conn.capabilities pub_sub) (read_channels client conn pubsub_channels)
      >>= λ p. done (sends w (pub_sub_update p))
  handle conn is_finished task fresh detect w =
      attempt (Detector.detect client w.prefix fresh) >>= λ d. done (adopted w d)
  handle conn is_finished task fresh load_queues w =
      attempt (all_queues client conn w.prefix fresh) >>= λ q.
      done (sends w (queues_update (pane_of q)))
  handle conn is_finished task fresh (load_jobs_request queue s) w =
      attempt (jobs client w.prefix queue s 0 job_page) >>= λ j.
      done (sends w (jobs_update s (pane_of j)))
  handle conn is_finished task fresh (load_job_request queue id) w =
      job_pane w queue id >>= λ p. done (sends w (job_update p))
