-- ===== src/App/Load.antt =====
-- `App::goto`, `load_view`, `load_jobs` and `load_job` of crates/keylens/src/app.rs.
use keylens.Base.{Bool, true, false, ◌||◌, Option, none, some, if◌then◌else◌}
use keylens.BullMq.Job.{JobRef, QueueSummary}
use keylens.Ui.Pane.{PaneState, is_idle, loading}
use keylens.App.{
  App, Channel, View, keys, queues, stats, slowlog, clients, cluster, pub_sub, QueueLevel,
  at_queues, at_jobs, at_job, worker_busy, Request, refresh_info, load_slowlog, load_clients,
  load_cluster, load_pub_sub, load_queues, load_jobs_request, load_job_request,
}
use keylens.App.Ops.{send, rescan, selected_queue, selected_job, same_view}

module _ {C : Type 0} (ch : Channel C) where
  -- `if self.send(r).await { PaneState::Loading } else { worker_busy() }`, and where it is stored.
  abbrev pub stored : {T : Type 0} → Bool × App C → (PaneState T → App C → App C) → App C
  stored (true, b) store = store loading b
  stored (false, b) store = store worker_busy b

  abbrev pub request_pane : {T : Type 0} → Request → (PaneState T → App C → App C) → App C → App C
  request_pane r store a = stored (send ch r a) store

  abbrev pub load_jobs_of : Option QueueSummary → App C → App C
  load_jobs_of none a = a
  load_jobs_of (some q) a =
      request_pane (load_jobs_request q.name a.job_state) (λ p b. record b { jobs_pane = p }) a

  -- `App::load_jobs`
  unfoldable pub load_jobs : App C → App C
  unfolding send selected_queue
  load_jobs a = load_jobs_of (selected_queue a) a

  abbrev pub load_job_of : Option QueueSummary → Option JobRef → App C → App C
  load_job_of (some q) (some j) a =
      request_pane (load_job_request q.name j.id) (λ p b. record b { job_pane = p }) a
  load_job_of _ _ a = a

  -- `App::load_job`
  unfoldable pub load_job : App C → App C
  unfolding send selected_queue selected_job
  load_job a = load_job_of (selected_queue a) (selected_job a) a

  -- The `match self.level` of `load_view`.
  abbrev pub load_level : QueueLevel → Bool → App C → App C
  load_level at_queues force a =
      if force || is_idle a.queues_pane
      then request_pane load_queues (λ p b. record b { queues_pane = p }) a
      else a
  load_level at_jobs force a = load_jobs a
  load_level at_job force a = load_job a

  -- The `match self.view` of `load_view`.
  abbrev pub load_tab : View → Bool → App C → App C
  load_tab keys force a = if force then rescan ch a else a
  load_tab stats force a = (send ch refresh_info a).1
  load_tab slowlog force a =
      if force || is_idle a.slowlog_pane
      then request_pane load_slowlog (λ p b. record b { slowlog_pane = p }) a
      else a
  load_tab clients force a =
      if force || is_idle a.clients_pane
      then request_pane load_clients (λ p b. record b { clients_pane = p }) a
      else a
  load_tab cluster force a =
      if force || is_idle a.cluster_pane
      then request_pane load_cluster (λ p b. record b { cluster_pane = p }) a
      else a
  load_tab pub_sub force a =
      if force || is_idle a.pub_sub_pane
      then request_pane load_pub_sub (λ p b. record b { pub_sub_pane = p }) a
      else a
  load_tab queues force a = load_level a.level force a

  -- `App::load_view`
  unfoldable pub load_view : Bool → App C → App C
  unfolding send rescan load_jobs load_job
  load_view force a = load_tab a.view force a

  -- `App::goto`
  unfoldable pub goto : View → App C → App C
  unfolding load_view
  goto v a =
      if same_view a.view v then a else load_view false (record a { view = v; pane_scroll = 0 })
