-- ===== src/App/Invariant/Tabs.antt =====
-- The tabs and the queue view keep the invariant of the state.
use keylens.Base.{
  ℕ, ◌≤◌, ◌≡◌, refl, Bool, true, false, ◌||◌, List, [], ◌∷◌, Option, none, some, arith, length,
  is_some,
}
use keylens.Base.Int.{ℤ, pos, ◌+ℤ◌, to_ℕ}
use keylens.BullMq.Keys.{State}
use keylens.BullMq.Job.{JobRef, QueueSummary}
use keylens.Ui.Pane.{PaneState, ready, is_idle, loading}
use keylens.App.{
  App, Channel, View, keys, queues, stats, slowlog, clients, cluster, pub_sub, QueueLevel,
  at_queues, at_jobs, at_job, Request, refresh_info, load_slowlog, load_clients, load_cluster,
  load_pub_sub, load_queues, load_jobs_request, load_job_request, worker_busy,
}
use keylens.App.Ops.{send, selected_queue, selected_job, same_view}
use keylens.App.Load.{
  stored, request_pane, load_jobs, load_jobs_of, load_job, load_job_of, load_level, load_tab,
  load_view, goto,
}
use keylens.App.Input.{KeyCode, clamp_ℤ, isize_min, isize_max, step_saturating, step_cursor}
use keylens.App.Queues.{
  QueuesArm, move_by, previous_state, next_state, go_in, go_out, ignored, moved, length_or_zero,
  move_queue_cursor, move_at, go_out_of, list_state_at, go_into, run_queues_arm, handle_queues_key,
  queues_arm, next_of, previous_of,
}
use keylens.App.Invariant.{InRange, IsValid, if_both, send-IsValid, rescan-IsValid}

clamp_bound : (last : ℕ) (a : ℤ) → to_ℕ (clamp_ℤ (pos 0) (pos last) a) ≤ last
unfolding clamp_ℤ
clamp_bound last a = ground arith

pub step_cursor_bound : (last cursor : ℕ) (delta : ℤ) → step_cursor last cursor delta ≤ last
unfolding step_cursor
step_cursor_bound last cursor delta = clamp_bound last (pos cursor +ℤ delta)

step_saturating_bound : (last cursor : ℕ) (delta : ℤ) → step_saturating last cursor delta ≤ last
unfolding step_saturating
step_saturating_bound last cursor delta =
    clamp_bound last (clamp_ℤ isize_min isize_max (pos cursor +ℤ delta))

moved-InRange :
    {A : Type 0} (o : Option (List A)) (cursor : ℕ) (delta : ℤ)
    → InRange o cursor
    → InRange o (moved (length_or_zero o) cursor delta)
moved-InRange none cursor delta h = tt
moved-InRange (some []) cursor delta h = h
moved-InRange (some (x ∷ list)) cursor delta h =
    omega (arith, step_saturating_bound (length list) cursor delta)

-- A cursor at 0 is within any list.
first-InRange : {A : Type 0} (o : Option (List A)) → InRange o 0
first-InRange none = tt
first-InRange (some list) = omega arith

module _ {C : Type 0} where
  move_at-IsValid :
      (l : QueueLevel) (delta : ℤ) (a : App C) → IsValid a → IsValid (move_at l delta a)
  move_at-IsValid at_queues delta a (r, s, q, j) =
      (r, s, moved-InRange (ready a.queues_pane) a.queue_selected delta q, j)
  move_at-IsValid at_jobs delta a (r, s, q, j) =
      (r, s, q, moved-InRange (ready a.jobs_pane) a.job_selected delta j)
  move_at-IsValid at_job delta a v = v

  go_out_of-IsValid : (l : QueueLevel) (a : App C) → IsValid a → IsValid (go_out_of l a)
  go_out_of-IsValid at_queues a v = v
  go_out_of-IsValid at_jobs a v = v
  go_out_of-IsValid at_job a v = v

  from_first :
      (a : App C) (s : State) (l : QueueLevel)
      → IsValid a
      → IsValid (record a { job_state = s; job_selected = 0; level = l })
  from_first a s l (r, i, q, j) = (r, i, q, first-InRange (ready a.jobs_pane))

  module _ (ch : Channel C) where
    -- The answer of the channel is stored where the invariant holds whatever it is.
    stored-IsValid :
        {T : Type 0} (o : Bool × App C) (store : PaneState T → App C → App C)
        → IsValid o.1
        → ((p : PaneState T) → ready p ≡ none → (b : App C) → IsValid b → IsValid (store p b))
        → IsValid (stored ch o store)
    stored-IsValid (true, b) store v h = h loading refl b v
    stored-IsValid (false, b) store v h = h worker_busy refl b v

    request_pane-IsValid :
        {T : Type 0} (r : Request) (store : PaneState T → App C → App C) (a : App C)
        → IsValid a
        → ((p : PaneState T) → ready p ≡ none → (b : App C) → IsValid b → IsValid (store p b))
        → IsValid (request_pane ch r store a)
    request_pane-IsValid r store a v h =
        stored-IsValid (send ch r a) store (send-IsValid ch r a v) h

    load_jobs_of-IsValid :
        (o : Option QueueSummary) (a : App C) → IsValid a → IsValid (load_jobs_of ch o a)
    load_jobs_of-IsValid none a v = v
    load_jobs_of-IsValid (some q) a v =
        request_pane-IsValid (load_jobs_request q.name a.job_state)
          (λ p b. record b { jobs_pane = p }) a v (λ p e b (r, i, q, j). (r, i, q, rw e tt))

    load_jobs-IsValid : (a : App C) → IsValid a → IsValid (load_jobs ch a)
    unfolding load_jobs
    load_jobs-IsValid a v = load_jobs_of-IsValid (selected_queue a) a v

    load_job_of-IsValid :
        (o : Option QueueSummary) (p : Option JobRef) (a : App C)
        → IsValid a
        → IsValid (load_job_of ch o p a)
    load_job_of-IsValid none p a v = v
    load_job_of-IsValid (some q) none a v = v
    load_job_of-IsValid (some q) (some j) a v =
        request_pane-IsValid (load_job_request q.name j.id) (λ p b. record b { job_pane = p }) a v
          (λ p e b w. w)

    load_job-IsValid : (a : App C) → IsValid a → IsValid (load_job ch a)
    unfolding load_job
    load_job-IsValid a v = load_job_of-IsValid (selected_queue a) (selected_job a) a v

    load_level-IsValid :
        (l : QueueLevel) (force : Bool) (a : App C) → IsValid a → IsValid (load_level ch l force a)
    load_level-IsValid at_queues force a v =
        if_both IsValid (force || is_idle a.queues_pane)
          (request_pane-IsValid load_queues (λ p b. record b { queues_pane = p }) a v
            (λ p e b (r, i, q, j). (r, i, rw e tt, j)))
          v
    load_level-IsValid at_jobs force a v = load_jobs-IsValid a v
    load_level-IsValid at_job force a v = load_job-IsValid a v

    load_tab-IsValid :
        (w : View) (force : Bool) (a : App C) → IsValid a → IsValid (load_tab ch w force a)
    load_tab-IsValid keys force a v = if_both IsValid force (rescan-IsValid ch a v) v
    load_tab-IsValid stats force a v = send-IsValid ch refresh_info a v
    load_tab-IsValid slowlog force a v =
        if_both IsValid (force || is_idle a.slowlog_pane)
          (request_pane-IsValid load_slowlog (λ p b. record b { slowlog_pane = p }) a v
            (λ p e b w. w))
          v
    load_tab-IsValid clients force a v =
        if_both IsValid (force || is_idle a.clients_pane)
          (request_pane-IsValid load_clients (λ p b. record b { clients_pane = p }) a v
            (λ p e b w. w))
          v
    load_tab-IsValid cluster force a v =
        if_both IsValid (force || is_idle a.cluster_pane)
          (request_pane-IsValid load_cluster (λ p b. record b { cluster_pane = p }) a v
            (λ p e b w. w))
          v
    load_tab-IsValid pub_sub force a v =
        if_both IsValid (force || is_idle a.pub_sub_pane)
          (request_pane-IsValid load_pub_sub (λ p b. record b { pub_sub_pane = p }) a v
            (λ p e b w. w))
          v
    load_tab-IsValid queues force a v = load_level-IsValid a.level force a v

    pub load_view-IsValid : (force : Bool) (a : App C) → IsValid a → IsValid (load_view ch force a)
    unfolding load_view
    load_view-IsValid force a v = load_tab-IsValid a.view force a v

    pub goto-IsValid : (w : View) (a : App C) → IsValid a → IsValid (goto ch w a)
    unfolding goto
    goto-IsValid w a v =
        if_both IsValid (same_view a.view w) v
          (load_view-IsValid false (record a { view = w; pane_scroll = 0 }) v)

    list_state_at-IsValid :
        (l : QueueLevel) (s : State) (a : App C) → IsValid a → IsValid (list_state_at ch l s a)
    list_state_at-IsValid at_queues s a v = v
    list_state_at-IsValid at_jobs s a v =
        load_jobs-IsValid (record a { job_state = s; job_selected = 0; level = at_jobs })
          (from_first a s at_jobs v)
    list_state_at-IsValid at_job s a v =
        load_jobs-IsValid (record a { job_state = s; job_selected = 0; level = at_jobs })
          (from_first a s at_jobs v)

    go_into-IsValid : (l : QueueLevel) (a : App C) → IsValid a → IsValid (go_into ch l a)
    go_into-IsValid at_queues a v =
        if_both IsValid (is_some (selected_queue a))
          (load_jobs-IsValid (record a { level = at_jobs; job_selected = 0 })
            (from_first a a.job_state at_jobs v))
          v
    go_into-IsValid at_jobs a v =
        if_both IsValid (is_some (selected_job a))
          (load_job-IsValid (record a { level = at_job; pane_scroll = 0 }) v) v
    go_into-IsValid at_job a v = v

    run_queues_arm-IsValid :
        (m : QueuesArm) (a : App C) → IsValid a → IsValid (run_queues_arm ch m a)
    unfolding move_queue_cursor
    run_queues_arm-IsValid (move_by delta) a v = move_at-IsValid a.level delta a v
    run_queues_arm-IsValid previous_state a v =
        list_state_at-IsValid a.level (previous_of a.job_state) a v
    run_queues_arm-IsValid next_state a v = list_state_at-IsValid a.level (next_of a.job_state) a v
    run_queues_arm-IsValid go_in a v = go_into-IsValid a.level a v
    run_queues_arm-IsValid go_out a v = go_out_of-IsValid a.level a v
    run_queues_arm-IsValid ignored a v = v

    pub handle_queues_key-IsValid :
        (code : KeyCode) (a : App C) → IsValid a → IsValid (handle_queues_key ch code a)
    unfolding handle_queues_key
    handle_queues_key-IsValid code a v = run_queues_arm-IsValid (queues_arm code) a v
