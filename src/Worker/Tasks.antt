-- ===== src/Worker/Tasks.antt =====
-- That the worker answers its requests, whatever the server does.
use keylens.Base.{
  ℕ, zero, suc, ◌≡◌, refl, Bool, true, false, List, [], ◌∷◌, Option, none, some, is_some,
  if◌then◌else◌, if_cases, length, map, take, drop,
}
use keylens.Base.Text.{Text}
use keylens.App.{
  Request, rescan_request, more, select, refresh_info, load_slowlog, load_clients, load_cluster,
  load_pub_sub, detect, load_queues, load_jobs_request, load_job_request, Update, batch,
  slowlog_update, clients_update, cluster_update, pub_sub_update, queues_update, jobs_update,
  job_update,
}
use keylens.Lens.{Detection}
use keylens.BullMq.Fields.{Json, job}
use keylens.BullMq.Job.{Job}
use keylens.BullMq.Lens.{all_queues}
use keylens.BullMq.Jobs.{jobs, job_logs}
use keylens.BullMq.Detect as Detector
use keylens.Conn.Value.{Value, Client}
use keylens.Conn.Error.{ConnError, Result, ok, err}
use keylens.Conn.Capability.{
  Availability, is_available, has, scan_type_filter, get_feature, server_info, slowlog, client_list,
  cluster, pub_sub,
}
use keylens.Conn.Program.{Program, done, attempt, ◌>>=◌, Ends, Ends-attempt, Ends-bind}
use keylens.Conn.Command.{Conn, pipeline}
use keylens.Conn.Kind.{Kind}
use keylens.Conn.Scan.{Scanned}
use keylens.Conn.Server.{read_slowlog, read_clients, read_topology, read_channels}
use keylens.Worker.{
  type_cmd, max_typed, Worker, Gathered, gathered, broken, gather, max_pages_per_batch, type_keys,
  type_or_ask, type_chunks, typed_from, typed_by_server,
}
use keylens.Worker.Requests.{
  Handled, handle, pane, pane_of, cluster_pane, is_standalone, job_pane, with_logs, scan_batch,
  batch_of, adopted, sends, silent, started, is_running, slowlog_entries, pubsub_channels, job_page,
  restarted, job_log_lines,
}

-- The requests that the worker answers itself; a task of its own answers the two others.
abbrev pub answers_itself : Request → Bool
answers_itself (select key) = false
answers_itself refresh_info = false
answers_itself _ = true

abbrev HasUpdate : Handled → Type 0
HasUpdate h = is_some h.update ≡ true

abbrev Any : {A : Type 0} → A → Type 0
Any a = Unit

module _ (client : Client) (conn : Conn) where
  type_chunks-Ends : (fuel : ℕ) (keys : List Text) → Ends Any (type_chunks client fuel conn keys)
  unfolding type_chunks
  type_chunks-Ends zero keys = tt
  type_chunks-Ends (suc fuel) [] = tt
  type_chunks-Ends (suc fuel) (k ∷ ks) =
      Ends-attempt {B = List (Result Value)} Any
        (pipeline client conn (map type_cmd (take max_typed (k ∷ ks)))) _
        λ r.
          Ends-bind {B = List (Result Value)} Any Any
            (type_chunks client fuel conn (drop max_typed (k ∷ ks))) _
            (type_chunks-Ends fuel (drop max_typed (k ∷ ks))) (λ rest _. tt)

  type_or_ask-Ends :
      (k : Option Kind) (w : Worker) (keys : List Text)
      → Ends Any (type_or_ask client k conn w keys)
  type_or_ask-Ends (some k) w keys = tt
  type_or_ask-Ends none w [] = tt
  type_or_ask-Ends none w (key ∷ keys) =
      Ends-bind Any Any (type_chunks client (length (key ∷ keys)) conn (key ∷ keys))
        (λ replies. done (typed_from client w.kind (key ∷ keys) replies))
        (type_chunks-Ends (length (key ∷ keys)) (key ∷ keys)) (λ r _. tt)

  type_keys-Ends : (w : Worker) (keys : List Text) → Ends Any (type_keys client conn w keys)
  unfolding type_keys
  type_keys-Ends w keys =
      type_or_ask-Ends (typed_by_server client w.kind (has conn.capabilities scan_type_filter)) w
        keys

  module _ (json : Json) (show_error : ConnError → Text) where
    batch_of-Ends :
        (reset : Bool) (g : Gathered × Worker)
        → Ends HasUpdate (batch_of client json show_error conn reset g)
    batch_of-Ends reset (broken e, w) = refl
    batch_of-Ends reset (gathered keys pages, w) =
        Ends-bind Any HasUpdate (type_keys client conn w keys)
          (λ typed. done (sends client json show_error w (batch typed reset w.is_complete pages)))
          (type_keys-Ends w keys) (λ t _. refl)

    scan_batch-Ends :
        (w : Worker) (reset : Bool)
        → Ends HasUpdate (scan_batch client json show_error conn w reset)
    unfolding scan_batch
    scan_batch-Ends w reset = batch_of-Ends reset (gather max_pages_per_batch w [] 0)

    -- A pane never fails.
    pane-Ends :
        {T : Type 0} (a : Availability) (load : Program T)
        → Ends Any (pane client json show_error a load)
    unfolding pane
    pane-Ends a load =
        if_cases (Ends Any) (is_available a)
          (λ e. Ends-attempt Any load (λ r. done (pane_of client json show_error r)) (λ r. tt))
          (λ e. tt)

    cluster_pane-Ends : Ends Any (cluster_pane client json show_error conn)
    unfolding cluster_pane
    cluster_pane-Ends =
        let a : Availability = get_feature conn.capabilities cluster in
        if_cases (Ends Any) (is_standalone client json show_error a) (λ e. tt)
          (λ e. pane-Ends a (read_topology client conn))

    with_logs-Ends :
        (prefix queue id : Text) (r : Result (Option Job))
        → Ends Any (with_logs client json show_error prefix queue id r)
    with_logs-Ends prefix queue id (err e) = tt
    with_logs-Ends prefix queue id (ok none) = tt
    with_logs-Ends prefix queue id (ok (some j)) =
        Ends-attempt Any (job_logs client prefix queue id job_log_lines) _ (λ r. tt)

    job_pane-Ends :
        (w : Worker) (queue id : Text) → Ends Any (job_pane client json show_error w queue id)
    unfolding job_pane
    job_pane-Ends w queue id =
        Ends-attempt Any (job json client w.prefix queue id) _
          (λ r. with_logs-Ends w.prefix queue id r)

    -- A pane's content, sent.
    then_sends :
        {A : Type 0} (m : Program A) (w : Worker) (u : A → Update)
        → Ends Any m
        → Ends HasUpdate (m >>= λ p. done (sends client json show_error w (u p)))
    then_sends m w u h = Ends-bind Any HasUpdate m _ h (λ p _. refl)

    attempt-sends :
        {A : Type 0} (m : Program A) (w : Worker) (u : Result A → Update)
        → Ends HasUpdate (attempt m >>= λ r. done (sends client json show_error w (u r)))
    attempt-sends m w u = Ends-attempt HasUpdate m _ (λ r. refl)

    adopted-HasUpdate :
        (w : Worker) (d : Result (Option Detection))
        → HasUpdate (adopted client json show_error w d)
    adopted-HasUpdate w (ok none) = refl
    adopted-HasUpdate w (ok (some d)) = refl
    adopted-HasUpdate w (err e) = refl

    -- A refresh of the stats is left to its task.
    refresh_silent :
        (is_finished : ℕ → Bool) (task : ℕ) (w : Worker) (has_info running : Bool)
        → is_some
            (if has_info
              then (if running
                  then silent client json show_error w
                  else started client json show_error task w)
              else silent client json show_error w).update
          ≡ false
    refresh_silent is_finished task w true true = refl
    refresh_silent is_finished task w true false = refl
    refresh_silent is_finished task w false running = refl

    -- Whatever the server answers and however often it refuses, the worker survives every request, and
    -- comes to an update for it exactly when the request is none of the two that a task answers.
    pub handle_answers :
        (is_finished : ℕ → Bool) (task : ℕ) (fresh : List Scanned) (r : Request) (w : Worker)
        → Ends
            (λ h. is_some h.update ≡ answers_itself r)
            (handle client json show_error conn is_finished task fresh r w)
    unfolding handle
    handle_answers is_finished task fresh (rescan_request pattern kind) w =
        scan_batch-Ends (restarted client json show_error pattern kind fresh w) true
    handle_answers is_finished task fresh more w = scan_batch-Ends w false
    handle_answers is_finished task fresh (select key) w = refl
    handle_answers is_finished task fresh refresh_info w =
        refresh_silent is_finished task w (has conn.capabilities server_info)
          (is_running client json show_error is_finished w.info_task)
    handle_answers is_finished task fresh load_slowlog w = then_sends _ w slowlog_update (
        pane-Ends (get_feature conn.capabilities slowlog)
          (read_slowlog client conn slowlog_entries))
    handle_answers is_finished task fresh load_clients w =
        then_sends _ w clients_update
          (pane-Ends (get_feature conn.capabilities client_list) (read_clients client conn))
    handle_answers is_finished task fresh load_cluster w =
        then_sends (cluster_pane client json show_error conn) w cluster_update cluster_pane-Ends
    handle_answers is_finished task fresh load_pub_sub w = then_sends _ w pub_sub_update (
        pane-Ends (get_feature conn.capabilities pub_sub)
          (read_channels client conn pubsub_channels))
    handle_answers is_finished task fresh detect w =
        Ends-attempt HasUpdate (Detector.detect client w.prefix fresh) _ (adopted-HasUpdate w)
    handle_answers is_finished task fresh load_queues w =
        attempt-sends (all_queues client conn w.prefix fresh) w
          (λ q. queues_update (pane_of client json show_error q))
    handle_answers is_finished task fresh (load_jobs_request queue s) w =
        attempt-sends (jobs client w.prefix queue s 0 job_page) w
          (λ j. jobs_update s (pane_of client json show_error j))
    handle_answers is_finished task fresh (load_job_request queue id) w =
        then_sends (job_pane client json show_error w queue id) w job_update
          (job_pane-Ends w queue id)
