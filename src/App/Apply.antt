-- ===== src/App/Apply.antt =====
-- `App::apply` of crates/keylens/src/app.rs: what an update from the worker does to the state.
use keylens.Base.{
  ℕ, ◌-◌, min, Bool, true, false, List, [], ◌∷◌, ◌++◌, Option, none, some, ◌==◌, if◌then◌else◌,
  length,
}
use keylens.Base.Text.{Text, codes, text_eq}
use keylens.Conn.Kind.{Kind}
use keylens.Ui.Tree.{clear_keys, len}
use keylens.Ui.Tree.Lookup.{insert_all}
use keylens.Base.Decimal.{to_string}
use keylens.Ui.Format.{count}
use keylens.Ui.Pane.{ready}
use keylens.BullMq.Keys.{State, suffix}
use keylens.BullMq.Events.Throughput.{Throughput, StreamEvent, record_throughput}
use keylens.App.{
  App, Update, batch, detail_update, info, error_update, slowlog_update, clients_update,
  cluster_update, pub_sub_update, detected, events_status, events, queues_update, jobs_update,
  job_update,
}
use keylens.App.Ops.{rebuild, is_text}

-- `==` on states; their suffixes are distinct.
abbrev pub state_eq : State → State → Bool
state_eq s t = text_eq (suffix s) (suffix t)

-- `cursor.min(list.len().saturating_sub(1))`, for a pane that is ready.
abbrev pub clamped {ℓ} : {A : Type ℓ} → Option (List A) → ℕ → ℕ
clamped none i = i
clamped (some list) i = min i (length list - 1)

-- The loop over the events.
unfoldable record_all : List StreamEvent → Throughput → Throughput
record_all [] t = t
record_all (e ∷ es) t = record_all es (record_throughput e.queue e.kind e.at_ms t)

-- The status line of a batch.
unfoldable batch_status : Bool → ℕ → ℕ → Text
batch_status complete n scanned_pages =
    if complete
    then count n ++ codes " keys"
    else count n
      ++ (codes " keys so far ("
          ++ (to_string scanned_pages
              ++ (codes " page"
                  ++ ((if scanned_pages == 1 then [] else codes "s") ++ codes ") - `m` for more"))))

module _ {C : Type 0} where
  -- The `if reset` of the batch.
  abbrev pub reset_for : Bool → App C → App C
  reset_for false a = a
  reset_for true a = record a { tree = clear_keys a.tree; selected = 0; detail = none }

  -- The rest of the batch, up to `self.rebuild()`.
  unfoldable pub fill_in : List (Text × Option Kind) → Bool → ℕ → App C → App C
  unfolding insert_all batch_status
  fill_in ks complete scanned_pages a =
      let t = insert_all ks a.tree in
      record a {
        tree = t;
        scan_complete = complete;
        is_loading = false;
        error = none;
        splash = false;
        status = batch_status complete (len t) scanned_pages;
      }

  -- `Update::Batch`
  unfoldable pub apply_batch : List (Text × Option Kind) → Bool → Bool → ℕ → App C → App C
  unfolding fill_in rebuild
  apply_batch ks reset complete scanned_pages a =
      rebuild (fill_in ks complete scanned_pages (reset_for reset a))

  -- `App::apply`
  unfoldable pub apply : Update → App C → App C
  unfolding apply_batch record_all
  apply (batch ks reset complete scanned_pages) a = apply_batch ks reset complete scanned_pages a
  apply (detail_update meta v s) a =
      if is_text a.pending_key meta.key
      then record a { detail_scroll = 0; stream_info = s; detail = some (meta, v); error = none }
      else a
  apply (info i) a = record a { server = i }
  apply (error_update e) a = record a { is_loading = false; error = some e }
  apply (slowlog_update s) a = record a { slowlog_pane = s }
  apply (clients_update s) a = record a { clients_pane = s }
  apply (cluster_update s) a = record a { cluster_pane = s }
  apply (pub_sub_update s) a = record a { pub_sub_pane = s }
  apply (detected d) a = record a { detections = d }
  apply (events_status s) a = record a { throughput = record a.throughput { status = s } }
  apply (events es) a = record a { throughput = record_all es a.throughput }
  apply (queues_update s) a = record a {
    queue_selected = clamped (ready s) a.queue_selected;
    queues_pane = s;
  }
  apply (jobs_update s page) a =
      if state_eq s a.job_state
      then record a { job_selected = clamped (ready page) a.job_selected; jobs_pane = page }
      else a
  apply (job_update s) a = record a { job_pane = s }
