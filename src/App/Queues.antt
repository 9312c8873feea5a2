-- ===== src/App/Queues.antt =====
-- `App::handle_queues_key` and `move_queue_cursor` of crates/keylens/src/app.rs. The arms of the
-- `match` on the key are the constructors of `QueuesArm`, and `queues_arm` holds its patterns.
use keylens.Base.{
  ℕ, zero, suc, ◌||◌, List, Option, none, some, ◌==◌, if◌then◌else◌, length, is_some,
}
use keylens.Base.Int.{ℤ, pos, negsuc}
use keylens.Ui.Pane.{ready}
use keylens.BullMq.Keys.{
  State, waiting, active, prioritized, delayed, waiting_children, completed, failed,
}
use keylens.App.{App, Channel, QueueLevel, at_queues, at_jobs, at_job}
use keylens.App.Ops.{selected_queue, selected_job}
use keylens.App.Load.{load_jobs, load_job}
use keylens.App.Input.{
  KeyCode, char, down, up, page_down, page_up, home, end_key, left_key, right_key, enter, esc,
  far_up, far_down, step_saturating, scrolled,
}

pub data QueuesArm : Type 0 where
  move_by : ℤ → QueuesArm
  previous_state next_state go_in go_out ignored : QueuesArm

abbrev queues_char : ℕ → QueuesArm
queues_char c =
    if c == b'j'
    then move_by (pos 1)
    else if c == b'k'
    then move_by (negsuc 0)
    else if c == b'g'
    then move_by far_up
    else if c == b'G'
    then move_by far_down
    else if c == b'['
    then previous_state
    else if c == b']'
    then next_state
    else if c == b' ' || c == b'l'
    then go_in
    else if c == b'h'
    then go_out
    else ignored

unfoldable pub queues_arm : KeyCode → QueuesArm
queues_arm (char c) = queues_char c
queues_arm down = move_by (pos 1)
queues_arm up = move_by (negsuc 0)
queues_arm page_down = move_by (pos 10)
queues_arm page_up = move_by (negsuc 9)
queues_arm home = move_by far_up
queues_arm end_key = move_by far_down
queues_arm enter = go_in
queues_arm right_key = go_in
queues_arm esc = go_out
queues_arm left_key = go_out
queues_arm _ = ignored

-- The state `delta` places on in `State::ALL`, around its end: `rem_euclid` by its length.
abbrev pub next_of : State → State
next_of waiting = active
next_of active = prioritized
next_of prioritized = delayed
next_of delayed = waiting_children
next_of waiting_children = completed
next_of completed = failed
next_of failed = waiting

abbrev pub previous_of : State → State
previous_of waiting = failed
previous_of active = waiting
previous_of prioritized = active
previous_of delayed = prioritized
previous_of waiting_children = delayed
previous_of completed = waiting_children
previous_of failed = completed

-- `ready().map(|l| l.len()).unwrap_or(0)`
abbrev pub length_or_zero {ℓ} : {A : Type ℓ} → Option (List A) → ℕ
length_or_zero none = 0
length_or_zero (some list) = length list

-- `*cursor`, behind the `match` of `move_queue_cursor`.
abbrev pub moved : ℕ → ℕ → ℤ → ℕ
moved zero cursor delta = cursor
moved (suc last) cursor delta = step_saturating last cursor delta

module _ {C : Type 0} where
  abbrev pub move_at : QueueLevel → ℤ → App C → App C
  move_at at_queues delta a = record a {
    queue_selected = moved (length_or_zero (ready a.queues_pane)) a.queue_selected delta;
  }
  move_at at_jobs delta a = record a {
    job_selected = moved (length_or_zero (ready a.jobs_pane)) a.job_selected delta;
  }
  move_at at_job delta a = record a { pane_scroll = scrolled delta a.pane_scroll }

  -- `App::move_queue_cursor`
  unfoldable pub move_queue_cursor : ℤ → App C → App C
  unfolding step_saturating scrolled
  move_queue_cursor delta a = move_at a.level delta a

  abbrev pub go_out_of : QueueLevel → App C → App C
  go_out_of at_job a = record a { level = at_jobs; pane_scroll = 0 }
  go_out_of at_jobs a = record a { level = at_queues; pane_scroll = 0 }
  go_out_of at_queues a = a

  module _ (ch : Channel C) where
    abbrev pub list_state_at : QueueLevel → State → App C → App C
    list_state_at at_queues s a = a
    list_state_at _ s a =
        load_jobs ch (record a { job_state = s; job_selected = 0; level = at_jobs })

    abbrev pub go_into : QueueLevel → App C → App C
    go_into at_queues a =
        if is_some (selected_queue a)
        then load_jobs ch (record a { level = at_jobs; job_selected = 0 })
        else a
    go_into at_jobs a =
        if is_some (selected_job a)
        then load_job ch (record a { level = at_job; pane_scroll = 0 })
        else a
    go_into at_job a = a

    abbrev pub run_queues_arm : QueuesArm → App C → App C
    run_queues_arm (move_by delta) a = move_queue_cursor delta a
    run_queues_arm previous_state a = list_state_at a.level (previous_of a.job_state) a
    run_queues_arm next_state a = list_state_at a.level (next_of a.job_state) a
    run_queues_arm go_in a = go_into a.level a
    run_queues_arm go_out a = go_out_of a.level a
    run_queues_arm ignored a = a

    -- `App::handle_queues_key`
    unfoldable pub handle_queues_key : KeyCode → App C → App C
    unfolding queues_arm move_queue_cursor load_jobs load_job selected_queue selected_job
    handle_queues_key code a = run_queues_arm (queues_arm code) a
