-- ===== src/App/Ops.antt =====
-- The accessors of `App` in crates/keylens/src/app.rs, its `rebuild`, `send`, `touch_selection`,
-- `flush_selection` and `rescan`.
use keylens.Base.{
  ℕ, suc, ◌+◌, ◌-◌, min, Bool, true, false, not, ◌&&◌, List, [], ◌∷◌, Option, none, some, ltb, leb,
  ◌==◌, if◌then◌else◌, length, get_elem?, ◌>>=◌,
}
use keylens.Base.Text.{Text, codes, text_eq}
use keylens.BullMq.Job.{JobRef, QueueSummary}
use keylens.Lens.{Detection}
use keylens.Ui.Tree.Rows.{Row, rows}
use keylens.Ui.Pane.{ready}
use keylens.App.{
  App, Channel, SendResult, sent, full, closed, Request, select, rescan_request, View, keys, queues,
  stats, slowlog, clients, cluster, pub_sub, all_views,
}

-- The number of a tab in the order of the enum, and `==` on tabs.
abbrev view_rank : View → ℕ
view_rank keys = 0
view_rank queues = 1
view_rank stats = 2
view_rank slowlog = 3
view_rank clients = 4
view_rank cluster = 5
view_rank pub_sub = 6

abbrev pub same_view : View → View → Bool
same_view v w = view_rank v == view_rank w

-- `rows.iter().position(|r| r.path == path)`
abbrev pub one_later : Option ℕ → Option ℕ
one_later none = none
one_later (some i) = some (suc i)

unfoldable pub position_of : Text → List Row → Option ℕ
position_of path [] = none
position_of path (r ∷ rs) = if text_eq r.path path then some 0 else one_later (position_of path rs)

abbrev pub or_else : Option ℕ → ℕ → ℕ
or_else none d = d
or_else (some i) d = i

-- `selected`, given the path of the row it was on: the part of `rebuild` behind `self.rows = …`.
unfoldable pub anchored : Option Row → List Row → ℕ → ℕ
unfolding position_of
anchored none fresh i = min i (length fresh - 1)
anchored (some r) fresh i = min (or_else (position_of r.path fresh) i) (length fresh - 1)

-- `option == Some(path)` on texts.
abbrev pub is_text : Option Text → Text → Bool
is_text none path = false
is_text (some p) path = text_eq p path

-- The tabs on offer when the lenses have found `ds`.
abbrev pub on_offer : List Detection → List View
on_offer [] = keys ∷ stats ∷ slowlog ∷ clients ∷ cluster ∷ pub_sub ∷ []
on_offer (d ∷ ds) = all_views

abbrev view_position : View → List View → Option ℕ
view_position v [] = none
view_position v (w ∷ ws) = if same_view w v then some 0 else one_later (view_position v ws)

-- `digit_for` and `view_from_digit`, given the tabs; `char::from_digit` answers none above 9.
abbrev pub digit_in : View → List View → Option ℕ
digit_in v tabs = do
  i ← view_position v tabs
  if ltb (i + 1) 10 then some (b'0' + (i + 1)) else none

abbrev pub view_in : ℕ → List View → Option View
view_in c tabs =
    if leb b'0' c && leb c b'9'
    then (if c == b'0' then none else get_elem? tabs (c - b'0' - 1))
    else none

module _ {C : Type 0} where
  -- `App::selected_row`
  unfoldable pub selected_row : App C → Option Row
  selected_row a = get_elem? a.rows a.selected

  -- `App::set_pending_key`
  unfoldable pub set_pending_key : Option Text → App C → App C
  set_pending_key k a = record a { pending_key = k }

  -- `App::rebuild`
  unfoldable pub rebuild : App C → App C
  unfolding selected_row anchored
  rebuild a = record a {
    rows = rows a.tree;
    selected = anchored (selected_row a) (rows a.tree) a.selected;
  }

  -- `App::views`
  unfoldable pub views : App C → List View
  views a = on_offer a.detections

  -- `App::digit_for`
  unfoldable pub digit_for : View → App C → Option ℕ
  unfolding views
  digit_for v a = digit_in v (views a)

  -- `App::view_from_digit`
  unfoldable pub view_from_digit : ℕ → App C → Option View
  unfolding views
  view_from_digit c a = view_in c (views a)

  -- `App::selected_queue`
  unfoldable pub selected_queue : App C → Option QueueSummary
  selected_queue a = do list ← ready a.queues_pane; get_elem? list a.queue_selected

  -- `App::selected_job`
  unfoldable pub selected_job : App C → Option JobRef
  selected_job a = do list ← ready a.jobs_pane; get_elem? list a.job_selected

  -- `App::selection_pending`
  unfoldable selection_pending : App C → Bool
  selection_pending a = a.selection_dirty

  -- `App::touch_selection`
  unfoldable pub touch_selection : App C → App C
  touch_selection a = record a { selection_dirty = true; error = none }

  module _ (ch : Channel C) where
    -- The `match` of `App::send` on what `try_send` answers.
    abbrev pub after_send : SendResult × C → App C → Bool × App C
    after_send (sent, c) a = (true, record a { tx = c })
    after_send (full, c) a = (false, record a { tx = c })
    after_send (closed, c) a = (false, record a { tx = c; error = some (codes "worker stopped") })

    -- `App::send`
    unfoldable pub send : Request → App C → Bool × App C
    send r a = after_send (ch.try_send r a.tx) a

    abbrev pub unless_sent : Bool × App C → (App C → App C) → (App C → App C) → App C
    unless_sent (true, a) accepted refused = accepted a
    unless_sent (false, a) accepted refused = refused a

    -- The part of `flush_selection` behind its first `let else`.
    unfoldable pub flush_row : Option Row → App C → App C
    unfolding send
    flush_row none a = a
    flush_row (some r) a =
        if not r.row_is_key
        then record a { detail = none; stream_info = none; pending_key = none }
        else if is_text a.pending_key r.path
        then a
        else unless_sent (send (select r.path) (record a { pending_key = some r.path })) (λ b. b)
            (λ b. record b { pending_key = none; selection_dirty = true })

    -- `App::flush_selection`
    unfoldable pub flush_selection : App C → App C
    unfolding flush_row selected_row
    flush_selection a = flush_row (selected_row a) (record a { selection_dirty = false })

    -- `App::rescan`
    unfoldable pub rescan : App C → App C
    unfolding send
    rescan a =
        unless_sent (send (rescan_request a.pattern a.kind_filter) a)
          (λ b. record b { is_loading = true; status = codes "scanning…"; scan_complete = false })
          (λ b. record b { is_loading = false; status = codes "worker busy — press r to retry" })
