-- ===== src/App/Invariant.antt =====
-- What holds of the state between any two events, and that updates from the worker keep it.
pub mod Tabs
pub mod Browse
pub mod Loop
use keylens.Base.{
  ℕ, zero, suc, ◌+◌, ◌-◌, ◌≤◌, ◌<◌, ◌≡◌, refl, min, Bool, true, false, List, [], ◌∷◌, Option, none,
  some, arith, if◌then◌else◌, length, not, Bool-cases, inl, inr, Option-cases,
}
use keylens.Base.Text.{Text, text_eq}
use keylens.Conn.Reply.{ServerInfo}
use keylens.Ui.Tree.{new}
use keylens.Ui.Tree.Rows.{Row, rows}
use keylens.Ui.Pane.{PaneState, ready}
use keylens.App.{
  App, Channel, SendResult, sent, full, closed, Request, select, rescan_request, new_app, Update,
  batch, detail_update, info, error_update, slowlog_update, clients_update, cluster_update,
  pub_sub_update, detected, events_status, events, queues_update, jobs_update, job_update,
}
use keylens.App.Ops.{
  position_of, one_later, anchored, or_else, rebuild, send, after_send, unless_sent, rescan,
  flush_selection, flush_row, is_text, selected_row, touch_selection,
}
use keylens.App.Apply.{apply, apply_batch, clamped, reset_for, state_eq, fill_in}
use keylens.Conn.Kind.{Kind}

-- A cursor within its list, when the list is loaded; 0 in an empty one.
abbrev InRange {ℓ} : {A : Type ℓ} → Option (List A) → ℕ → Type 0
InRange none i = Unit {0}
InRange (some list) i = i ≤ length list - 1

-- The rows shown are those of the tree, and the three cursors lie in their lists.
abbrev pub IsValid : {C : Type 0} → App C → Type 0
IsValid a =
    (a.rows ≡ rows a.tree)
    × (a.selected ≤ length a.rows - 1)
    × InRange (ready a.queues_pane) a.queue_selected
    × InRange (ready a.jobs_pane) a.job_selected

-- Both branches of a conditional.
if_both {ℓ κ} :
    {A : Type ℓ} (P : A → Type κ) (b : Bool) {x y : A} → P x → P y → P (if b then x else y)
if_both P true p q = p
if_both P false p q = q

position_of_bound :
    (path : Text) (rs : List Row) (i : ℕ) → position_of path rs ≡ some i → i < length rs
unfolding position_of
position_of_bound path [] i h = ground arith
position_of_bound path (r ∷ rs) i h = elim (Bool-cases (text_eq r.path path)) [
  | inl e ↦ ground arith
  | inr e ↦ elim (Option-cases (position_of path rs)) [
    | inl f ↦ ground arith
    | inr (j, f) ↦ ground (arith, position_of_bound path rs j f)
  ]
]

anchored_bound : (r : Option Row) (fresh : List Row) (i : ℕ) → anchored r fresh i ≤ length fresh - 1
unfolding anchored
anchored_bound none fresh i = omega arith
anchored_bound (some r) fresh i = omega arith

InRange-clamped : {A : Type 0} (o : Option (List A)) (i : ℕ) → InRange o (clamped o i)
InRange-clamped none i = tt
InRange-clamped (some list) i = omega arith

module _ {C : Type 0} where
  -- The part of the invariant that `rebuild` does not establish.
  abbrev HasCursors : App C → Type 0
  HasCursors a =
      InRange (ready a.queues_pane) a.queue_selected × InRange (ready a.jobs_pane) a.job_selected

  rebuild-IsValid : (a : App C) → HasCursors a → IsValid (rebuild a)
  unfolding rebuild
  rebuild-IsValid a (q, j) = (refl, anchored_bound (selected_row a) (rows a.tree) a.selected, q, j)

  reset_for-HasCursors : (b : Bool) (a : App C) → HasCursors a → HasCursors (reset_for b a)
  reset_for-HasCursors true a v = v
  reset_for-HasCursors false a v = v

  fill_in-HasCursors :
      (ks : List (Text × Option Kind)) (complete : Bool) (pages : ℕ) (a : App C)
      → HasCursors a
      → HasCursors (fill_in ks complete pages a)
  unfolding fill_in
  fill_in-HasCursors ks complete pages a v = v

  -- Every update keeps the rows those of the tree and the cursors in their lists: a list that
  -- shrinks pulls its cursor in, and a batch leaves the cursor on a row that exists.
  pub apply-IsValid : (u : Update) (a : App C) → IsValid a → IsValid (apply u a)
  unfolding apply apply_batch
  apply-IsValid (batch ks reset complete pages) a (r, s, q, j) =
      rebuild-IsValid (fill_in ks complete pages (reset_for reset a)) (
        fill_in-HasCursors ks complete pages (reset_for reset a)
          (reset_for-HasCursors reset a (q, j)))
  apply-IsValid (detail_update meta v x) a h = if_both IsValid (is_text a.pending_key meta.key) h h
  apply-IsValid (info i) a h = h
  apply-IsValid (error_update e) a h = h
  apply-IsValid (slowlog_update x) a h = h
  apply-IsValid (clients_update x) a h = h
  apply-IsValid (cluster_update x) a h = h
  apply-IsValid (pub_sub_update x) a h = h
  apply-IsValid (detected d) a h = h
  apply-IsValid (events_status x) a h = h
  apply-IsValid (events es) a h = h
  apply-IsValid (queues_update x) a (r, s, q, j) =
      (r, s, InRange-clamped (ready x) a.queue_selected, j)
  apply-IsValid (jobs_update s page) a (r, i, q, j) =
      if_both IsValid (state_eq s a.job_state)
        (r, i, q, InRange-clamped (ready page) a.job_selected) (r, i, q, j)
  apply-IsValid (job_update x) a h = h

  pub new_app-IsValid :
      (server : ServerInfo) (url : Text) (tx : C) → IsValid (new_app server url tx)
  unfolding new_app rows new
  new_app-IsValid server url tx = (refl, omega arith, tt, tt)

  module _ (ch : Channel C) where
    after_send-IsValid :
        (o : SendResult × C) (a : App C) → IsValid a → IsValid (after_send ch o a).1
    after_send-IsValid (sent, c) a v = v
    after_send-IsValid (full, c) a v = v
    after_send-IsValid (closed, c) a v = v

    send-IsValid : (r : Request) (a : App C) → IsValid a → IsValid (send ch r a).1
    unfolding send
    send-IsValid r a v = after_send-IsValid (ch.try_send r a.tx) a v

    unless_sent-IsValid :
        (o : Bool × App C) (f g : App C → App C)
        → IsValid o.1
        → ((b : App C) → IsValid b → IsValid (f b))
        → ((b : App C) → IsValid b → IsValid (g b))
        → IsValid (unless_sent ch o f g)
    unless_sent-IsValid (true, b) f g v hf hg = hf b v
    unless_sent-IsValid (false, b) f g v hf hg = hg b v

    rescan-IsValid : (a : App C) → IsValid a → IsValid (rescan ch a)
    unfolding rescan
    rescan-IsValid a v =
        unless_sent-IsValid (send ch (rescan_request a.pattern a.kind_filter) a) _ _
          (send-IsValid (rescan_request a.pattern a.kind_filter) a v) (λ b w. w) (λ b w. w)

    flush_row-IsValid : (r : Option Row) (a : App C) → IsValid a → IsValid (flush_row ch r a)
    unfolding flush_row
    flush_row-IsValid none a v = v
    flush_row-IsValid (some r) a v = if_both IsValid (not r.row_is_key) v (
        if_both IsValid (is_text a.pending_key r.path) v (
          let b = record a { pending_key = some r.path } in
          unless_sent-IsValid (send ch (select r.path) b) _ _ (send-IsValid (select r.path) b v)
            (λ b w. w) (λ b w. w)))

    flush_selection-IsValid : (a : App C) → IsValid a → IsValid (flush_selection ch a)
    unfolding flush_selection
    flush_selection-IsValid a v =
        flush_row-IsValid (selected_row a) (record a { selection_dirty = false }) v
