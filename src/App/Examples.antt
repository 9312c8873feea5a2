-- ===== src/App/Examples.antt =====
-- A run of the application against a channel with a bounded number of free places.
use keylens.Base.{
  ℕ, zero, suc, ◌≡◌, ◌≢◌, refl, true, false, List, [], ◌∷◌, ◌++◌, none, some, arith, ◌⊎◌,
}
use keylens.Base.Text.{codes, compare_text}
use keylens.Base.Split.{split}
use keylens.Base.Int.{pos}
use keylens.Conn.Kind.{string}
use keylens.Conn.Reply.{ServerInfo, Vendor}
use keylens.Ui.Tree.{
  new, insert_with_kind, contains, find, find_from, descend, entry, get, set_contains, clear_keys,
}
use keylens.Ui.Tree.Lookup.{insert_all}
use keylens.Ui.Tree.Rows.{Row, rows, walk, height, folded, fold, extend, branches, leaves, emit}
use keylens.App.{
  App, Channel, SendResult, sent, full, Request, select, Update, batch, new_app, stats,
}
use keylens.App.Ops.{
  selected_row, flush_selection, digit_for, view_from_digit, views, rebuild, anchored, position_of,
  set_pending_key,
}
use keylens.App.Apply.{apply, apply_batch, fill_in}
use keylens.App.Input.{KeyEvent, down}
use keylens.App.Handle.{handle_key}
use keylens.App.Invariant.{IsValid, apply-IsValid, new_app-IsValid}
use keylens.App.Invariant.Loop.{key, update, quiet, start, next, reachable-IsValid}
use keylens.App.Selection.{
  moves, FlushedTo, flush_selection_lem, moves_ask_once, reset_leaves_unfetched,
}
use keylens.App.Digits.{view_from_digit-digit_for}

-- The number of free places, and the requests accepted.
abbrev Slots : Type 0
Slots = ℕ × List Request

abbrev try_slot : Request → Slots → SendResult × Slots
try_slot r (zero, queue) = (full, (zero, queue))
try_slot r (suc n, queue) = (sent, (n, queue ++ r ∷ []))

try_slot-sent :
    (r : Request) (c : Slots) → (try_slot r c).0 ≡ sent → (try_slot r c).1.1 ≡ c.1 ++ r ∷ []
try_slot-sent r (zero, queue) h = ground arith
try_slot-sent r (suc n, queue) h = refl

try_slot_refused : (r : Request) (c : Slots) → (try_slot r c).0 ≢ sent → (try_slot r c).1.1 ≡ c.1
try_slot_refused r (zero, queue) h = refl
try_slot_refused r (suc n, queue) h = absurd (h refl)

abbrev slots : Channel Slots
slots = record {
  try_send = try_slot;
  queued = λ c. c.1;
  try_send_sent = try_slot-sent;
  try_send_refused = try_slot_refused;
}

abbrev server_info : ServerInfo
server_info = record {
  vendor = Vendor.redis;
  version = codes "8.0.0";
  server_mode = codes "standalone";
  info_fields = [];
}

abbrev started : App Slots
started = new_app server_info (codes "redis://u:p@h") (2, [])

abbrev two_keys : Update
two_keys = batch ((codes "a", none) ∷ (codes "b", some string) ∷ []) false true 1

abbrev press : KeyEvent
press = record { code = down; control = false }

abbrev browsing : App Slots
browsing = apply two_keys started

abbrev moved_down : App Slots
moved_down = handle_key slots press browsing

started-IsValid : IsValid started
started-IsValid = new_app-IsValid server_info (codes "redis://u:p@h") (2, [])

browsing-IsValid : IsValid browsing
browsing-IsValid = apply-IsValid two_keys started started-IsValid

reachable-IsValid_example : IsValid (flush_selection slots moved_down)
reachable-IsValid_example =
    reachable-IsValid slots server_info (codes "redis://u:p@h") (2, [])
      (flush_selection slots moved_down)
      (next moved_down quiet (next browsing (key press) (next started (update two_keys) start)))

moves_ask_once_example :
    (slots.queued (flush_selection slots (moves (pos 1 ∷ pos 1 ∷ []) browsing)).tx
      ≡ slots.queued browsing.tx)
    ⊎ ((r : Row) × (selected_row (moves (pos 1 ∷ pos 1 ∷ []) browsing) ≡ some r)
        × (r.row_is_key ≡ true)
        × ((flush_selection slots (moves (pos 1 ∷ pos 1 ∷ []) browsing)).pending_key ≡ some r.path)
        × (slots.queued (flush_selection slots (moves (pos 1 ∷ pos 1 ∷ []) browsing)).tx
            ≡ slots.queued browsing.tx ++ select r.path ∷ []))
moves_ask_once_example = moves_ask_once slots (pos 1 ∷ pos 1 ∷ []) browsing

abbrev row_a : Row
row_a = record {
  depth = 0;
  label = codes "a";
  path = codes "a";
  row_is_key = true;
  row_is_branch = false;
  row_expanded = false;
  row_subtree_keys = 1;
  row_kind = none;
}

on_row_a : selected_row browsing ≡ some row_a
unfolding selected_row new_app apply apply_batch fill_in rebuild anchored position_of new insert_all
    insert_with_kind contains find find_from split descend entry get compare_text set_contains rows
    walk height folded fold extend branches leaves emit
on_row_a = refl

flush_selection_lem_example :
    let b = flush_selection slots browsing in
    FlushedTo slots (slots.try_send (select (codes "a")) browsing.tx) row_a browsing b
    × ((b.selection_dirty ≡ true) ⊎ (slots.queued (flush_selection slots b).tx ≡ slots.queued b.tx))
flush_selection_lem_example = flush_selection_lem slots browsing row_a on_row_a

abbrev awaiting_a : App Slots
awaiting_a = set_pending_key (some (codes "a")) started

abbrev rescanned : App Slots
rescanned = apply (batch ((codes "a", none) ∷ []) true true 1) awaiting_a

back_on_row_a : selected_row rescanned ≡ some row_a
unfolding selected_row set_pending_key new_app apply apply_batch fill_in rebuild anchored
    position_of new clear_keys insert_all insert_with_kind contains find find_from split descend
    entry get compare_text set_contains rows walk height folded fold extend branches leaves emit
back_on_row_a = refl

reset_leaves_unfetched_example :
    let b = flush_selection slots rescanned in
    (b.detail ≡ none) × (slots.queued b.tx ≡ slots.queued awaiting_a.tx)
unfolding set_pending_key compare_text
reset_leaves_unfetched_example =
    reset_leaves_unfetched slots ((codes "a", none) ∷ []) true 1 awaiting_a row_a back_on_row_a refl
      refl

view_from_digit-digit_for_example : view_from_digit b'2' started ≡ some stats
unfolding digit_for views new_app
view_from_digit-digit_for_example = view_from_digit-digit_for stats started b'2' refl
