-- ===== src/App/Keys.antt =====
-- `App::handle_keys_view_key`, `handle_value_key`, `collapse_or_parent` and `move_cursor` of
-- crates/keylens/src/app.rs. The arms of the `match` on the key stand in two types: those above
-- the arm for the focus on the value, and those below it.
use keylens.Base.{
  ℕ, ◌-◌, ◌||◌, ◌&&◌, not, true, false, List, [], ◌∷◌, Option, none, some, leb, ◌==◌, if◌then◌else◌,
  length, is_some,
}
use keylens.Base.Text.{or_empty, Text, codes}
use keylens.Base.Int.{ℤ, pos, negsuc}
use keylens.Base.Find.{rsplit_once_char}
use keylens.Conn.Kind.{Kind, string, hash, list, set, zset, stream, no_kind, other}
use keylens.Ui.Tree.{separator, toggle, collapse_all, len}
use keylens.Ui.Tree.Rows.{Row, expand_all}
use keylens.App.{App, Channel, Focus, on_tree, on_value, search_mode, more}
use keylens.App.Ops.{
  selected_row, rebuild, touch_selection, flush_selection, rescan, send, unless_sent, position_of,
}
use keylens.App.Input.{
  KeyCode, char, down, up, page_down, page_up, home, end_key, left_key, right_key, enter, esc, tab,
  add_u16, step_cursor,
}

-- The arms above the one for the focus on the value.
pub data GlobalArm : Type 0 where
  switch_focus start_search clear_pattern cycle_kind more_keys expand collapse below : GlobalArm

abbrev global_char : ℕ → GlobalArm
global_char c =
    if c == b'/'
    then start_search
    else if c == b't'
    then cycle_kind
    else if c == b'm'
    then more_keys
    else if c == b'E'
    then expand
    else if c == b'C'
    then collapse
    else below

unfoldable pub global_arm : KeyCode → GlobalArm
global_arm (char c) = global_char c
global_arm tab = switch_focus
global_arm esc = clear_pattern
global_arm _ = below

-- The arms below it.
pub data TreeArm : Type 0 where
  move_by : ℤ → TreeArm
  to_top to_bottom open_row close_row ignored : TreeArm

abbrev tree_char : ℕ → TreeArm
tree_char c =
    if c == b'j'
    then move_by (pos 1)
    else if c == b'k'
    then move_by (negsuc 0)
    else if c == b'g'
    then to_top
    else if c == b'G'
    then to_bottom
    else if c == b' ' || c == b'l'
    then open_row
    else if c == b'h'
    then close_row
    else ignored

unfoldable pub tree_arm : KeyCode → TreeArm
tree_arm (char c) = tree_char c
tree_arm down = move_by (pos 1)
tree_arm up = move_by (negsuc 0)
tree_arm page_down = move_by (pos 10)
tree_arm page_up = move_by (negsuc 9)
tree_arm home = to_top
tree_arm end_key = to_bottom
tree_arm enter = open_row
tree_arm right_key = open_row
tree_arm left_key = close_row
tree_arm _ = ignored

-- The type filter behind the current one in `KIND_CYCLE`, around its end; a filter that is not in
-- it counts as its first.
abbrev pub next_kind : Option Kind → Option Kind
next_kind none = some string
next_kind (some string) = some hash
next_kind (some hash) = some list
next_kind (some list) = some set
next_kind (some set) = some zset
next_kind (some zset) = some stream
next_kind (some stream) = none
next_kind (some no_kind) = some string
next_kind (some other) = some string

abbrev scroll_char : ℕ → ℕ → ℕ
scroll_char c i = if c == b'j' then add_u16 i 1 else if c == b'k' then i - 1 else i

-- The offset that `handle_value_key` leaves.
unfoldable scroll_value : KeyCode → ℕ → ℕ
scroll_value (char c) i = scroll_char c i
scroll_value down i = add_u16 i 1
scroll_value up i = i - 1
scroll_value page_down i = add_u16 i 20
scroll_value page_up i = i - 20
scroll_value home i = 0
scroll_value _ i = i

abbrev other_focus : Focus → Focus
other_focus on_tree = on_value
other_focus on_value = on_tree

module _ {C : Type 0} where
  -- `App::handle_value_key`
  unfoldable pub handle_value_key : KeyCode → App C → App C
  unfolding scroll_value
  handle_value_key code a = record a { detail_scroll = scroll_value code a.detail_scroll }

  abbrev pub jump : Option ℕ → App C → App C
  jump none a = a
  jump (some i) a = record a { selected = i }

  abbrev pub to_parent : Option (Text × Text) → App C → App C
  to_parent none a = a
  to_parent (some (parent, last)) a = jump (position_of parent a.rows) a

  abbrev pub collapse_row : Option Row → App C → App C
  collapse_row none a = a
  collapse_row (some r) a =
      if r.row_is_branch && r.row_expanded
      then rebuild (record a { tree = (toggle r.path a.tree).1 })
      else to_parent (rsplit_once_char separator r.path) a

  -- `App::collapse_or_parent`
  unfoldable pub collapse_or_parent : App C → App C
  unfolding selected_row rebuild position_of toggle rsplit_once_char
  collapse_or_parent a = collapse_row (selected_row a) a

  abbrev pub move_among : List Row → ℤ → App C → App C
  move_among [] delta a = a
  move_among (r ∷ rs) delta a =
      let next = step_cursor (length rs) a.selected delta in
      if next == a.selected then a else touch_selection (record a { selected = next })

  -- `App::move_cursor`
  unfoldable pub move_cursor : ℤ → App C → App C
  unfolding step_cursor touch_selection
  move_cursor delta a = move_among a.rows delta a

  module _ (ch : Channel C) where
    abbrev pub select_at : ℕ → App C → App C
    select_at i a = flush_selection ch (touch_selection (record a { selected = i }))

    abbrev pub open_selected : Option Row → App C → App C
    open_selected none a = a
    open_selected (some r) a =
        if r.row_is_branch
        then rebuild (record a { tree = (toggle r.path a.tree).1 })
        else flush_selection ch (touch_selection a)

    abbrev pub run_tree_arm : TreeArm → App C → App C
    run_tree_arm (move_by delta) a = move_cursor delta a
    run_tree_arm to_top a = select_at 0 a
    run_tree_arm to_bottom a = select_at (length a.rows - 1) a
    run_tree_arm open_row a = open_selected (selected_row a) a
    run_tree_arm close_row a = collapse_or_parent a
    run_tree_arm ignored a = a

    abbrev pub below_arms : Focus → KeyCode → App C → App C
    below_arms on_value code a = handle_value_key code a
    below_arms on_tree code a = run_tree_arm (tree_arm code) a

    abbrev pub more_status : App C → App C
    more_status a = record a { is_loading = false; status = codes "worker busy — press m to retry" }

    abbrev pub run_global_arm : GlobalArm → KeyCode → App C → App C
    run_global_arm switch_focus code a = record a { focus = other_focus a.focus }
    run_global_arm start_search code a = record a {
      mode = search_mode;
      search_input = or_empty a.pattern;
    }
    run_global_arm clear_pattern code a =
        if is_some a.pattern then rescan ch (record a { pattern = none; search_input = [] }) else a
    run_global_arm cycle_kind code a =
        rescan ch (record a { kind_filter = next_kind a.kind_filter })
    run_global_arm more_keys code a =
        if not a.scan_complete
        then unless_sent ch (send ch more a) (λ b. record b { is_loading = true }) more_status
        else a
    run_global_arm expand code a =
        if leb (len a.tree) 5000
        then rebuild (record a { tree = expand_all a.tree })
        else record a { status = codes "too many keys to expand all - filter first" }
    run_global_arm collapse code a = rebuild (record a { tree = collapse_all a.tree })
    run_global_arm below code a = below_arms a.focus code a

    -- `App::handle_keys_view_key`
    unfoldable pub handle_keys_view_key : KeyCode → App C → App C
    unfolding global_arm tree_arm handle_value_key move_cursor selected_row toggle rebuild
        touch_selection flush_selection collapse_or_parent rescan send len expand_all collapse_all
    handle_keys_view_key code a = run_global_arm (global_arm code) code a
