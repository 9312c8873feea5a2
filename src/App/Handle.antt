-- ===== src/App/Handle.antt =====
-- `App::handle_key`, `handle_search_key`, `handle_normal_key` and `handle_pane_key` of
-- crates/keylens/src/app.rs.
use keylens.Base.{
  ℕ, ◌-◌, ◌||◌, ◌&&◌, Bool, true, false, [], ◌∷◌, ◌++◌, Option, none, some, leb, ◌==◌,
  if◌then◌else◌,
}
use keylens.Base.Text.{or_empty, Text, codes, is_empty}
use keylens.Base.Find.{contains_char}
use keylens.Base.Lines.{trim}
use keylens.App.{App, Channel, Mode, normal, search_mode, help, View, keys, queues}
use keylens.App.Ops.{rescan, view_from_digit}
use keylens.App.Load.{goto, load_view}
use keylens.App.Input.{
  KeyCode, KeyEvent, char, down, up, page_down, page_up, home, enter, esc, backspace, add_u16, pop,
}
use keylens.App.Keys.{handle_keys_view_key}
use keylens.App.Queues.{handle_queues_key}

abbrev pane_char : ℕ → ℕ → ℕ
pane_char c i =
    if c == b'j' then add_u16 i 1 else if c == b'k' then i - 1 else if c == b'g' then 0 else i

-- The offset that `handle_pane_key` leaves.
unfoldable scroll_pane : KeyCode → ℕ → ℕ
scroll_pane (char c) i = pane_char c i
scroll_pane down i = add_u16 i 1
scroll_pane up i = i - 1
scroll_pane page_down i = add_u16 i 20
scroll_pane page_up i = i - 20
scroll_pane home i = 0
scroll_pane _ i = i

-- `raw.contains(['*', '?', '['])`
unfoldable has_glob : Text → Bool
unfolding contains_char
has_glob raw = contains_char b'*' raw || contains_char b'?' raw || contains_char b'[' raw

-- The pattern that a search for `raw` sets.
unfoldable pub search_pattern : Text → Option Text
unfolding has_glob
search_pattern raw =
    if is_empty raw
    then none
    else if has_glob raw
    then some raw
    else some (codes "*" ++ (raw ++ codes "*"))

-- The keys that mean the same in every view.
pub data CommonArm : Type 0 where
  quit_arm help_arm reload elsewhere : CommonArm
  digit : ℕ → CommonArm

abbrev common_char : ℕ → CommonArm
common_char c =
    if c == b'q'
    then quit_arm
    else if c == b'?'
    then help_arm
    else if leb b'0' c && leb c b'9'
    then digit c
    else if c == b'r'
    then reload
    else elsewhere

unfoldable pub common_arm : KeyCode → CommonArm
common_arm (char c) = common_char c
common_arm _ = elsewhere

-- `key.code == KeyCode::Char('c')`
abbrev is_char_c : KeyCode → Bool
is_char_c (char c) = c == b'c'
is_char_c _ = false

module _ {C : Type 0} where
  -- `App::handle_pane_key`
  unfoldable pub handle_pane_key : KeyCode → App C → App C
  unfolding scroll_pane
  handle_pane_key code a = record a { pane_scroll = scroll_pane code a.pane_scroll }

  module _ (ch : Channel C) where
    -- `App::handle_search_key`
    unfoldable pub handle_search_key : KeyCode → App C → App C
    unfolding rescan trim search_pattern pop
    handle_search_key esc a = record a { mode = normal; search_input = or_empty a.pattern }
    handle_search_key enter a =
        rescan ch (record a { mode = normal; pattern = search_pattern (trim a.search_input) })
    handle_search_key backspace a = record a { search_input = pop a.search_input }
    handle_search_key (char c) a = record a { search_input = a.search_input ++ c ∷ [] }
    handle_search_key _ a = a

    abbrev pub handle_view_key : View → KeyCode → App C → App C
    handle_view_key keys code a = handle_keys_view_key ch code a
    handle_view_key queues code a = handle_queues_key ch code a
    handle_view_key _ code a = handle_pane_key code a

    abbrev pub goto_found : Option View → App C → App C
    goto_found none a = a
    goto_found (some v) a = goto ch v a

    abbrev pub run_common_arm : CommonArm → KeyCode → App C → App C
    run_common_arm quit_arm code a = record a { quit = true }
    run_common_arm help_arm code a = record a { mode = help }
    run_common_arm (digit c) code a = goto_found (view_from_digit c a) a
    run_common_arm reload code a = load_view ch true a
    run_common_arm elsewhere code a = handle_view_key a.view code a

    -- `App::handle_normal_key`
    unfoldable pub handle_normal_key : KeyCode → App C → App C
    unfolding common_arm handle_pane_key handle_keys_view_key handle_queues_key goto load_view
        view_from_digit
    handle_normal_key code a = run_common_arm (common_arm code) code a

    abbrev pub handle_in_mode : Mode → KeyCode → App C → App C
    handle_in_mode help code a = record a { mode = normal }
    handle_in_mode search_mode code a = handle_search_key code a
    handle_in_mode normal code a = handle_normal_key code a

    abbrev pub is_ctrl_c : KeyEvent → Bool
    is_ctrl_c e = e.control && is_char_c e.code

    -- `App::handle_key`
    unfoldable pub handle_key : KeyEvent → App C → App C
    unfolding handle_search_key handle_normal_key
    handle_key e a =
        if is_ctrl_c e
        then record a { quit = true }
        else handle_in_mode a.mode e.code (record a { splash = false })
