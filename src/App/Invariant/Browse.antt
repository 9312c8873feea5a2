-- ===== src/App/Invariant/Browse.antt =====
-- The key view and the search line keep the invariant of the state.
use keylens.Base.{
  ℕ, ◌-◌, ◌≤◌, ◌≡◌, refl, true, not, ◌&&◌, List, [], ◌∷◌, Option, none, some, arith, length,
  is_some, leb, ◌==◌, Option-cases, inl, inr,
}
use keylens.Base.Text.{Text}
use keylens.Base.Int.{ℤ}
use keylens.Base.Find.{rsplit_once_char}
use keylens.Ui.Tree.{separator, toggle, collapse_all, len}
use keylens.Ui.Tree.Rows.{Row, expand_all}
use keylens.Base.Lines.{trim}
use keylens.App.{App, Channel, Focus, on_tree, on_value, normal, more}
use keylens.App.Ops.{selected_row, touch_selection, send, position_of}
use keylens.App.Input.{
  KeyCode, char, down, up, page_down, page_up, home, end_key, left_key, right_key, enter, esc, tab,
  backspace, other_code, step_cursor,
}
use keylens.App.Keys.{
  GlobalArm, switch_focus, start_search, clear_pattern, cycle_kind, more_keys, expand, collapse,
  below, TreeArm, move_by, to_top, to_bottom, open_row, close_row, ignored, handle_value_key, jump,
  to_parent, collapse_row, collapse_or_parent, move_among, move_cursor, select_at, open_selected,
  run_tree_arm, below_arms, run_global_arm, more_status, handle_keys_view_key, global_arm, tree_arm,
  next_kind,
}
use keylens.App.Handle.{handle_search_key, search_pattern}
use keylens.App.Invariant.{
  IsValid, if_both, position_of_bound, rebuild-IsValid, send-IsValid, unless_sent-IsValid,
  rescan-IsValid, flush_selection-IsValid,
}
use keylens.App.Invariant.Tabs.{step_cursor_bound}

module _ {C : Type 0} where
  jump-IsValid : (path : Text) (a : App C) → IsValid a → IsValid (jump (position_of path a.rows) a)
  jump-IsValid path a v = elim (Option-cases (position_of path a.rows)) [
    | inl e ↦ rw e v
    | inr (i, e) ↦
        let bound = position_of_bound path a.rows i e in rw e (v.0, omega (arith, bound), v.2, v.3)
  ]

  to_parent-IsValid : (o : Option (Text × Text)) (a : App C) → IsValid a → IsValid (to_parent o a)
  to_parent-IsValid none a v = v
  to_parent-IsValid (some (parent, last)) a v = jump-IsValid parent a v

  collapse_row-IsValid : (o : Option Row) (a : App C) → IsValid a → IsValid (collapse_row o a)
  collapse_row-IsValid none a v = v
  collapse_row-IsValid (some r) a v =
      if_both IsValid (r.row_is_branch && r.row_expanded)
        (rebuild-IsValid (record a { tree = (toggle r.path a.tree).1 }) (v.2, v.3))
        (to_parent-IsValid (rsplit_once_char separator r.path) a v)

  collapse_or_parent-IsValid : (a : App C) → IsValid a → IsValid (collapse_or_parent a)
  unfolding collapse_or_parent
  collapse_or_parent-IsValid a v = collapse_row-IsValid (selected_row a) a v

  move_among-IsValid :
      (rs : List Row) (delta : ℤ) (a : App C)
      → length a.rows ≡ length rs
      → IsValid a
      → IsValid (move_among rs delta a)
  unfolding touch_selection
  move_among-IsValid [] delta a e v = v
  move_among-IsValid (r ∷ rs) delta a e v =
      let next = step_cursor (length rs) a.selected delta in
      let bound = step_cursor_bound (length rs) a.selected delta in
      if_both IsValid (next == a.selected) v (v.0, omega (arith, bound, e), v.2, v.3)

  move_cursor-IsValid : (delta : ℤ) (a : App C) → IsValid a → IsValid (move_cursor delta a)
  unfolding move_cursor
  move_cursor-IsValid delta a v = move_among-IsValid a.rows delta a refl v

  module _ (ch : Channel C) where
    select_at-IsValid :
        (i : ℕ) (a : App C) → IsValid a → i ≤ length a.rows - 1 → IsValid (select_at ch i a)
    unfolding touch_selection
    select_at-IsValid i a v h =
        flush_selection-IsValid ch (touch_selection (record a { selected = i })) (v.0, h, v.2, v.3)

    open_selected-IsValid :
        (o : Option Row) (a : App C) → IsValid a → IsValid (open_selected ch o a)
    unfolding touch_selection
    open_selected-IsValid none a v = v
    open_selected-IsValid (some r) a v =
        if_both IsValid r.row_is_branch
          (rebuild-IsValid (record a { tree = (toggle r.path a.tree).1 }) (v.2, v.3))
          (flush_selection-IsValid ch (touch_selection a) v)

    run_tree_arm-IsValid : (m : TreeArm) (a : App C) → IsValid a → IsValid (run_tree_arm ch m a)
    run_tree_arm-IsValid (move_by delta) a v = move_cursor-IsValid delta a v
    run_tree_arm-IsValid to_top a v = select_at-IsValid 0 a v (omega arith)
    run_tree_arm-IsValid to_bottom a v = select_at-IsValid (length a.rows - 1) a v (omega arith)
    run_tree_arm-IsValid open_row a v = open_selected-IsValid (selected_row a) a v
    run_tree_arm-IsValid close_row a v = collapse_or_parent-IsValid a v
    run_tree_arm-IsValid ignored a v = v

    below_arms-IsValid :
        (f : Focus) (code : KeyCode) (a : App C) → IsValid a → IsValid (below_arms ch f code a)
    unfolding handle_value_key
    below_arms-IsValid on_value code a v = v
    below_arms-IsValid on_tree code a v = run_tree_arm-IsValid (tree_arm code) a v

    run_global_arm-IsValid :
        (m : GlobalArm) (code : KeyCode) (a : App C)
        → IsValid a
        → IsValid (run_global_arm ch m code a)
    run_global_arm-IsValid switch_focus code a v = v
    run_global_arm-IsValid start_search code a v = v
    run_global_arm-IsValid clear_pattern code a v =
        if_both IsValid (is_some a.pattern)
          (rescan-IsValid ch (record a { pattern = none; search_input = [] }) v) v
    run_global_arm-IsValid cycle_kind code a v =
        rescan-IsValid ch (record a { kind_filter = next_kind a.kind_filter }) v
    run_global_arm-IsValid more_keys code a v =
        if_both IsValid (not a.scan_complete)
          (unless_sent-IsValid ch (send ch more a) (λ b. record b { is_loading = true })
            (more_status ch) (send-IsValid ch more a v) (λ b w. w) (λ b w. w))
          v
    run_global_arm-IsValid expand code a v =
        if_both IsValid (leb (len a.tree) 5000)
          (rebuild-IsValid (record a { tree = expand_all a.tree }) (v.2, v.3)) v
    run_global_arm-IsValid collapse code a v =
        rebuild-IsValid (record a { tree = collapse_all a.tree }) (v.2, v.3)
    run_global_arm-IsValid below code a v = below_arms-IsValid a.focus code a v

    pub handle_keys_view_key-IsValid :
        (code : KeyCode) (a : App C) → IsValid a → IsValid (handle_keys_view_key ch code a)
    unfolding handle_keys_view_key
    handle_keys_view_key-IsValid code a v = run_global_arm-IsValid (global_arm code) code a v

    pub handle_search_key-IsValid :
        (code : KeyCode) (a : App C) → IsValid a → IsValid (handle_search_key ch code a)
    unfolding handle_search_key
    handle_search_key-IsValid esc a v = v
    handle_search_key-IsValid enter a v =
        rescan-IsValid ch
          (record a { mode = normal; pattern = search_pattern (trim a.search_input) }) v
    handle_search_key-IsValid backspace a v = v
    handle_search_key-IsValid (char c) a v = v
    handle_search_key-IsValid down a v = v
    handle_search_key-IsValid up a v = v
    handle_search_key-IsValid page_down a v = v
    handle_search_key-IsValid page_up a v = v
    handle_search_key-IsValid home a v = v
    handle_search_key-IsValid end_key a v = v
    handle_search_key-IsValid left_key a v = v
    handle_search_key-IsValid right_key a v = v
    handle_search_key-IsValid tab a v = v
    handle_search_key-IsValid other_code a v = v
