-- ===== src/App/Invariant/Loop.antt =====
-- The event loop: any sequence of keys, updates and idle ticks keeps the invariant of the state.
use keylens.Base.{true, false, Option, none, some}
use keylens.Base.Text.{Text}
use keylens.Conn.Reply.{ServerInfo}
use keylens.App.{
  App, Channel, Update, Mode, normal, search_mode, help, View, keys, queues, stats, slowlog,
  clients, cluster, pub_sub, new_app,
}
use keylens.App.Ops.{flush_selection, view_from_digit}
use keylens.App.Apply.{apply}
use keylens.App.Input.{KeyCode, KeyEvent}
use keylens.App.Handle.{
  CommonArm, quit_arm, help_arm, reload, elsewhere, digit, handle_pane_key, handle_view_key,
  goto_found, run_common_arm, common_arm, handle_normal_key, handle_in_mode, is_ctrl_c, handle_key,
}
use keylens.App.Invariant.{
  IsValid, if_both, apply-IsValid, new_app-IsValid, flush_selection-IsValid,
}
use keylens.App.Invariant.Tabs.{load_view-IsValid, goto-IsValid, handle_queues_key-IsValid}
use keylens.App.Invariant.Browse.{handle_keys_view_key-IsValid, handle_search_key-IsValid}

module _ {C : Type 0} (ch : Channel C) where
  handle_view_key-IsValid :
      (w : View) (code : KeyCode) (a : App C) → IsValid a → IsValid (handle_view_key ch w code a)
  unfolding handle_pane_key
  handle_view_key-IsValid keys code a v = handle_keys_view_key-IsValid ch code a v
  handle_view_key-IsValid queues code a v = handle_queues_key-IsValid ch code a v
  handle_view_key-IsValid stats code a v = v
  handle_view_key-IsValid slowlog code a v = v
  handle_view_key-IsValid clients code a v = v
  handle_view_key-IsValid cluster code a v = v
  handle_view_key-IsValid pub_sub code a v = v

  goto_found-IsValid : (o : Option View) (a : App C) → IsValid a → IsValid (goto_found ch o a)
  goto_found-IsValid none a v = v
  goto_found-IsValid (some w) a v = goto-IsValid ch w a v

  run_common_arm-IsValid :
      (m : CommonArm) (code : KeyCode) (a : App C)
      → IsValid a
      → IsValid (run_common_arm ch m code a)
  run_common_arm-IsValid quit_arm code a v = v
  run_common_arm-IsValid help_arm code a v = v
  run_common_arm-IsValid (digit c) code a v = goto_found-IsValid (view_from_digit c a) a v
  run_common_arm-IsValid reload code a v = load_view-IsValid ch true a v
  run_common_arm-IsValid elsewhere code a v = handle_view_key-IsValid a.view code a v

  handle_in_mode-IsValid :
      (m : Mode) (code : KeyCode) (a : App C) → IsValid a → IsValid (handle_in_mode ch m code a)
  unfolding handle_normal_key
  handle_in_mode-IsValid help code a v = v
  handle_in_mode-IsValid search_mode code a v = handle_search_key-IsValid ch code a v
  handle_in_mode-IsValid normal code a v = run_common_arm-IsValid (common_arm code) code a v

  pub handle_key-IsValid : (e : KeyEvent) (a : App C) → IsValid a → IsValid (handle_key ch e a)
  unfolding handle_key
  handle_key-IsValid e a v =
      if_both IsValid (is_ctrl_c ch e) v
        (handle_in_mode-IsValid a.mode e.code (record a { splash = false }) v)

  -- What the event loop reacts to: a key, an update, or input that has gone quiet.
  pub data Event : Type 0 where
    key : KeyEvent → Event
    update : Update → Event
    quiet : Event

  abbrev react : Event → App C → App C
  react (key e) a = handle_key ch e a
  react (update u) a = apply u a
  react quiet a = flush_selection ch a

  react-IsValid : (e : Event) (a : App C) → IsValid a → IsValid (react e a)
  react-IsValid (key e) a v = handle_key-IsValid e a v
  react-IsValid (update u) a v = apply-IsValid u a v
  react-IsValid quiet a v = flush_selection-IsValid ch a v

  -- The states that the loop reaches from a start state.
  pub data Reaches (a : App C) : App C → Type 0 where
    start : Reaches a a
    next : (b : App C) (e : Event) → Reaches a b → Reaches a (react e b)

  Reaches-IsValid : (a b : App C) → Reaches a b → IsValid a → IsValid b
  Reaches-IsValid a _ start v = v
  Reaches-IsValid a _ (next b e h) v = react-IsValid e b (Reaches-IsValid a b h v)

  -- In every state that the application reaches, whatever keys, updates and answers of the channel
  -- come in any order, the rows shown are those of the tree and the three cursors lie in their
  -- lists.
  pub reachable-IsValid :
      (server : ServerInfo) (url : Text) (tx : C) (b : App C)
      → Reaches (new_app server url tx) b
      → IsValid b
  reachable-IsValid server url tx b h =
      Reaches-IsValid (new_app server url tx) b h (new_app-IsValid server url tx)
