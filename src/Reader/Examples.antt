-- ===== src/Reader/Examples.antt =====
-- The reader on a reply of one stream, and against a server that refuses to read.
use keylens.Base.{
  ◌≡◌, refl, Bool, true, false, List, [], ◌∷◌, Option, none, some, arith, get_elem?, map,
}
use keylens.Base.Text.{Text, codes, compare_text}
use keylens.Base.Int.{pos}
use keylens.Base.Split.{split}
use keylens.BullMq.Events.Throughput.{StreamEvent}
use keylens.Conn.Value.{Value, array, map_value, text, nil, cons, entry, no_entry}
use keylens.Reader.{
  Loop, loop_start, run, turn, retry_delay, entry_id_ms, parse_xread, read_streams, read_entries,
  read_entry,
}
use keylens.Reader.Cursor.{cursor_advances}
use keylens.Reader.Ceiling.{IsBelow, refusals, gives_up}

abbrev text_value : Value → Option Text
text_value (text s) = some s
text_value _ = none

abbrev stream_key : Text
stream_key = codes "bull:a:events"

abbrev odd_entry : Value
odd_entry = array (cons (text (codes "7-0")) (cons (text []) nil))

abbrev completed_entry : Value
completed_entry = array (
    cons (text (codes "1500-0"))
      (cons (array (cons (text (codes "event")) (cons (text (codes "completed")) nil))) nil))

abbrev a_reply : Value
a_reply = array (
    cons
      (array
        (cons (text stream_key) (cons (array (cons completed_entry (cons odd_entry nil))) nil)))
      nil)

one_event :
    map
      (λ (e : StreamEvent). e.at_ms)
      (parse_xread text_value a_reply (stream_key ∷ []) (codes "a" ∷ []) (codes "$" ∷ [])).gathered
    ≡ pos 1500 ∷ []
unfolding parse_xread read_streams read_entries read_entry entry_id_ms compare_text split
one_event = refl

abbrev a_map_reply : Value
a_map_reply =
    map_value (entry (some stream_key) (array (cons completed_entry (cons odd_entry nil))) no_entry)

cursor_advances_example :
    (get_elem?
        (parse_xread text_value a_reply (stream_key ∷ []) (codes "a" ∷ []) (codes "$" ∷ [])).ids
        0
      ≡ some (codes "7-0"))
    × (get_elem?
          (parse_xread text_value a_map_reply
            (stream_key ∷ [])
            (codes "a" ∷ [])
            (codes "$" ∷ [])).ids
          0
        ≡ some (codes "7-0"))
unfolding compare_text
cursor_advances_example =
    cursor_advances text_value (stream_key ∷ []) (codes "a" ∷ []) (codes "$" ∷ []) (text stream_key)
      0 (cons completed_entry nil) (text (codes "7-0")) (text []) refl (omega arith)

abbrev refused : List (Text × Bool)
refused =
    (codes "NOPERM", true)
    ∷ (codes "NOPERM", true)
    ∷ (codes "NOPERM", true)
    ∷ (codes "NOPERM", true)
    ∷ (codes "NOPERM", true)
    ∷ []

abbrev watching_a : Loop
watching_a = loop_start (codes "a" ∷ [])

start-IsBelow : IsBelow watching_a
unfolding loop_start
start-IsBelow h = omega arith

gives_up_example :
    (run text_value (stream_key ∷ []) (codes "a" ∷ []) (refusals refused) watching_a).running
    ≡ false
gives_up_example =
    gives_up text_value (stream_key ∷ []) (codes "a" ∷ []) refused watching_a start-IsBelow
      (omega arith)

slept :
    (run text_value (stream_key ∷ []) (codes "a" ∷ []) (refusals refused) watching_a).delays
    ≡ 1000 ∷ 2000 ∷ 4000 ∷ 8000 ∷ []
unfolding run turn retry_delay loop_start
slept = refl
