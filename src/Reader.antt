-- ===== src/Reader.antt =====
-- crates/keylens/src/events.rs: the task that follows the events streams, and `entry_id_ms` of
-- crates/lenses/keylens-bullmq/src/events.rs.
pub mod Backoff
pub mod Cursor
pub mod Ceiling
mod Examples
use keylens.Base.{
  ℕ, zero, suc, ◌+◌, ◌-◌, ◌*◌, ◌^◌, min, Bool, true, false, not, ◌&&◌, List, [], ◌∷◌, ◌++◌, Option,
  none, some, leb, ◌==◌, if◌then◌else◌, set, get_elem?, ◌>>=◌, map,
}
use keylens.Base.Text.{or_empty, Text, codes, text_eq, is_empty}
use keylens.Base.Int.{ℤ, pos, negsuc, sub_ℕ}
use keylens.Base.Decimal.{signed}
use keylens.Conn.Value.{Value, array, map_value, Values, nil, cons, Entries, no_entry, entry}
use keylens.Base.Split.{split}
use keylens.BullMq.Events.{EventKind, parse_kind}
use keylens.BullMq.Events.Throughput.{StreamEvent, EventsStatus, unavailable, live}
use keylens.App.{Update, events_status, events}

abbrev max_consecutive_failures : ℕ
max_consecutive_failures = 5

-- `RETRY_BASE` and `RETRY_MAX` in milliseconds.
abbrev retry_base : ℕ
retry_base = 1000

abbrev retry_max : ℕ
retry_max = 8000

-- `retry_delay`: the shift is by 4 at most, so that neither it nor `saturating_mul` overflows.
unfoldable retry_delay : ℕ → ℕ
retry_delay failures = min (retry_base * 2 ^ (min failures 5 - 1)) retry_max

abbrev first_part : List Text → Option Text
first_part [] = none
first_part (p ∷ ps) = some p

-- `entry_id_ms`
unfoldable entry_id_ms : Text → Option ℤ
entry_id_ms id = do p ← first_part (split b'-' id); signed p

abbrev pub later : Option ℕ → Option ℕ
later none = none
later (some i) = some (suc i)

-- `keys.iter().position(|k| *k == key)`
abbrev key_position : Text → List Text → Option ℕ
key_position key [] = none
key_position key (k ∷ ks) = if text_eq k key then some 0 else later (key_position key ks)

-- The cursors and the events gathered so far.
pub record Progress : Type 0 where
  pub ids : List Text
  pub gathered : List StreamEvent

abbrev pushed : Text → ℤ → Option EventKind → List StreamEvent
pushed queue at_ms none = []
pushed queue at_ms (some k) = record { queue = queue; kind = k; at_ms = at_ms } ∷ []

-- `as_string` of the client's values.
module _ (as_string : Value → Option Text) where
  -- `as_text`
  abbrev as_text : Value → Text
  as_text v = or_empty (as_string v)

  -- The streams of a reply, in either of the two shapes.
  abbrev array_streams : Values → List (Text × Value)
  array_streams nil = []
  array_streams (cons (array (cons k (cons v nil))) r) = (as_text k, v) ∷ array_streams r
  array_streams (cons _ r) = array_streams r

  abbrev map_streams : Entries → List (Text × Value)
  map_streams no_entry = []
  map_streams (entry k v r) = (or_empty k, v) ∷ map_streams r

  abbrev streams : Value → List (Text × Value)
  streams (array items) = array_streams items
  streams (map_value es) = map_streams es
  streams _ = []

  -- The `find` over the pairs of fields.
  abbrev find_kind : Values → Option EventKind
  find_kind (cons name (cons v r)) =
      if text_eq (as_text name) (codes "event") then some (parse_kind (as_text v)) else find_kind r
  find_kind _ = none

  abbrev event_of : Text → Option ℤ → Value → List StreamEvent
  event_of queue (some at_ms) (array fields) = pushed queue at_ms (find_kind fields)
  event_of queue _ _ = []

  -- One entry of the stream at index `idx`, whose queue is `queue`.
  unfoldable read_entry : ℕ → Text → Value → Progress → Progress
  unfolding entry_id_ms
  read_entry idx queue (array (cons id (cons fields nil))) p = record {
    ids = set p.ids idx (as_text id);
    gathered = p.gathered ++ event_of queue (entry_id_ms (as_text id)) fields;
  }
  read_entry idx queue _ p = p

  unfoldable read_entries : ℕ → Text → Values → Progress → Progress
  unfolding read_entry
  read_entries idx queue nil p = p
  read_entries idx queue (cons e es) p = read_entries idx queue es (read_entry idx queue e p)

  -- The body of the loop over the streams. The lists of keys, queues and cursors are equally long.
  abbrev read_stream : List Text → Option ℕ → Value → Progress → Progress
  read_stream queues (some idx) (array es) p =
      read_entries idx (or_empty (get_elem? queues idx)) es p
  read_stream queues _ _ p = p

  unfoldable read_streams : List Text → List Text → List (Text × Value) → Progress → Progress
  unfolding read_entries
  read_streams keys queues [] p = p
  read_streams keys queues ((key, v) ∷ r) p =
      read_streams keys queues r (read_stream queues (key_position key keys) v p)

  -- `parse_xread`
  unfoldable parse_xread : Value → List Text → List Text → List Text → Progress
  unfolding read_streams
  parse_xread reply keys queues ids =
      read_streams keys queues (streams reply) (record { ids = ids; gathered = [] })

-- What a read answers: a reply, or the text of an error.
pub data Read : Type 0 where
  reply : Value → Read
  error : Text → Read

-- The state of the loop of `run`, the updates sent, and the delays slept.
pub record Loop : Type 0 where
  pub cursors : List Text
  pub failures : ℕ
  pub sent_updates : List Update
  pub delays : List ℕ
  pub running : Bool

module _ (as_string : Value → Option Text) (keys queues : List Text) where
  -- The rest of a turn behind `parse_xread`: `open` tells whether the UI still receives.
  abbrev pass_on : List StreamEvent → Bool → Loop → Loop
  pass_on [] open_ui l = l
  pass_on (e ∷ es) open_ui l =
      if open_ui
      then record l { sent_updates = l.sent_updates ++ events (e ∷ es) ∷ [] }
      else record l { running = false }

  -- One turn of the loop.
  unfoldable turn : Read → Bool → Loop → Loop
  unfolding parse_xread retry_delay
  turn (error e) open_ui l =
      if leb max_consecutive_failures (l.failures + 1)
      then record l {
        failures = l.failures + 1;
        sent_updates =
            if open_ui
            then l.sent_updates ++ events_status (unavailable e) ∷ []
            else l.sent_updates;
        running = false;
      }
      else record l {
        failures = l.failures + 1;
        delays = l.delays ++ retry_delay (l.failures + 1) ∷ [];
      }
  turn (reply v) open_ui l =
      let p = parse_xread as_string v keys queues l.cursors in
      pass_on p.gathered open_ui (record l { cursors = p.ids; failures = 0 })

  -- The loop on a sequence of reads.
  unfoldable run : List (Read × Bool) → Loop → Loop
  unfolding turn
  run [] l = l
  run ((r, open_ui) ∷ rs) l = if l.running then run rs (turn r open_ui l) else l

-- The state in which the loop starts.
unfoldable loop_start : List Text → Loop
loop_start queues = record {
  cursors = map (λ (q : Text). codes "$") queues;
  failures = 0;
  sent_updates = events_status live ∷ [];
  delays = [];
  running = true;
}
