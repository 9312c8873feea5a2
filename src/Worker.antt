-- ===== src/Worker.antt =====
-- crates/keylens/src/worker.rs: the task that owns the connection. This module has the scan, a batch
-- at a time, and the typing of its keys.
pub mod Progress
pub mod Typing
pub mod Requests
pub mod Tasks
mod Examples
use keylens.Base.{
  ℕ, zero, suc, ◌+◌, Bool, true, false, not, ◌&&◌, List, [], ◌∷◌, ◌++◌, Option, none, some,
  if◌then◌else◌, length, take, drop, ltb, map, replicate,
}
use keylens.Base.Text.{Text, codes, is_empty}
use keylens.Conn.Kind.{Kind, kind_eq, kind_label, parse_kind}
use keylens.Conn.Value.{Value, text, Client, display_string}
use keylens.Conn.Error.{ConnError, reply_error, Result, ok, err}
use keylens.Conn.Capability.{has, scan_type_filter}
use keylens.Conn.Program.{Command, Program, done, attempt, ◌>>=◌}
use keylens.Conn.Command.{Conn, pipeline, ok_value}
use keylens.Conn.Scan.{Scanned, next_page}

-- `BATCH_TARGET`, `MAX_PAGES_PER_BATCH`, `SCAN_COUNT` and `MAX_TYPED`
abbrev pub batch_target : ℕ
batch_target = 500

abbrev pub max_pages_per_batch : ℕ
max_pages_per_batch = 40

abbrev pub scan_count : ℕ
scan_count = 500

abbrev pub max_typed : ℕ
max_typed = 1000

-- `struct Worker`, without its connection. The scanner is what it has yet to yield, and a task is
-- the number under which it was spawned.
pub record Worker : Type 0 where
  pub scanner : Option (List Scanned)
  pub pattern : Option Text
  pub kind : Option Kind
  pub is_complete : Bool
  pub prefix : Text
  pub detail_task : Option ℕ
  pub info_task : Option ℕ

abbrev or_bull : Option Text → Text
or_bull none = codes "bull"
or_bull (some p) = p

-- `Worker::with_prefix`
abbrev pub new_worker : Option Text → Worker
new_worker prefix = record {
  scanner = none;
  pattern = none;
  kind = none;
  is_complete = false;
  prefix = or_bull prefix;
  detail_task = none;
  info_task = none;
}

-- What the loop of `scan_batch` ends with: the keys of the batch and the number of its pages, or an
-- error.
pub data Gathered : Type 0 where
  gathered : List Text → ℕ → Gathered
  broken : ConnError → Gathered

abbrev finished : Worker → Worker
finished w = record w { is_complete = true }

-- The rest of a turn of the loop, behind `next_page`; `later` is the rest of the loop.
abbrev pub on_page :
    Result (Option (List Text))
    → Worker
    → List Text
    → ℕ
    → (Worker → List Text → Gathered × Worker)
    → Gathered × Worker
on_page (err e) w keys pages later = (broken e, w)
on_page (ok none) w keys pages later = (gathered keys pages, finished w)
on_page (ok (some page)) w keys pages later = later w (keys ++ page)

abbrev pub turn :
    Option (List Scanned)
    → Worker
    → List Text
    → ℕ
    → (Worker → List Text → Gathered × Worker)
    → Gathered × Worker
unfolding next_page
turn none w keys pages later = (gathered keys pages, finished w)
turn (some scan) w keys pages later =
    let (page, rest) = next_page scan in
    on_page page (record w { scanner = some rest }) keys pages later

-- The loop of `scan_batch`: `left` pages may be read yet, `pages` were read.
unfoldable pub gather : ℕ → Worker → List Text → ℕ → Gathered × Worker
unfolding next_page
gather zero w keys pages = (gathered keys pages, w)
gather (suc left) w keys pages =
    let next = turn w.scanner w keys pages (λ w' keys'. gather left w' keys' (suc pages)) in
    if ltb (length keys) batch_target && not w.is_complete then next else (gathered keys pages, w)

-- `server_type_filter`
abbrev label_of : Option Kind → Option Text
label_of none = none
label_of (some k) = some (kind_label k)

unfoldable pub server_type_filter : Conn → Worker → Option Text
unfolding has
server_type_filter conn w = if has conn.capabilities scan_type_filter then label_of w.kind else none

abbrev pub type_cmd : Text → Command
type_cmd key = (codes "TYPE", text key ∷ [])

abbrev pub typing_failed : Result Value
typing_failed = err (reply_error (codes "TYPE") (codes "typing batch failed"))

-- A result for each key of a chunk, whatever became of its pipeline.
abbrev pub or_failed : ℕ → Result (List (Result Value)) → List (Result Value)
or_failed n (ok replies) = replies
or_failed n (err e) = replicate n typing_failed

module _ (client : Client) where
  -- The loop of `type_keys` over the chunks, with fuel; each takes a key at least.
  unfoldable pub type_chunks : ℕ → Conn → List Text → Program (List (Result Value))
  unfolding pipeline
  type_chunks zero conn keys = done []
  type_chunks (suc fuel) conn [] = done []
  type_chunks (suc fuel) conn (k ∷ ks) =
      attempt (pipeline client conn (map type_cmd (take max_typed (k ∷ ks)))) >>= λ r.
      type_chunks fuel conn (drop max_typed (k ∷ ks)) >>= λ rest.
      done (or_failed (length (take max_typed (k ∷ ks))) r ++ rest)

  abbrev pub kind_of : Option Value → Option Kind
  kind_of none = none
  kind_of (some v) = some (parse_kind (display_string client v))

  abbrev pub is_wanted : Option Kind → Option Kind → Bool
  is_wanted none k = true
  is_wanted (some wanted) none = false
  is_wanted (some wanted) (some k) = kind_eq k wanted

  abbrev pub first_of : List (Result Value) → Option (Result Value)
  first_of [] = none
  first_of (r ∷ rs) = some r

  abbrev pub rest_of : List (Result Value) → List (Result Value)
  rest_of [] = []
  rest_of (r ∷ rs) = rs

  -- The keys with their types, where one key failing to type costs that key its tag, or, where a
  -- type was asked for, its place.
  unfoldable pub typed_from :
      Option Kind → List Text → List (Result Value) → List (Text × Option Kind)
  unfolding parse_kind display_string
  typed_from requested [] replies = []
  typed_from requested (key ∷ keys) replies =
      let kind = kind_of (ok_value (first_of replies)) in
      let rest = typed_from requested keys (rest_of replies) in
      if is_wanted requested kind then (key, kind) ∷ rest else rest

  abbrev pub tagged : Kind → Text → Text × Option Kind
  tagged k key = (key, some k)

  abbrev pub typed_by_server : Option Kind → Bool → Option Kind
  typed_by_server (some k) true = some k
  typed_by_server _ _ = none

  abbrev pub type_or_ask :
      Option Kind → Conn → Worker → List Text → Program (List (Text × Option Kind))
  type_or_ask (some k) conn w keys = done (map (tagged k) keys)
  type_or_ask none conn w keys =
      if is_empty keys
      then done []
      else (type_chunks (length keys) conn keys >>= λ replies.
          done (typed_from w.kind keys replies))

  -- `type_keys`
  unfoldable pub type_keys : Conn → Worker → List Text → Program (List (Text × Option Kind))
  unfolding type_chunks typed_from has
  type_keys conn w keys =
      type_or_ask (typed_by_server w.kind (has conn.capabilities scan_type_filter)) conn w keys
