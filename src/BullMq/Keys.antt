-- ===== src/BullMq/Keys.antt =====
-- crates/lenses/keylens-bullmq/src/keys.rs: the layout of BullMQ's Redis keys.
pub mod RoundTrip
pub mod Layout
use keylens.Base.{
  ℕ, Bool, true, false, not, ◌&&◌, List, [], ◌∷◌, ◌++◌, Option, none, some, if◌then◌else◌, ◌>>=◌,
  ◌==◌,
}
use keylens.Base.Text.{Text, codes, is_empty, text_eq}
use keylens.Base.Find.{strip_prefix, rsplit_once_char}

-- `enum State`
pub data State : Type 0 where
  waiting active prioritized delayed waiting_children completed failed : State

-- `State::ALL`
abbrev pub all_states : List State
all_states = waiting ∷ active ∷ prioritized ∷ delayed ∷ waiting_children ∷ completed ∷ failed ∷ []

-- `State::suffix`
abbrev pub suffix : State → Text
suffix waiting = codes "wait"
suffix active = codes "active"
suffix prioritized = codes "prioritized"
suffix delayed = codes "delayed"
suffix waiting_children = codes "waiting-children"
suffix completed = codes "completed"
suffix failed = codes "failed"

-- `State::label`
abbrev state_label : State → Text
state_label waiting = codes "waiting"
state_label active = codes "active"
state_label prioritized = codes "prioritized"
state_label delayed = codes "delayed"
state_label waiting_children = codes "waiting-children"
state_label completed = codes "completed"
state_label failed = codes "failed"

-- `State::short_label`
abbrev short_label : State → Text
short_label waiting = codes "wait"
short_label active = codes "active"
short_label prioritized = codes "prio"
short_label delayed = codes "delayed"
short_label waiting_children = codes "children"
short_label completed = codes "done"
short_label failed = codes "failed"

-- `State::score_label`
abbrev score_label : State → Text
score_label waiting = codes "position"
score_label active = codes "position"
score_label completed = codes "finished"
score_label failed = codes "finished"
score_label delayed = codes "due"
score_label prioritized = codes "priority"
score_label waiting_children = codes "added"

-- `State::is_list_backed`
abbrev pub is_list_backed : State → Bool
is_list_backed waiting = true
is_list_backed active = true
is_list_backed _ = false

-- `State::count_cmd`
abbrev pub count_cmd : State → Text
count_cmd s = if is_list_backed s then codes "LLEN" else codes "ZCARD"

-- `QUEUE_KEYS`: each suffix of a key of a queue, and its Redis type.
abbrev pub queue_keys : List (Text × Text)
queue_keys =
    (codes "active", codes "list")
    ∷ (codes "wait", codes "list")
    ∷ (codes "waiting-children", codes "zset")
    ∷ (codes "paused", codes "list")
    ∷ (codes "id", codes "string")
    ∷ (codes "delayed", codes "zset")
    ∷ (codes "prioritized", codes "zset")
    ∷ (codes "stalled-check", codes "string")
    ∷ (codes "completed", codes "zset")
    ∷ (codes "failed", codes "zset")
    ∷ (codes "stalled", codes "set")
    ∷ (codes "repeat", codes "zset")
    ∷ (codes "limiter", codes "string")
    ∷ (codes "meta", codes "hash")
    ∷ (codes "events", codes "stream")
    ∷ (codes "pc", codes "string")
    ∷ (codes "marker", codes "zset")
    ∷ (codes "de", codes "hash")
    ∷ []

-- `struct QueueKeys`
pub record QueueKeys : Type 0 where
  pub prefix : Text
  pub name : Text

abbrev colon : Text
colon = codes ":"

-- `QueueKeys::base`, `key`, `state`, `meta`, `events`, `job` and `job_logs`
unfoldable pub base : QueueKeys → Text
base q = q.prefix ++ (colon ++ q.name)

unfoldable pub key : QueueKeys → Text → Text
unfolding base
key q s = base q ++ (colon ++ s)

unfoldable pub state_key : QueueKeys → State → Text
state_key q s = key q (suffix s)

unfoldable pub meta_key : QueueKeys → Text
meta_key q = key q (codes "meta")

unfoldable events_key : QueueKeys → Text
events_key q = key q (codes "events")

unfoldable pub job_key : QueueKeys → Text → Text
job_key q id = key q id

unfoldable pub job_logs_key : QueueKeys → Text → Text
unfolding base
job_logs_key q id = base q ++ (colon ++ (id ++ codes ":logs"))

abbrev kept_first : ℕ → Option Text → Option Text
kept_first x none = none
kept_first x (some s) = some (x ∷ s)

-- `s.strip_suffix(end)`
unfoldable strip_suffix : Text → Text → Option Text
strip_suffix end [] = if is_empty end then some [] else none
strip_suffix end (x ∷ s) =
    let rest = strip_suffix end s in if text_eq (x ∷ s) end then some [] else kept_first x rest

-- `queue_name_from_meta_key`
unfoldable pub queue_name_from_meta_key : Text → Text → Option Text
unfolding strip_prefix strip_suffix
queue_name_from_meta_key prefix key = do
  rest ← strip_prefix (prefix ++ colon) key
  name ← strip_suffix (codes ":meta") rest
  if is_empty name then none else some name

-- `parse_meta_version`
unfoldable pub parse_meta_version : Text → Option (Text × Text)
unfolding rsplit_once_char
parse_meta_version raw = do
  (lib, ver) ← rsplit_once_char b':' raw
  if not (is_empty lib) && not (is_empty ver) then some (lib, ver) else none

-- `is_paused`
unfoldable pub is_paused : Option Text → Bool
is_paused none = false
is_paused (some v) = not (text_eq v (codes "0")) && not (is_empty v)
