-- ===== src/App.antt =====
-- crates/keylens/src/app.rs: the state of the terminal application and the messages it exchanges
-- with the worker (crates/keylens/src/worker.rs). `&mut self` is a state passed in and returned.
pub mod Ops
pub mod Apply
pub mod Load
pub mod Input
pub mod Queues
pub mod Keys
pub mod Handle
pub mod Invariant
pub mod Digits
pub mod Selection
mod Examples
use keylens.Base.{ℕ, Bool, true, false, List, [], ◌∷◌, ◌++◌, Option, none, some, ◌≡◌, ◌≢◌}
use keylens.Base.Text.{Text, codes}
use keylens.Base.Int.{ℤ}
use keylens.Conn.Kind.{Kind, string, hash, list, set, zset, stream}
use keylens.Conn.Reply.{
  KeyMeta, KeyValue, StreamInfo, ServerInfo, SlowEntry, ClientInfo, ClusterTopology, PubSubChannel,
}
use keylens.Conn.Url.{redact_url}
use keylens.Ui.Tree.{KeyTree, new}
use keylens.Ui.Tree.Rows.{Row}
use keylens.Ui.Pane.{PaneState, idle, failed_with}
use keylens.BullMq.Keys.{State, failed}
use keylens.BullMq.Job.{JobRef, Job, QueueSummary}
use keylens.BullMq.Events.Throughput.{Throughput, default_throughput, EventsStatus, StreamEvent}
use keylens.Lens.{Detection}

-- `enum View`
pub data View : Type 0 where
  keys queues stats slowlog clients cluster pub_sub : View

-- `View::ALL`
abbrev all_views : List View
all_views = keys ∷ queues ∷ stats ∷ slowlog ∷ clients ∷ cluster ∷ pub_sub ∷ []

-- `View::label`
abbrev view_label : View → Text
view_label keys = codes "keys"
view_label queues = codes "queues"
view_label stats = codes "stats"
view_label slowlog = codes "slowlog"
view_label clients = codes "clients"
view_label cluster = codes "cluster"
view_label pub_sub = codes "pubsub"

-- `enum QueueLevel`
pub data QueueLevel : Type 0 where
  at_queues at_jobs at_job : QueueLevel

-- `enum Focus`
pub data Focus : Type 0 where
  on_tree on_value : Focus

-- `enum Mode`
pub data Mode : Type 0 where
  normal search_mode help : Mode

-- `KIND_CYCLE`
abbrev kind_cycle : List (Option Kind)
kind_cycle = none ∷ some string ∷ some hash ∷ some list ∷ some set ∷ some zset ∷ some stream ∷ []

-- `worker_busy`
abbrev worker_busy : {T : Type 0} → PaneState T
worker_busy = failed_with (codes "worker busy — press r to retry")

-- `enum Request`
pub data Request : Type 0 where
  rescan_request : Option Text → Option Kind → Request
  more : Request
  select : Text → Request
  refresh_info load_slowlog load_clients load_cluster load_pub_sub detect load_queues : Request
  load_jobs_request : Text → State → Request
  load_job_request : Text → Text → Request

-- `struct JobDetail`
pub record JobDetail : Type 0 where
  pub job : Job
  pub logs : List Text

-- `enum Update`
pub data Update : Type 0 where
  -- keys, reset, complete, scanned_pages
  batch : List (Text × Option Kind) → Bool → Bool → ℕ → Update
  -- meta, value, stream
  detail_update : KeyMeta → KeyValue → Option StreamInfo → Update
  info : ServerInfo → Update
  error_update : Text → Update
  slowlog_update : PaneState (List SlowEntry) → Update
  clients_update : PaneState (List ClientInfo) → Update
  cluster_update : PaneState ClusterTopology → Update
  pub_sub_update : PaneState (List PubSubChannel) → Update
  detected : List Detection → Update
  events_status : EventsStatus → Update
  events : List StreamEvent → Update
  queues_update : PaneState (List QueueSummary) → Update
  jobs_update : State → PaneState (List JobRef) → Update
  job_update : PaneState (Option JobDetail) → Update

-- What `Sender::try_send` of tokio's bounded channel answers.
pub data SendResult : Type 0 where
  sent full closed : SendResult

-- The sending half of the channel, which tokio provides: a request is queued behind the earlier
-- ones or handed back, and `queued` is the list of those accepted since the channel was made.
pub record Channel (C : Type 0) : Type 0 where
  pub try_send : Request → C → SendResult × C
  pub queued : C → List Request
  pub try_send_sent :
      (r : Request) (c : C) → (try_send r c).0 ≡ sent → queued (try_send r c).1 ≡ queued c ++ r ∷ []
  pub try_send_refused :
      (r : Request) (c : C) → (try_send r c).0 ≢ sent → queued (try_send r c).1 ≡ queued c

-- `struct App`, with `list_state`, which only the renderer reads, left out.
pub record App (C : Type 0) : Type 0 where
  pub tree : KeyTree
  pub rows : List Row
  pub selected : ℕ
  pub detail : Option (KeyMeta × KeyValue)
  pub stream_info : Option StreamInfo
  pub detail_scroll : ℕ
  pub pending_key : Option Text
  pub selection_dirty : Bool
  pub focus : Focus
  pub mode : Mode
  pub search_input : Text
  pub pattern : Option Text
  pub kind_filter : Option Kind
  pub view : View
  pub pane_scroll : ℕ
  pub slowlog_pane : PaneState (List SlowEntry)
  pub clients_pane : PaneState (List ClientInfo)
  pub cluster_pane : PaneState ClusterTopology
  pub pub_sub_pane : PaneState (List PubSubChannel)
  pub detections : List Detection
  pub level : QueueLevel
  pub queues_pane : PaneState (List QueueSummary)
  pub queue_selected : ℕ
  pub job_state : State
  pub jobs_pane : PaneState (List JobRef)
  pub job_selected : ℕ
  pub job_pane : PaneState (Option JobDetail)
  pub throughput : Throughput
  pub server : ServerInfo
  pub url : Text
  pub status : Text
  pub error : Option Text
  pub is_loading : Bool
  pub scan_complete : Bool
  pub splash : Bool
  pub quit : Bool
  pub tx : C

-- `App::new`
unfoldable new_app : {C : Type 0} → ServerInfo → Text → C → App C
new_app server url tx = record {
  tree = new;
  rows = [];
  selected = 0;
  detail = none;
  stream_info = none;
  detail_scroll = 0;
  pending_key = none;
  selection_dirty = false;
  focus = on_tree;
  mode = normal;
  search_input = [];
  pattern = none;
  kind_filter = none;
  view = keys;
  pane_scroll = 0;
  slowlog_pane = idle;
  clients_pane = idle;
  cluster_pane = idle;
  pub_sub_pane = idle;
  detections = [];
  level = at_queues;
  queues_pane = idle;
  queue_selected = 0;
  job_state = failed;
  jobs_pane = idle;
  job_selected = 0;
  job_pane = idle;
  throughput = default_throughput;
  server = server;
  url = redact_url url;
  status = codes "scanning keyspace…";
  error = none;
  is_loading = true;
  scan_complete = false;
  splash = true;
  quit = false;
  tx = tx;
}
