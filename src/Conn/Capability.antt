-- ===== src/Conn/Capability.antt =====
-- crates/keylens-conn/src/capability.rs: which features a server has, and what an error says of one.
use keylens.Base.{
  ℕ, Bool, true, false, ◌||◌, List, [], ◌∷◌, Option, none, some, if◌then◌else◌, ◌==◌,
}
use keylens.Base.Text.{Text, codes}
use keylens.Base.Lines.{to_lowercase, lines, trim}
use keylens.Conn.Error.{ClientError, contains}

-- `enum Availability`
pub data Availability : Type 0 where
  available : Availability
  denied : Text → Availability
  unsupported : Availability

-- `Availability::is_available`
abbrev pub is_available : Availability → Bool
is_available available = true
is_available _ = false

-- `Availability::reason`
abbrev pub reason : Availability → Option Text
reason available = none
reason (denied why) = some why
reason unsupported = some (codes "not implemented by this server")

-- `enum Feature`
pub data Feature : Type 0 where
  server_info config client_list slowlog memory_stats cluster modules_feature scan_type_filter
        get_range cursor_collection_scan streams_feature pub_sub :
      Feature

-- `Feature::ALL`
abbrev pub all_features : List Feature
all_features =
    server_info ∷ config ∷ client_list ∷ slowlog ∷ memory_stats ∷ cluster ∷ modules_feature
    ∷ scan_type_filter ∷ get_range ∷ cursor_collection_scan ∷ streams_feature ∷ pub_sub ∷ []

-- `Feature::label`
abbrev pub feature_label : Feature → Text
feature_label server_info = codes "INFO"
feature_label config = codes "CONFIG"
feature_label client_list = codes "CLIENT LIST"
feature_label slowlog = codes "SLOWLOG"
feature_label memory_stats = codes "MEMORY"
feature_label cluster = codes "CLUSTER"
feature_label modules_feature = codes "MODULE LIST"
feature_label scan_type_filter = codes "SCAN TYPE"
feature_label get_range = codes "GETRANGE"
feature_label cursor_collection_scan = codes "HSCAN/SSCAN"
feature_label streams_feature = codes "STREAMS"
feature_label pub_sub = codes "PUBSUB"

-- `Feature::affects`
abbrev affects : Feature → Text
affects server_info = codes "stats dashboard"
affects config = codes "nothing yet; a signal for how locked down this host is"
affects client_list = codes "clients pane"
affects slowlog = codes "slowlog pane"
affects memory_stats = codes "memory breakdown"
affects cluster = codes "cluster topology"
affects modules_feature = codes "module-backed viewers"
affects scan_type_filter = codes "server-side type filter"
affects get_range = codes "bounded string reads"
affects cursor_collection_scan = codes "bounded hash/set reads"
affects streams_feature = codes "stream + consumer group viewer"
affects pub_sub = codes "pub/sub pane"

-- The derived order of `Feature` is that of the declaration.
abbrev rank : Feature → ℕ
rank server_info = 0
rank config = 1
rank client_list = 2
rank slowlog = 3
rank memory_stats = 4
rank cluster = 5
rank modules_feature = 6
rank scan_type_filter = 7
rank get_range = 8
rank cursor_collection_scan = 9
rank streams_feature = 10
rank pub_sub = 11

abbrev pub feature_eq : Feature → Feature → Bool
feature_eq f g = rank f == rank g

-- `struct Capabilities`: the sorted map is a function.
pub record Capabilities : Type 0 where
  pub feature_map : Feature → Option Availability
  pub modules : List Text

-- `Capabilities::default`
abbrev pub no_capabilities : Capabilities
no_capabilities = record { feature_map = λ f. none; modules = [] }

-- `Capabilities::set`
unfoldable pub set_feature : Capabilities → Feature → Availability → Capabilities
set_feature c f a = record c {
  feature_map = λ g. if feature_eq f g then some a else c.feature_map g;
}

abbrev or_unsupported : Option Availability → Availability
or_unsupported none = unsupported
or_unsupported (some a) = a

-- `Capabilities::get` and `has`
unfoldable pub get_feature : Capabilities → Feature → Availability
get_feature c f = or_unsupported (c.feature_map f)

unfoldable pub has : Capabilities → Feature → Bool
unfolding get_feature
has c f = is_available (get_feature c f)

abbrev first_or : Text → List Text → Text
first_or msg [] = msg
first_or msg (l ∷ ls) = l

-- `classify`
unfoldable pub classify : ClientError → Availability
unfolding contains to_lowercase lines trim
classify e =
    let lower = to_lowercase e.details in
    if contains lower (codes "unknown command")
      || contains lower (codes "unknown subcommand")
      || contains lower (codes "not supported")
    then unsupported
    else if contains lower (codes "noperm")
        || contains lower (codes "no permissions")
        || contains lower (codes "not allowed")
        || contains lower (codes "disabled")
        || contains lower (codes "unauthorized")
        || contains lower (codes "restricted")
        || contains lower (codes "forbidden")
    then denied (trim (first_or e.details (lines e.details)))
    else available
