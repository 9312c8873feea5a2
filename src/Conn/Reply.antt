-- ===== src/Conn/Reply.antt =====
-- What the server's replies are parsed into: the data types of crates/keylens-conn/src/value.rs,
-- stream.rs, server_info.rs and server.rs. An `f64` is its bits, which nothing here looks into.
use keylens.Base.{ℕ, Bool, List, Option}
use keylens.Base.Text.{Text}
use keylens.Base.Int.{ℤ}
use keylens.Conn.Kind.{Kind}

abbrev pub F64 : Type 0
F64 = ℕ

-- `struct KeyMeta`
pub record KeyMeta : Type 0 where
  pub key : Text
  pub kind : Kind
  pub ttl_ms : Option ℤ
  pub size : ℕ
  pub memory : Option ℕ

-- `struct StreamEntry`
pub record StreamEntry : Type 0 where
  pub id : Text
  pub entry_fields : List (Text × Text)

-- `enum KeyValue`
pub data KeyValue : Type 0 where
  string_value : Text → KeyValue
  hash_value : List (Text × Text) → KeyValue
  list_value : List Text → KeyValue
  set_value : List Text → KeyValue
  zset_value : List (Text × F64) → KeyValue
  stream_value : List StreamEntry → KeyValue
  missing : KeyValue
  unsupported : Text → KeyValue

-- `struct ConsumerInfo`
pub record ConsumerInfo : Type 0 where
  pub name : Text
  pub pending : ℕ
  pub idle_ms : ℤ
  pub inactive_ms : Option ℤ

-- `struct GroupInfo`
pub record GroupInfo : Type 0 where
  pub name : Text
  pub consumer_count : ℕ
  pub pending : ℕ
  pub last_delivered_id : Text
  pub entries_read : Option ℤ
  pub lag : Option ℤ
  pub consumers : List ConsumerInfo
  pub pending_min_id : Text
  pub pending_max_id : Text

-- `struct StreamInfo`
pub record StreamInfo : Type 0 where
  pub stream_length : ℕ
  pub entries_added : Option ℕ
  pub last_generated_id : Text
  pub max_deleted_id : Text
  pub first_entry_id : Text
  pub groups : List GroupInfo
  pub groups_truncated : Bool

-- `enum Vendor`
pub data Vendor : Type 0 where
  redis valkey dragonfly key_db garnet recached : Vendor
  unknown : Text → Vendor

-- `struct ServerInfo`. The sorted map of fields is the list of its entries.
pub record ServerInfo : Type 0 where
  pub vendor : Vendor
  pub version : Text
  pub server_mode : Text
  pub info_fields : List (Text × Text)

-- `struct SlowEntry`
pub record SlowEntry : Type 0 where
  pub id : ℤ
  pub timestamp : ℤ
  pub duration_us : ℕ
  pub command : Text
  pub client_addr : Text
  pub client_name : Text

-- `struct ClientInfo`
pub record ClientInfo : Type 0 where
  pub id : Text
  pub addr : Text
  pub name : Text
  pub age : ℕ
  pub idle : ℕ
  pub db : Text
  pub cmd : Text
  pub sub : ℕ

-- `struct ClusterNode`
pub record ClusterNode : Type 0 where
  pub id : Text
  pub addr : Text
  pub flags : Text
  pub master : Bool
  pub link_state : Text
  pub slots : List Text
  pub myself : Bool

-- `struct ClusterTopology`
pub record ClusterTopology : Type 0 where
  pub enabled : Bool
  pub state : Text
  pub slots_assigned : ℕ
  pub known_nodes : ℕ
  pub size : ℕ
  pub nodes : List ClusterNode

-- `struct PubSubChannel`
pub record PubSubChannel : Type 0 where
  pub name : Text
  pub subscribers : ℕ
