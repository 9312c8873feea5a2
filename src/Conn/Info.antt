-- ===== src/Conn/Info.antt =====
-- crates/keylens-conn/src/server_info.rs: what `INFO` says of a server. Not here: `get_f64` and
-- `hit_rate`, which compute floats.
pub mod Fields
use keylens.Base.{
  ℕ, Bool, ◌||◌, List, [], ◌∷◌, Option, none, some, if◌then◌else◌, is_some, Ordering, ◌>>=◌, ◌==◌,
}
use keylens.Base.Text.{Text, codes, text_eq, is_empty, compare_text}
use keylens.Base.Lines.{lines, trim, to_lowercase}
use keylens.Base.Decimal.{parse_u64}
use keylens.Base.Find.{split_once_char}
use keylens.Conn.Reply.{
  Vendor, redis, valkey, dragonfly, key_db, garnet, recached, unknown, ServerInfo,
}

-- The fields of an `INFO`, sorted by their names.
abbrev pub Fields : Type 0
Fields = List (Text × Text)

-- `BTreeMap::insert`
unfoldable pub insert_field : Text → Text → Fields → Fields
unfolding compare_text
insert_field k v [] = (k, v) ∷ []
insert_field k v ((l, w) ∷ r) = elim (compare_text k l) [
  | Ordering.lt ↦ (k, v) ∷ (l, w) ∷ r
  | Ordering.eq ↦ (k, v) ∷ r
  | Ordering.gt ↦ (l, w) ∷ insert_field k v r
]

-- `BTreeMap::get`
unfoldable pub lookup_field : Text → Fields → Option Text
lookup_field k [] = none
lookup_field k ((l, w) ∷ r) = if text_eq l k then some w else lookup_field k r

-- `Vendor::label`
abbrev vendor_label : Vendor → Text
vendor_label redis = codes "Redis"
vendor_label valkey = codes "Valkey"
vendor_label dragonfly = codes "Dragonfly"
vendor_label key_db = codes "KeyDB"
vendor_label garnet = codes "Garnet"
vendor_label recached = codes "Recached"
vendor_label (unknown s) = s

-- `ServerInfo::unknown`
abbrev pub unknown_server : ServerInfo
unknown_server = record {
  vendor = unknown (codes "unknown");
  version = codes "unknown";
  server_mode = codes "standalone";
  info_fields = [];
}

abbrev is_comment : Text → Bool
is_comment [] = Bool.false
is_comment (c ∷ s) = c == b'#'

abbrev add_split : Option (Text × Text) → Fields → Fields
unfolding insert_field
add_split none fields = fields
add_split (some (k, v)) fields = insert_field k v fields

-- The body of the loop of `parse` over the lines.
unfoldable pub add_line : Text → Fields → Fields
unfolding trim insert_field split_once_char
add_line line fields =
    let line' = trim line in
    if is_empty line' || is_comment line'
    then fields
    else add_split (split_once_char b':' line') fields

unfoldable pub add_lines : List Text → Fields → Fields
unfolding add_line
add_lines [] fields = fields
add_lines (l ∷ ls) fields = add_lines ls (add_line l fields)

abbrev vendor_named : Text → Vendor
vendor_named name =
    if text_eq name (codes "valkey")
    then valkey
    else if text_eq name (codes "redis")
    then redis
    else if text_eq name (codes "dragonfly")
    then dragonfly
    else if text_eq name (codes "keydb")
    then key_db
    else if text_eq name (codes "garnet")
    then garnet
    else if text_eq name (codes "recached")
    then recached
    else unknown name

abbrev contains_key : Text → Fields → Bool
unfolding lookup_field
contains_key k fields = is_some (lookup_field k fields)

-- `detect_vendor` behind its first test.
unfoldable pub vendor_by_version : Fields → Vendor
unfolding lookup_field
vendor_by_version fields =
    if contains_key (codes "valkey_version") fields
    then valkey
    else if contains_key (codes "dragonfly_version") fields
    then dragonfly
    else if contains_key (codes "keydb_version") fields || contains_key (codes "mvcc_depth") fields
    then key_db
    else if contains_key (codes "garnet_version") fields
    then garnet
    else if contains_key (codes "recached_version") fields
    then recached
    else if contains_key (codes "redis_version") fields
    then redis
    else unknown (codes "unknown")

abbrev named_or : Option Text → Vendor → Vendor
unfolding to_lowercase
named_or (some name) otherwise = vendor_named (to_lowercase name)
named_or none otherwise = otherwise

-- `detect_vendor`
unfoldable pub detect_vendor : Fields → Vendor
unfolding lookup_field vendor_by_version to_lowercase
detect_vendor fields =
    named_or (lookup_field (codes "server_name") fields) (vendor_by_version fields)

abbrev first_of : Option Text → Option Text → Text → Text
first_of (some s) b default = s
first_of none (some s) default = s
first_of none none default = default

-- `ServerInfo::parse`
unfoldable pub parse_info : Text → ServerInfo
unfolding lines add_lines detect_vendor lookup_field
parse_info raw =
    let fields = add_lines (lines raw) [] in
    record {
      vendor = detect_vendor fields;
      version =
          first_of (lookup_field (codes "valkey_version") fields)
            (lookup_field (codes "redis_version") fields) (codes "unknown");
      server_mode =
          first_of (lookup_field (codes "redis_mode") fields)
            (lookup_field (codes "server_mode") fields) (codes "standalone");
      info_fields = fields;
    }

-- `ServerInfo::get` and `get_u64`
unfoldable pub get_info : ServerInfo → Text → Option Text
unfolding lookup_field
get_info s key = lookup_field key s.info_fields

unfoldable pub get_u64 : ServerInfo → Text → Option ℕ
unfolding get_info parse_u64
get_u64 s key = do v ← get_info s key; parse_u64 v
