-- ===== src/Conn/Listings.antt =====
-- crates/keylens-conn/src/server.rs: the texts that `CLIENT LIST`, `CLUSTER INFO` and `CLUSTER NODES`
-- answer.
use keylens.Base.{ℕ, Bool, false, List, [], ◌∷◌, Option, none, some, if◌then◌else◌, map, ◌==◌}
use keylens.Base.Text.{Text, codes, text_eq, is_empty}
use keylens.Base.Lines.{lines, trim, split_ascii_whitespace}
use keylens.Base.Decimal.{parse_u64}
use keylens.Base.Find.{split_once_char}
use keylens.Base.Split.{split}
use keylens.Conn.Reply.{ClientInfo, ClusterNode, ClusterTopology}
use keylens.Conn.Value.{filter_map}
use keylens.Conn.Error.{contains}

abbrev pub or_0 : Option ℕ → ℕ
or_0 none = 0
or_0 (some n) = n

abbrev no_client : ClientInfo
no_client = record { id = []; addr = []; name = []; age = 0; idle = 0; db = []; cmd = []; sub = 0 }

-- The `match` of `parse_client_list` on a field's name.
unfoldable pub set_client_field : Text → Text → ClientInfo → ClientInfo
unfolding parse_u64
set_client_field k v c =
    if text_eq k (codes "id")
    then record c { id = v }
    else if text_eq k (codes "addr")
    then record c { addr = v }
    else if text_eq k (codes "name")
    then record c { name = v }
    else if text_eq k (codes "age")
    then record c { age = or_0 (parse_u64 v) }
    else if text_eq k (codes "idle")
    then record c { idle = or_0 (parse_u64 v) }
    else if text_eq k (codes "db")
    then record c { db = v }
    else if text_eq k (codes "cmd")
    then record c { cmd = v }
    else if text_eq k (codes "sub")
    then record c { sub = or_0 (parse_u64 v) }
    else c

abbrev with_pair : Option (Text × Text) → ClientInfo → ClientInfo
unfolding set_client_field
with_pair none c = c
with_pair (some (k, v)) c = set_client_field k v c

-- The loop over the pairs of a row.
unfoldable pub read_pairs : List Text → ClientInfo → ClientInfo
unfolding set_client_field split_once_char
read_pairs [] c = c
read_pairs (p ∷ ps) c = read_pairs ps (with_pair (split_once_char b'=' p) c)

-- `filter(|l| !l.trim().is_empty())`
abbrev not_blank : List Text → List Text
unfolding trim
not_blank [] = []
not_blank (l ∷ ls) = let rest = not_blank ls in if is_empty (trim l) then rest else l ∷ rest

-- `parse_client_list`
unfoldable pub parse_client_list : Text → List ClientInfo
unfolding lines trim read_pairs split_ascii_whitespace
parse_client_list raw =
    map (λ line. read_pairs (split_ascii_whitespace line) no_client) (not_blank (lines raw))

-- `ClusterTopology::default`
abbrev pub no_topology : ClusterTopology
no_topology = record {
  enabled = false;
  state = [];
  slots_assigned = 0;
  known_nodes = 0;
  size = 0;
  nodes = [];
}

unfoldable pub set_cluster_field : Text → Text → ClusterTopology → ClusterTopology
unfolding parse_u64 trim
set_cluster_field k v t =
    if text_eq k (codes "cluster_enabled")
    then record t { enabled = text_eq (trim v) (codes "1") }
    else if text_eq k (codes "cluster_state")
    then record t { state = trim v }
    else if text_eq k (codes "cluster_slots_assigned")
    then record t { slots_assigned = or_0 (parse_u64 (trim v)) }
    else if text_eq k (codes "cluster_known_nodes")
    then record t { known_nodes = or_0 (parse_u64 (trim v)) }
    else if text_eq k (codes "cluster_size")
    then record t { size = or_0 (parse_u64 (trim v)) }
    else t

abbrev with_line : Option (Text × Text) → ClusterTopology → ClusterTopology
unfolding set_cluster_field
with_line none t = t
with_line (some (k, v)) t = set_cluster_field k v t

unfoldable pub read_cluster_lines : List Text → ClusterTopology → ClusterTopology
unfolding set_cluster_field split_once_char trim
read_cluster_lines [] t = t
read_cluster_lines (l ∷ ls) t = read_cluster_lines ls (with_line (split_once_char b':' (trim l)) t)

-- `parse_cluster_info`
unfoldable pub parse_cluster_info : Text → ClusterTopology
unfolding lines read_cluster_lines
parse_cluster_info raw = read_cluster_lines (lines raw) no_topology

abbrev first_piece : List Text → Text → Text
first_piece [] whole = whole
first_piece (p ∷ ps) whole = p

abbrev is_migration : Text → Bool
is_migration [] = false
is_migration (c ∷ s) = c == b'['

abbrev settled : List Text → List Text
settled [] = []
settled (s ∷ ss) = let rest = settled ss in if is_migration s then rest else s ∷ rest

-- One row of `parse_cluster_nodes`, which has eight fields or is left out.
unfoldable pub node_of : List Text → Option ClusterNode
unfolding contains split
node_of (id ∷ addr ∷ flags ∷ main ∷ ping ∷ pong ∷ epoch ∷ link ∷ slots) = some (record {
  id = id;
  addr = first_piece (split b'@' addr) addr;
  flags = flags;
  master = contains flags (codes "master");
  link_state = link;
  slots = settled slots;
  myself = contains flags (codes "myself");
})
node_of _ = none

-- `parse_cluster_nodes`
unfoldable pub parse_cluster_nodes : Text → List ClusterNode
unfolding lines trim node_of split_ascii_whitespace
parse_cluster_nodes raw =
    filter_map (λ line. node_of (split_ascii_whitespace line)) (not_blank (lines raw))
