-- ===== src/Conn/Stream.antt =====
-- crates/keylens-conn/src/stream.rs: the consumer groups of a stream.
pub mod Stuck
use keylens.Base.{
  ℕ, ◌+◌, ◌-◌, ◌^◌, Bool, true, false, not, List, [], ◌∷◌, ◌++◌, Option, none, some, if◌then◌else◌,
  length, take, ltb, leb, map,
}
use keylens.Base.Text.{Text, codes, text_eq, is_empty, or_empty}
use keylens.Base.Int.{ℤ, pos, negsuc, leb_ℤ}
use keylens.Conn.Reply.{StreamInfo, GroupInfo, ConsumerInfo}
use keylens.Conn.Value.{
  Value, array, map_value, Values, nil, cons, Entries, no_entry, entry, null, to_list, text, number,
  Client, chunks, filter_map, display_string,
}
use keylens.Conn.Error.{Result, ok, err}
use keylens.Conn.Capability.{has, streams_feature}
use keylens.Conn.Program.{Program, done, fail, attempt, ◌>>=◌}
use keylens.Conn.Command.{Conn, cmd}

-- `MAX_GROUPS`
abbrev pub max_groups : ℕ
max_groups = 32

-- `StreamInfo::default`
abbrev pub no_stream : StreamInfo
no_stream = record {
  stream_length = 0;
  entries_added = none;
  last_generated_id = [];
  max_deleted_id = [];
  first_entry_id = [];
  groups = [];
  groups_truncated = false;
}

-- `n as u64`, of an `i64`.
unfoldable pub as_unsigned : ℤ → ℕ
as_unsigned (pos n) = n
as_unsigned (negsuc n) = 2 ^ 64 - 1 - n

-- `unwrap_or(0) as u64` and `map(|n| n as u64)`
abbrev unsigned_or_0 : Option ℤ → ℕ
unfolding as_unsigned
unsigned_or_0 none = 0
unsigned_or_0 (some n) = as_unsigned n

abbrev unsigned_option : Option ℤ → Option ℕ
unfolding as_unsigned
unsigned_option none = none
unsigned_option (some n) = some (as_unsigned n)

abbrev or_0ℤ : Option ℤ → ℤ
or_0ℤ none = pos 0
or_0ℤ (some n) = n

-- The consumers that hold pending entries, with `c` put before the first that was not idle longer.
unfoldable pub insert_by_idle : ConsumerInfo → List ConsumerInfo → List ConsumerInfo
insert_by_idle c [] = c ∷ []
insert_by_idle c (d ∷ ds) =
    let rest = insert_by_idle c ds in if leb_ℤ d.idle_ms c.idle_ms then c ∷ d ∷ ds else d ∷ rest

abbrev kept : Bool → ConsumerInfo → List ConsumerInfo → List ConsumerInfo
unfolding insert_by_idle
kept true c rest = insert_by_idle c rest
kept false c rest = rest

-- `GroupInfo::stuck_consumers`: the sort is stable, and longest idle comes first.
unfoldable pub stuck : List ConsumerInfo → List ConsumerInfo
unfolding insert_by_idle
stuck [] = []
stuck (c ∷ cs) = kept (ltb 0 c.pending) c (stuck cs)

unfoldable pub stuck_consumers : GroupInfo → List ConsumerInfo
unfolding stuck
stuck_consumers g = stuck g.consumers

module _ (client : Client) where
  open client use {as_i64}

  abbrev shown_pair : Value × Value → Text × Value
  shown_pair (k, v) = (display_string client k, v)

  abbrev map_fields : Entries → List (Text × Value)
  map_fields no_entry = []
  map_fields (entry k v r) = (or_empty k, v) ∷ map_fields r

  -- `fields`
  unfoldable pub fields : Value → List (Text × Value)
  unfolding display_string
  fields (array items) = map shown_pair (chunks (to_list items))
  fields (map_value m) = map_fields m
  fields _ = []

  -- `find`
  unfoldable pub find : List (Text × Value) → Text → Option Value
  find [] name = none
  find ((k, v) ∷ r) name = if text_eq k name then some v else find r name

  abbrev shown_or_empty : Option Value → Text
  shown_or_empty none = []
  shown_or_empty (some v) = display_string client v

  -- `text`
  unfoldable pub text_field : List (Text × Value) → Text → Text
  unfolding find display_string
  text_field f name = shown_or_empty (find f name)

  abbrev number_of : Option Value → Option ℤ
  number_of none = none
  number_of (some null) = none
  number_of (some v) = as_i64 v

  -- `num`
  unfoldable pub num : List (Text × Value) → Text → Option ℤ
  unfolding find
  num f name = number_of (find f name)

  abbrev consumer_of : Value → ConsumerInfo
  unfolding fields text_field num
  consumer_of c =
      let f = fields c in
      record {
        name = text_field f (codes "name");
        pending = unsigned_or_0 (num f (codes "pending"));
        idle_ms = or_0ℤ (num f (codes "idle"));
        inactive_ms = num f (codes "inactive");
      }

  abbrev named_consumers : List ConsumerInfo → List ConsumerInfo
  named_consumers [] = []
  named_consumers (c ∷ cs) =
      let rest = named_consumers cs in if is_empty c.name then rest else c ∷ rest

  -- `parse_consumers`
  unfoldable pub parse_consumers : Value → List ConsumerInfo
  unfolding fields text_field num as_unsigned
  parse_consumers (array items) = named_consumers (map consumer_of (to_list items))
  parse_consumers _ = []

  -- A group before its consumers and its pending range are read.
  abbrev group_head : Text → List (Text × Value) → GroupInfo
  unfolding text_field num as_unsigned
  group_head name gf = record {
    name = name;
    consumer_count = unsigned_or_0 (num gf (codes "consumers"));
    pending = unsigned_or_0 (num gf (codes "pending"));
    last_delivered_id = text_field gf (codes "last-delivered-id");
    entries_read = num gf (codes "entries-read");
    lag = num gf (codes "lag");
    consumers = [];
    pending_min_id = [];
    pending_max_id = [];
  }

  abbrev pub with_consumers : GroupInfo → Result Value → GroupInfo
  unfolding parse_consumers
  with_consumers g (ok v) = record g { consumers = parse_consumers v }
  with_consumers g (err e) = g

  abbrev pub with_range : GroupInfo → Result Value → GroupInfo
  unfolding display_string
  with_range g (ok (array (cons count (cons low (cons high rest))))) = record g {
    pending_min_id = display_string client low;
    pending_max_id = display_string client high;
  }
  with_range g _ = g

  abbrev pub pending_read : Text → GroupInfo → Program GroupInfo
  pending_read key g =
      if ltb 0 g.pending
      then (attempt (cmd client (codes "XPENDING") (text key ∷ text g.name ∷ [])) >>= λ p.
          done (with_range g p))
      else done g

  -- The body of the loop over the groups, for a group with a name.
  unfoldable pub read_group : Text → GroupInfo → Program GroupInfo
  unfolding cmd parse_consumers display_string
  read_group key g =
      attempt (cmd client (codes "XINFO") (text (codes "CONSUMERS") ∷ text key ∷ text g.name ∷ []))
      >>= λ c. pending_read key (with_consumers g c)

  unfoldable pub read_groups : Text → List Value → Program (List GroupInfo)
  unfolding read_group fields text_field num as_unsigned
  read_groups key [] = done []
  read_groups key (v ∷ vs) =
      let gf = fields v in
      let name = text_field gf (codes "name") in
      let rest = read_groups key vs in
      if is_empty name
      then rest
      else (read_group key (group_head name gf) >>= λ g. rest >>= λ gs. done (g ∷ gs))

  abbrev info_head : List (Text × Value) → StreamInfo
  unfolding text_field num as_unsigned
  info_head f = record {
    stream_length = unsigned_or_0 (num f (codes "length"));
    entries_added = unsigned_option (num f (codes "entries-added"));
    last_generated_id = text_field f (codes "last-generated-id");
    max_deleted_id = text_field f (codes "max-deleted-entry-id");
    first_entry_id = text_field f (codes "recorded-first-entry-id");
    groups = [];
    groups_truncated = false;
  }

  abbrev pub with_groups : Text → StreamInfo → Value → Program StreamInfo
  unfolding read_groups
  with_groups key info (array groups) = read_groups key (take max_groups (to_list groups)) >>= λ gs.
      done
        (record info { groups = gs; groups_truncated = ltb max_groups (length (to_list groups)) })
  with_groups key info _ = done info

  -- `Conn::stream_info`
  unfoldable pub stream_info : Conn → Text → Program StreamInfo
  unfolding has cmd fields read_groups text_field num as_unsigned
  stream_info conn key =
      if has conn.capabilities streams_feature
      then (cmd client (codes "XINFO") (text (codes "STREAM") ∷ text key ∷ []) >>= λ raw.
          cmd client (codes "XINFO") (text (codes "GROUPS") ∷ text key ∷ []) >>= λ groups.
          with_groups key (info_head (fields raw)) groups)
      else done no_stream
