-- ===== src/Conn/Decode.antt =====
-- crates/keylens-conn/src/value.rs: the decoders, from a reply of the server to a value to show.
use keylens.Base.{
  ℕ, ◌*◌, List, [], ◌∷◌, ◌++◌, Option, none, some, if◌then◌else◌, leb, length, take, map, min,
}
use keylens.Base.Text.{Text, codes}
use keylens.Base.Lines.{lines}
use keylens.Conn.Kind.{Kind, string, hash, list, set, zset, stream, no_kind, other}
use keylens.Conn.Reply.{
  F64, StreamEntry, KeyValue, string_value, hash_value, list_value, set_value, zset_value,
  stream_value, missing, unsupported,
}
use keylens.Conn.Value.{
  Value, array, nil, cons, to_list, Client, byte_length, chunks, filter_map, display_string,
}
use keylens.Conn.Error.{ConnError, reply_error, Result, ok, err}

-- `PAGE` and `MAX_STRING_BYTES`
abbrev pub page : ℕ
page = 200

abbrev pub max_string_bytes : ℕ
max_string_bytes = 64 * 1024

-- `KeyValue::len`
unfoldable pub row_count : KeyValue → ℕ
unfolding lines
row_count (string_value s) = length (lines s)
row_count (hash_value v) = length v
row_count (list_value v) = length v
row_count (set_value v) = length v
row_count (zset_value v) = length v
row_count (stream_value v) = length v
row_count missing = 0
row_count (unsupported _) = 0

-- `absent`
abbrev pub absent : Kind → KeyValue
absent other = unsupported (codes "module type -- no viewer for this key yet")
absent _ = missing

-- `?` on a result.
abbrev pub try : {A B : Type 0} → Result A → (A → Result B) → Result B
try (ok a) f = f a
try (err e) f = err e

abbrev or_zero : Option ℕ → ℕ
or_zero none = 0
or_zero (some n) = n

module _ (client : Client) where
  open client use {as_string, as_bytes, as_f64, debug}

  abbrev text_length : Option Text → ℕ
  text_length none = 0
  text_length (some s) = byte_length s

  abbrev length_as : Option (List ℕ) → Option Text → ℕ
  length_as (some b) s = length b
  length_as none s = text_length s

  -- `reply_byte_len`
  unfoldable pub reply_byte_len : Value → ℕ
  unfolding byte_length
  reply_byte_len v = length_as (as_bytes v) (as_string v)

  -- `decode_string`
  unfoldable pub decode_string : Value → KeyValue
  unfolding reply_byte_len display_string
  decode_string reply =
      if leb max_string_bytes (reply_byte_len reply)
      then string_value (display_string client reply ++ (10 ∷ 10 ∷ codes "... truncated ..."))
      else string_value (display_string client reply)

  -- `as_string_vec`
  unfoldable pub as_string_vec : Value → List Text
  as_string_vec (array items) = map (display_string client) (to_list items)
  as_string_vec _ = []

  abbrev displayed_pair : Value × Value → Text × Text
  displayed_pair (f, v) = (display_string client f, display_string client v)

  -- `as_field_pairs`
  unfoldable pub as_field_pairs : List Value → List (Text × Text)
  as_field_pairs items = map displayed_pair (chunks items)

  abbrev or_zero_f64 : Option F64 → F64
  or_zero_f64 none = 0
  or_zero_f64 (some x) = x

  abbrev scored_pair : Value × Value → Text × F64
  scored_pair (m, s) = (display_string client m, or_zero_f64 (as_f64 s))

  -- `as_scored_pairs`; the bits of 0.0 are 0.
  unfoldable pub as_scored_pairs : Value → List (Text × F64)
  as_scored_pairs (array items) = map scored_pair (chunks (to_list items))
  as_scored_pairs _ = []

  abbrev wrong_shape : Text → Value → ConnError
  wrong_shape expected got = reply_error (codes "SCAN") (expected ++ debug got)

  abbrev items_of : Value → Result (List Value)
  items_of (array items) = ok (to_list items)
  items_of v = err (wrong_shape (codes "items not an array: ") v)

  -- `scan_items`
  unfoldable pub scan_items : Value → Result (List Value)
  scan_items (array (cons cursor (cons items nil))) = items_of items
  scan_items v = err (wrong_shape (codes "expected [cursor, items], got ") v)

  -- `decode_hash`
  unfoldable pub decode_hash : Value → Result KeyValue
  unfolding scan_items as_field_pairs
  decode_hash reply =
      try (scan_items reply)
        λ items. ok (hash_value (as_field_pairs (take (min (length items) (page * 2)) items)))

  -- `decode_set`
  unfoldable pub decode_set : Value → Result KeyValue
  unfolding scan_items
  decode_set reply =
      try (scan_items reply) λ items. ok (set_value (map (display_string client) (take page items)))

  abbrev fields_of : Value → List (Text × Text)
  fields_of (array kv) = as_field_pairs (to_list kv)
  fields_of _ = []

  abbrev stream_entry : Value → Option StreamEntry
  stream_entry (array (cons id (cons fields nil))) =
      some (record { id = display_string client id; entry_fields = fields_of fields })
  stream_entry _ = none

  -- `as_stream_entries`
  unfoldable pub as_stream_entries : Value → List StreamEntry
  unfolding as_field_pairs
  as_stream_entries (array entries) = filter_map stream_entry (to_list entries)
  as_stream_entries _ = []

  -- `decode_value`
  unfoldable pub decode_value : Kind → Value → Result KeyValue
  unfolding decode_string decode_hash decode_set as_string_vec as_scored_pairs as_stream_entries
  decode_value string reply = ok (decode_string reply)
  decode_value hash reply = decode_hash reply
  decode_value list reply = ok (list_value (as_string_vec reply))
  decode_value set reply = decode_set reply
  decode_value zset reply = ok (zset_value (as_scored_pairs reply))
  decode_value stream reply = ok (stream_value (as_stream_entries reply))
  decode_value no_kind reply = ok (absent no_kind)
  decode_value other reply = ok (absent other)
