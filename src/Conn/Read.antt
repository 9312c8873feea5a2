-- ===== src/Conn/Read.antt =====
-- crates/keylens-conn/src/value.rs: reading one key, in one round trip where every bounded read is
-- there, and in two where one is missing. The two commands that the second path sends at once are
-- sent one after the other here, each with its own outcome.
pub mod Bounded
pub mod Errors
pub mod Offset
pub mod Speculative
use keylens.Base.{
  ℕ, ◌+◌, ◌-◌, ◌^◌, Bool, ◌&&◌, List, [], ◌∷◌, ◌++◌, Option, none, some, if◌then◌else◌, leb, length,
  map,
}
use keylens.Base.Text.{Text, codes}
use keylens.Base.Int.{ℤ, pos, leb_ℤ}
use keylens.Conn.Kind.{
  Kind, string, hash, list, set, zset, stream, no_kind, other, parse_kind, kind_eq, slot, size_cmd,
  speculative_kinds,
}
use keylens.Conn.Reply.{
  KeyMeta, KeyValue, list_value, zset_value, stream_value, missing, unsupported,
}
use keylens.Conn.Value.{Value, text, number, integer, Client, display_string}
use keylens.Conn.Error.{ConnError, range_error, Result, ok, err}
use keylens.Conn.Capability.{has, memory_stats, get_range, cursor_collection_scan}
use keylens.Conn.Program.{Command, Program, done, fail, attempt, of_result, ◌>>=◌}
use keylens.Conn.Command.{Conn, cmd, pipeline, reply_at}
use keylens.Conn.Decode.{
  page, max_string_bytes, absent, try, as_string_vec, as_scored_pairs, as_stream_entries,
  decode_string, decode_hash, decode_set, decode_value,
}

-- `struct KeyHead`
pub record KeyHead : Type 0 where
  pub kind : Kind
  pub ttl_ms : Option ℤ
  pub memory : Option ℕ

abbrev pub i64_max : ℕ
i64_max = 2 ^ 63 - 1

abbrev or_range : Option Text → Text
or_range none = codes "RANGE"
or_range (some c) = c

-- `page_bounds`. An offset is a `usize`, and a bound an `i64`.
unfoldable pub page_bounds : ℕ → Kind → Result (ℕ × ℕ)
page_bounds offset kind =
    if leb offset i64_max
    then (if leb (offset + (page - 1)) i64_max
        then ok (offset, offset + (page - 1))
        else err (
            range_error (or_range (size_cmd kind)) offset
              (codes "offset + page size overflows i64")))
    else err (range_error (or_range (size_cmd kind)) offset (codes "offset exceeds i64::MAX"))

abbrev or_type : Option Text → Text
or_type none = codes "TYPE"
or_type (some c) = c

-- `size_cmd_or_filler`
unfoldable pub size_cmd_or_filler : Kind → Text
size_cmd_or_filler kind = or_type (size_cmd kind)

-- `value_cmd`
unfoldable pub value_cmd : Text → Kind → Command
value_cmd key string = (codes "GETRANGE", text key ∷ number 0 ∷ number (max_string_bytes - 1) ∷ [])
value_cmd key hash =
    (codes "HSCAN", text key ∷ text (codes "0") ∷ text (codes "COUNT") ∷ number page ∷ [])
value_cmd key list = (codes "LRANGE", text key ∷ number 0 ∷ number (page - 1) ∷ [])
value_cmd key set =
    (codes "SSCAN", text key ∷ text (codes "0") ∷ text (codes "COUNT") ∷ number page ∷ [])
value_cmd key zset =
    (codes "ZRANGE", text key ∷ number 0 ∷ number (page - 1) ∷ text (codes "WITHSCORES") ∷ [])
value_cmd key stream = (
  codes "XRANGE",
  text key ∷ text (codes "-") ∷ text (codes "+") ∷ text (codes "COUNT") ∷ number page ∷ [],
)
value_cmd key no_kind = (codes "TYPE", text key ∷ [])
value_cmd key other = (codes "TYPE", text key ∷ [])

abbrev pub on_key : Text → Text → Command
on_key name key = (name, text key ∷ [])

abbrev pub memory_cmd : Text → Command
memory_cmd key = (codes "MEMORY", text (codes "USAGE") ∷ text key ∷ [])

-- The last command of a batch, if memory is wanted.
abbrev memory_part : Bool → Text → List Command
memory_part want key = if want then memory_cmd key ∷ [] else []

-- The batch of `key_head`, and that of `read_key`.
unfoldable pub head_cmds : Bool → Text → List Command
head_cmds want key = on_key (codes "TYPE") key ∷ on_key (codes "PTTL") key ∷ memory_part want key

abbrev size_read : Text → Kind → Command
size_read key kind = on_key (size_cmd_or_filler kind) key

unfoldable pub read_cmds : Bool → Text → List Command
unfolding value_cmd size_cmd_or_filler
read_cmds want key =
    on_key (codes "TYPE") key
    ∷ on_key (codes "PTTL") key
    ∷ (map (size_read key) speculative_kinds
        ++ (map (value_cmd key) speculative_kinds ++ memory_part want key))

-- `SIZE_BASE`, `VALUE_BASE` and `SLOT_MEMORY`
abbrev pub size_base : ℕ
size_base = 2

abbrev pub value_base : ℕ
value_base = size_base + length speculative_kinds

abbrev pub slot_memory : ℕ
slot_memory = value_base + length speculative_kinds

abbrev pub and_then {ℓ κ} : {A : Type ℓ} {B : Type κ} → Option A → (A → Option B) → Option B
and_then none f = none
and_then (some a) f = f a

abbrev or_zero : Option ℕ → ℕ
or_zero none = 0
or_zero (some n) = n

-- A time to live below zero is none.
abbrev shown_ttl : Option ℤ → Option ℤ
shown_ttl none = none
shown_ttl (some t) = if leb_ℤ (pos 0) t then some t else none

abbrev size_or_zero : Result ℕ → ℕ
size_or_zero (ok n) = n
size_or_zero (err e) = 0

module _ (client : Client) where
  open client use {as_i64, as_u64}

  abbrev kind_or_none : Option Value → Kind
  kind_or_none none = no_kind
  kind_or_none (some v) = parse_kind (display_string client v)

  abbrev memory_at : Bool → List (Result Value) → ℕ → Option ℕ
  memory_at want replies i = if want then and_then (reply_at replies i) as_u64 else none

  -- What `key_head` makes of its replies.
  unfoldable pub head_of : Bool → List (Result Value) → KeyHead
  unfolding parse_kind display_string
  head_of want replies = record {
    kind = kind_or_none (reply_at replies 0);
    ttl_ms = shown_ttl (and_then (reply_at replies 1) as_i64);
    memory = memory_at want replies 2;
  }

  -- `Conn::key_head`
  unfoldable pub key_head : Conn → Text → Program KeyHead
  unfolding pipeline has head_cmds head_of
  key_head conn key =
      let want = has conn.capabilities memory_stats in
      pipeline client conn (head_cmds want key) >>= λ replies. done (head_of want replies)

  abbrev sized : Text → Option Text → Program ℕ
  unfolding cmd
  sized key none = done 0
  sized key (some name) = cmd client name (text key ∷ []) >>= λ v. done (or_zero (as_u64 v))

  -- `Conn::key_size`
  unfoldable pub key_size : Text → Kind → Program ℕ
  unfolding cmd
  key_size key kind = sized key (size_cmd kind)

  abbrev pub gone : Text → KeyMeta
  gone key = record { key = key; kind = no_kind; ttl_ms = none; size = 0; memory = none }

  abbrev pub meta_of : Text → KeyHead → ℕ → KeyMeta
  meta_of key head size = record {
    key = key;
    kind = head.kind;
    ttl_ms = head.ttl_ms;
    size = size;
    memory = head.memory;
  }

  -- `Conn::key_meta`
  unfoldable pub key_meta : Conn → Text → Program KeyMeta
  unfolding key_head key_size
  key_meta conn key = key_head conn key >>= λ head.
      if kind_eq head.kind no_kind
      then done (gone key)
      else key_size key head.kind >>= λ size. done (meta_of key head size)

  -- The `match` of `read_value`, on the kind.
  unfoldable pub value_of : Conn → Text → ℕ × ℕ → Kind → Program KeyValue
  unfolding cmd has decode_string decode_hash decode_set as_string_vec as_scored_pairs
      as_stream_entries
  value_of conn key (start, stop) no_kind = done missing
  value_of conn key (start, stop) string =
      if has conn.capabilities get_range
      then (cmd client (codes "GETRANGE") (text key ∷ number 0 ∷ number (max_string_bytes - 1) ∷ [])
          >>= λ reply. done (decode_string client reply))
      else done (unsupported (codes "this server has no bounded string read (GETRANGE)"))
  value_of conn key (start, stop) list =
      cmd client (codes "LRANGE") (text key ∷ number start ∷ number stop ∷ []) >>= λ reply.
      done (list_value (as_string_vec client reply))
  value_of conn key (start, stop) zset =
      cmd client (codes "ZRANGE")
        (text key ∷ number start ∷ number stop ∷ text (codes "WITHSCORES") ∷ [])
      >>= λ reply. done (zset_value (as_scored_pairs client reply))
  value_of conn key (start, stop) hash =
      if has conn.capabilities cursor_collection_scan
      then (cmd client (codes "HSCAN")
            (text key ∷ text (codes "0") ∷ text (codes "COUNT") ∷ number page ∷ [])
          >>= λ reply. of_result (decode_hash client reply))
      else done (unsupported (codes "this server has no bounded hash read (HSCAN)"))
  value_of conn key (start, stop) set =
      if has conn.capabilities cursor_collection_scan
      then (cmd client (codes "SSCAN")
            (text key ∷ text (codes "0") ∷ text (codes "COUNT") ∷ number page ∷ [])
          >>= λ reply. of_result (decode_set client reply))
      else done (unsupported (codes "this server has no bounded set read (SSCAN)"))
  value_of conn key (start, stop) stream =
      cmd client (codes "XRANGE")
        (text key ∷ text (codes "-") ∷ text (codes "+") ∷ text (codes "COUNT") ∷ number page ∷ [])
      >>= λ reply. done (stream_value (as_stream_entries client reply))
  value_of conn key (start, stop) other = done (absent other)

  -- `Conn::read_value`
  unfoldable pub read_value : Conn → Text → Kind → ℕ → Program KeyValue
  unfolding page_bounds value_of
  read_value conn key kind offset =
      of_result (page_bounds offset kind) >>= λ bounds. value_of conn key bounds kind

  abbrev pub beside : KeyMeta → KeyValue → Result (KeyMeta × KeyValue)
  beside meta value = ok (meta, value)

  -- `read_key_sequentially` behind the first round trip, for a key that is there.
  abbrev pub read_typed : Conn → Text → KeyHead → Program (KeyMeta × KeyValue)
  read_typed conn key head = attempt (key_size key head.kind) >>= λ size.
      attempt (read_value conn key head.kind 0) >>= λ value.
      of_result (try value (beside (meta_of key head (size_or_zero size))))

  abbrev pub read_there : Conn → Text → KeyHead → Program (KeyMeta × KeyValue)
  read_there conn key head =
      if kind_eq head.kind no_kind then done (gone key, missing) else read_typed conn key head

  -- `Conn::read_key_sequentially`
  unfoldable pub read_key_sequentially : Conn → Text → Program (KeyMeta × KeyValue)
  unfolding key_head
  read_key_sequentially conn key = key_head conn key >>= read_there conn key

  abbrev decoded_or_absent : Kind → Option Value → Result KeyValue
  decoded_or_absent kind none = ok (absent kind)
  decoded_or_absent kind (some reply) = decode_value client kind reply

  -- The reply in a type's slot of a block.
  abbrev slot_at : List (Result Value) → Kind → ℕ → Option Value
  unfolding slot
  slot_at replies kind base = and_then (slot kind) (λ s. reply_at replies (base + s))

  abbrev meta_at : Bool → Text → List (Result Value) → Kind → KeyMeta
  meta_at want key replies kind = record {
    key = key;
    kind = kind;
    ttl_ms = shown_ttl (and_then (reply_at replies 1) as_i64);
    size = or_zero (and_then (slot_at replies kind size_base) as_u64);
    memory = memory_at want replies slot_memory;
  }

  -- What `read_key` makes of its replies: the slots of the type that came back.
  unfoldable pub read_of : Bool → Text → List (Result Value) → Result (KeyMeta × KeyValue)
  unfolding parse_kind display_string decode_value slot
  read_of want key replies =
      let kind = kind_or_none (reply_at replies 0) in
      try (decoded_or_absent kind (slot_at replies kind value_base))
        (beside (meta_at want key replies kind))

  -- `Conn::read_key`
  unfoldable pub read_key : Conn → Text → Program (KeyMeta × KeyValue)
  unfolding pipeline has read_cmds read_of read_key_sequentially
  read_key conn key =
      let want = has conn.capabilities memory_stats in
      if has conn.capabilities get_range && has conn.capabilities cursor_collection_scan
      then (pipeline client conn (read_cmds want key) >>= λ replies.
          of_result (read_of want key replies))
      else read_key_sequentially conn key
