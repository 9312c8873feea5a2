-- ===== src/Conn/Read/Bounded.antt =====
-- What reading a key asks of the server: bounded reads that the allowlist has.
use keylens.Base.{
  ℕ, ◌+◌, ◌-◌, ◌^◌, ◌<◌, ◌≡◌, refl, Bool, true, false, ◌&&◌, List, [], ◌∷◌, ◌++◌, Option, none,
  some, arith, if_cases, All, All-map, All-append, map, Bool-cases, inl, inr, leb,
}
use keylens.Base.Text.{Text, codes, compare_text}
use keylens.Conn.Kind.{
  Kind, string, hash, list, set, zset, stream, no_kind, other, kind_eq, speculative_kinds,
}
use keylens.Conn.Value.{Value, text, number, Client}
use keylens.Conn.Reply.{list_value, zset_value, stream_value}
use keylens.Conn.Error.{Result, ok, err}
use keylens.Conn.Capability.{has, memory_stats, get_range, cursor_collection_scan}
use keylens.Conn.Program.{Program, done, of_result, ◌>>=◌, Sends, Sends-bind, Sends-attempt}
use keylens.Conn.Command.{Conn, reply_at, cmd, pipeline, one_of, read_only_command, first_unsafe}
use keylens.Conn.Command.Allowed.{NotRefused, cmd-Sends, pipeline-Sends}
use keylens.Conn.Decode.{
  page, max_string_bytes, decode_string, decode_hash, decode_set, as_string_vec, as_scored_pairs,
  as_stream_entries,
}
use keylens.Conn.Bounds.{
  property_reads, BoundedRead, property_read, memory_read, string_read, range_read, cursor_read,
  stream_read,
}
use keylens.Conn.Read.Errors.{Fine, try-Fine, decode_hash-Fine, decode_set-Fine, decode_value-Fine}
use keylens.Conn.Read.{
  kind_or_none, slot_at, value_base, beside, meta_at, i64_max, page_bounds, value_cmd,
  size_cmd_or_filler, head_cmds, read_cmds, memory_part, size_read, key_head, key_size, sized,
  key_meta, value_of, read_value, read_key_sequentially, read_key, read_of, decoded_or_absent,
}

module _ (client : Client) where
  open client use {as_string-text}

  memory-allowed :
      (key : Text)
      → read_only_command client (codes "MEMORY") (text (codes "USAGE") ∷ text key ∷ []) ≡ true
  unfolding read_only_command
  memory-allowed key = rw (as_string-text (codes "USAGE"))

  pub head_cmds-allowed :
      (want : Bool) (key : Text) → first_unsafe client (head_cmds want key) ≡ none
  unfolding first_unsafe head_cmds read_only_command
  head_cmds-allowed true key = rw (memory-allowed key)
  head_cmds-allowed false key = refl

  pub read_cmds-allowed :
      (want : Bool) (key : Text) → first_unsafe client (read_cmds want key) ≡ none
  unfolding first_unsafe read_cmds read_only_command
  read_cmds-allowed true key = rw (memory-allowed key)
  read_cmds-allowed false key = refl

  memory_part-BoundedRead :
      (want : Bool) (key : Text) → All (BoundedRead page) (memory_part want key)
  memory_part-BoundedRead true key = (memory_read key, tt)
  memory_part-BoundedRead false key = tt

  head_cmds-BoundedRead : (want : Bool) (key : Text) → All (BoundedRead page) (head_cmds want key)
  unfolding head_cmds compare_text
  head_cmds-BoundedRead want key =
      (property_read _ key refl, (property_read _ key refl, memory_part-BoundedRead want key))

  size_read-BoundedRead : (key : Text) (k : Kind) → BoundedRead page (size_read key k)
  unfolding size_cmd_or_filler compare_text
  size_read-BoundedRead key string = property_read _ key refl
  size_read-BoundedRead key k = property_read _ key refl

  value_cmd-BoundedRead : (key : Text) (k : Kind) → BoundedRead page (value_cmd key k)
  unfolding value_cmd compare_text
  value_cmd-BoundedRead key string = string_read key 65535 (omega arith)
  value_cmd-BoundedRead key hash = cursor_read _ key _ 200 refl (omega arith)
  value_cmd-BoundedRead key list =
      range_read _ key 0 199 _ refl (omega arith) (omega arith) (omega arith)
  value_cmd-BoundedRead key set = cursor_read _ key _ 200 refl (omega arith)
  value_cmd-BoundedRead key zset =
      range_read _ key 0 199 _ refl (omega arith) (omega arith) (omega arith)
  value_cmd-BoundedRead key stream = stream_read key _ _ 200 (omega arith)
  value_cmd-BoundedRead key no_kind = property_read _ key refl
  value_cmd-BoundedRead key other = property_read _ key refl

  read_cmds-BoundedRead : (want : Bool) (key : Text) → All (BoundedRead page) (read_cmds want key)
  unfolding read_cmds compare_text
  read_cmds-BoundedRead want key = (
    property_read _ key refl,
    (
      property_read _ key refl,
      All-append (BoundedRead page) (map (size_read key) speculative_kinds)
          (map (value_cmd key) speculative_kinds ++ memory_part want key)
          (All-map (BoundedRead page) (size_read key) (size_read-BoundedRead key) speculative_kinds)
          (All-append (BoundedRead page) (map (value_cmd key) speculative_kinds)
            (memory_part want key)
            (All-map (BoundedRead page) (value_cmd key) (value_cmd-BoundedRead key)
              speculative_kinds)
            (memory_part-BoundedRead want key)),
    ),
  )

  -- Only bounded reads are sent, of at most a page, and none of them is refused.
  abbrev pub IsBounded : {A : Type 0} → Program A → Type 0
  IsBounded m = Sends (BoundedRead page) NotRefused m

  module _ {A B : Type 0} where
    then_IsBounded :
        (m : Program A) (f : A → Program B)
        → IsBounded m
        → ((a : A) → IsBounded (f a))
        → IsBounded (m >>= f)
    then_IsBounded m f h k = Sends-bind (BoundedRead page) NotRefused m f h k

  cmd-IsBounded :
      {A : Type 0} (name : Text) (args : List Value) (f : Value → Program A)
      → read_only_command client name args ≡ true
      → BoundedRead page (name, args)
      → ((v : Value) → IsBounded (f v))
      → IsBounded (cmd client name args >>= f)
  cmd-IsBounded name args f a b k =
      then_IsBounded (cmd client name args) f (cmd-Sends client (BoundedRead page) name args a b) k

  key_head-IsBounded : (conn : Conn) (key : Text) → IsBounded (key_head client conn key)
  unfolding key_head
  key_head-IsBounded conn key =
      let want : Bool = has conn.capabilities memory_stats in
      then_IsBounded (pipeline client conn (head_cmds want key)) _
        (pipeline-Sends client (BoundedRead page) conn (head_cmds want key)
          (head_cmds-allowed want key) (head_cmds-BoundedRead want key))
        (λ r. tt)

  size-IsBounded :
      (key name : Text)
      → read_only_command client name (text key ∷ []) ≡ true
      → one_of name property_reads ≡ true
      → IsBounded (sized client key (some name))
  unfolding cmd
  size-IsBounded key name a p =
      cmd-IsBounded name (text key ∷ []) _ a (property_read name key p) (λ v. tt)

  key_size-IsBounded : (key : Text) (k : Kind) → IsBounded (key_size client key k)
  unfolding key_size read_only_command
  key_size-IsBounded key string = size-IsBounded key (codes "STRLEN") refl refl
  key_size-IsBounded key hash = size-IsBounded key (codes "HLEN") refl refl
  key_size-IsBounded key list = size-IsBounded key (codes "LLEN") refl refl
  key_size-IsBounded key set = size-IsBounded key (codes "SCARD") refl refl
  key_size-IsBounded key zset = size-IsBounded key (codes "ZCARD") refl refl
  key_size-IsBounded key stream = size-IsBounded key (codes "XLEN") refl refl
  key_size-IsBounded key no_kind = tt
  key_size-IsBounded key other = tt

  of_result-IsBounded : {A : Type 0} (r : Result A) → Fine r → IsBounded (of_result r)
  of_result-IsBounded (ok a) h = tt
  of_result-IsBounded (err e) h = h

  module _ (conn : Conn) (key : Text) where
    -- The reads whose bounds a page sets, in a page that fits.
    value_of-IsBounded :
        (start : ℕ) (k : Kind)
        → start + (page - 1) < 2 ^ 63
        → IsBounded (value_of client conn key (start, start + (page - 1)) k)
    unfolding value_of read_only_command
    value_of-IsBounded start no_kind h = tt
    value_of-IsBounded start string h =
        if_cases IsBounded (has conn.capabilities get_range)
          (λ e.
            cmd-IsBounded (codes "GETRANGE")
              (text key ∷ number 0 ∷ number (max_string_bytes - 1) ∷ [])
              (λ v. done (decode_string client v)) refl (string_read key 65535 (omega arith))
              (λ v. tt))
          (λ e. tt)
    value_of-IsBounded start list h =
        cmd-IsBounded (codes "LRANGE") (text key ∷ number start ∷ number (start + (page - 1)) ∷ [])
          (λ v. done (list_value (as_string_vec client v))) refl
          (range_read _ key start (start + 199) [] refl (omega arith) (omega arith) h) (λ v. tt)
    value_of-IsBounded start zset h =
        cmd-IsBounded (codes "ZRANGE")
          (text key ∷ number start ∷ number (start + (page - 1)) ∷ text (codes "WITHSCORES") ∷ [])
          (λ v. done (zset_value (as_scored_pairs client v))) refl
          (range_read _ key start (start + 199) (text (codes "WITHSCORES") ∷ []) refl (omega arith)
            (omega arith) h)
          (λ v. tt)
    value_of-IsBounded start hash h =
        if_cases IsBounded (has conn.capabilities cursor_collection_scan)
          (λ e.
            cmd-IsBounded (codes "HSCAN")
              (text key ∷ text (codes "0") ∷ text (codes "COUNT") ∷ number page ∷ [])
              (λ v. of_result (decode_hash client v)) refl
              (cursor_read (codes "HSCAN") key (codes "0") 200 refl (omega arith))
              (λ v. of_result-IsBounded (decode_hash client v) (decode_hash-Fine client v)))
          (λ e. tt)
    value_of-IsBounded start set h =
        if_cases IsBounded (has conn.capabilities cursor_collection_scan)
          (λ e.
            cmd-IsBounded (codes "SSCAN")
              (text key ∷ text (codes "0") ∷ text (codes "COUNT") ∷ number page ∷ [])
              (λ v. of_result (decode_set client v)) refl
              (cursor_read (codes "SSCAN") key (codes "0") 200 refl (omega arith))
              (λ v. of_result-IsBounded (decode_set client v) (decode_set-Fine client v)))
          (λ e. tt)
    value_of-IsBounded start stream h =
        cmd-IsBounded (codes "XRANGE")
          (text key ∷ text (codes "-") ∷ text (codes "+") ∷ text (codes "COUNT") ∷ number page ∷ [])
          (λ v. done (stream_value (as_stream_entries client v))) refl
          (stream_read key (codes "-") (codes "+") 200 (omega arith)) (λ v. tt)
    value_of-IsBounded start other h = tt

    -- Whatever the offset.
    read_value-IsBounded : (k : Kind) (offset : ℕ) → IsBounded (read_value client conn key k offset)
    unfolding read_value page_bounds
    read_value-IsBounded k offset = elim (Bool-cases (leb offset i64_max)) [
      | inl e ↦ elim (Bool-cases (leb (offset + 199) i64_max)) [
        | inl f ↦ rw (e, f) (value_of-IsBounded offset k (ground arith))
        | inr f ↦ rw (e, f) tt
      ]
      | inr e ↦ rw e tt
    ]

    read_key_sequentially-IsBounded : IsBounded (read_key_sequentially client conn key)
    unfolding read_key_sequentially
    read_key_sequentially-IsBounded =
        then_IsBounded (key_head client conn key) _ (key_head-IsBounded conn key) λ head.
          if_cases IsBounded (kind_eq head.kind no_kind) (λ e. tt)
            λ e.
              Sends-attempt (BoundedRead page) NotRefused (key_size client key head.kind) _
                (key_size-IsBounded key head.kind)
                λ size _.
                  Sends-attempt (BoundedRead page) NotRefused
                    (read_value client conn key head.kind 0) _ (read_value-IsBounded head.kind 0)
                    λ value f. of_result-IsBounded _ (try-Fine value _ f (λ v. tt))

    decoded-Fine : (k : Kind) (reply : Option Value) → Fine (decoded_or_absent client k reply)
    decoded-Fine k none = tt
    decoded-Fine k (some v) = decode_value-Fine client k v

    read_of-Fine :
        (want : Bool) (replies : List (Result Value)) → Fine (read_of client want key replies)
    unfolding read_of
    read_of-Fine want replies =
        let kind : Kind = kind_or_none client (reply_at replies 0) in
        let reply : Option Value = slot_at client replies kind value_base in
        try-Fine (decoded_or_absent client kind reply)
          (beside client (meta_at client want key replies kind)) (decoded-Fine kind reply) (λ v. tt)

    read_key-IsBounded : IsBounded (read_key client conn key)
    unfolding read_key
    read_key-IsBounded =
        if_cases IsBounded
          (has conn.capabilities get_range && has conn.capabilities cursor_collection_scan)
          (λ e.
            let want : Bool = has conn.capabilities memory_stats in
            then_IsBounded (pipeline client conn (read_cmds want key)) _
              (pipeline-Sends client (BoundedRead page) conn (read_cmds want key)
                (read_cmds-allowed want key) (read_cmds-BoundedRead want key))
              (λ r. of_result-IsBounded (read_of client want key r) (read_of-Fine want r)))
          (λ e. read_key_sequentially-IsBounded)

    key_meta-IsBounded : IsBounded (key_meta client conn key)
    unfolding key_meta
    key_meta-IsBounded =
        then_IsBounded (key_head client conn key) _ (key_head-IsBounded conn key) λ head.
          if_cases IsBounded (kind_eq head.kind no_kind) (λ e. tt)
            λ e.
              then_IsBounded (key_size client key head.kind) _ (key_size-IsBounded key head.kind)
                (λ n. tt)

    -- Whatever the server answers, and whatever the offset, `read_key`, `key_meta` and `read_value`
    -- send bounded reads only, of at most a page of elements or 64 KiB of a string, and the
    -- allowlist refuses none of them.
    pub reads_are_bounded :
        (kind : Kind) (offset : ℕ)
        → IsBounded (read_key client conn key)
          × IsBounded (key_meta client conn key)
          × IsBounded (read_value client conn key kind offset)
    reads_are_bounded kind offset =
        (read_key-IsBounded, key_meta-IsBounded, read_value-IsBounded kind offset)
