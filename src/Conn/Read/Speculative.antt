-- ===== src/Conn/Read/Speculative.antt =====
-- The two ways to read a key, compared on a server whose data stays while it is read.
use keylens.Base.{
  ℕ, ◌≡◌, ◌≢◌, refl, sym, ap, ◌∙◌, Bool, true, false, ◌&&◌, List, [], ◌∷◌, Option, some, arith,
  if◌then◌else◌, map,
}
use keylens.Base.Text.{Text, codes}
use keylens.Base.Int.{ℤ}
use keylens.Conn.Kind.{Kind, string, hash, list, set, zset, stream, no_kind, other, kind_eq, slot}
use keylens.Conn.Value.{Value, text, Client}
use keylens.Conn.Reply.{KeyMeta, KeyValue}
use keylens.Conn.Error.{Result, ok, err}
use keylens.Conn.Capability.{has, memory_stats, get_range, cursor_collection_scan}
use keylens.Conn.Program.{
  Command, Reply, answered, Program, done, of_result, ◌>>=◌, run, run-bind, run-attempt, then_run,
}
use keylens.Conn.Command.{Conn, cmd, pipeline, ok_value, named, read_only_command}
use keylens.Conn.Command.Batch.{outcome, run-pipeline, run-cmd}
use keylens.Conn.Decode.{decode_value, try}
use keylens.Conn.Read.{
  KeyHead, read_typed, read_there, memory_at, slot_memory, page_bounds, value_cmd, head_cmds,
  read_cmds, on_key, key_head, key_size, sized, value_of, kind_or_none, slot_at, value_base,
  size_base, beside, meta_at, meta_of, head_of, size_or_zero, and_then, or_zero, read_value,
  read_key_sequentially, read_key, read_of, decoded_or_absent,
}
use keylens.Conn.Read.Bounded.{head_cmds-allowed, read_cmds-allowed}

module _ (client : Client) (server : Command → Reply) (conn : Conn) (key : Text) where
  abbrev wants : Bool
  wants = has conn.capabilities memory_stats

  -- What the batch of `read_key` comes back with.
  abbrev replies : List (Result Value)
  replies = map (outcome client server) (read_cmds wants key)

  run-key_head :
      run server (key_head client conn key)
      ≡ ok (head_of client wants (map (outcome client server) (head_cmds wants key)))
  unfolding key_head
  run-key_head =
      run-bind server (pipeline client conn (head_cmds wants key)) _
      ∙ rw (
          run-pipeline client server conn (head_cmds wants key)
            (head_cmds-allowed client wants key))

  size_reply :
      (name : Text) (r : Result Value)
      → size_or_zero (then_run server r (λ v. done (or_zero (client.as_u64 v))))
        ≡ or_zero (and_then (ok_value (some r)) client.as_u64)
  size_reply name (ok v) = refl
  size_reply name (err e) = refl

  size_of :
      (name : Text)
      → read_only_command client name (text key ∷ []) ≡ true
      → size_or_zero (run server (sized client key (some name)))
        ≡ or_zero
            (and_then (ok_value (some (outcome client server (on_key name key)))) client.as_u64)
  unfolding cmd
  size_of name h =
      ap size_or_zero (run-cmd client server name (text key ∷ []) _ h)
      ∙ size_reply name (outcome client server (on_key name key))

  -- The size that the second round trip reads is the one in the slot of the type.
  size-slot :
      (k : Kind)
      → size_or_zero (run server (key_size client key k))
        ≡ or_zero (and_then (slot_at client replies k size_base) client.as_u64)
  unfolding key_size read_cmds slot read_only_command
  size-slot string = size_of (codes "STRLEN") refl
  size-slot hash = size_of (codes "HLEN") refl
  size-slot list = size_of (codes "LLEN") refl
  size-slot set = size_of (codes "SCARD") refl
  size-slot zset = size_of (codes "ZCARD") refl
  size-slot stream = size_of (codes "XLEN") refl
  size-slot no_kind = refl
  size-slot other = refl

  -- The value read of a type, when its command is answered.
  module _ (v : Value) where
    answered_cmd :
        {A : Type 0} (name : Text) (args : List Value) (f : Value → Program A)
        → read_only_command client name args ≡ true
        → server (name, args) ≡ answered v
        → run server (cmd client name args >>= f) ≡ run server (f v)
    answered_cmd name args f h e =
        run-cmd client server name args f h ∙ ap (λ r. then_run server (named client name r) f) e

    run-of_result : {A : Type 0} (r : Result A) → run server (of_result r) ≡ r
    run-of_result (ok a) = refl
    run-of_result (err e) = refl

    run-value_of :
        (k : Kind)
        → has conn.capabilities get_range ≡ true
        → has conn.capabilities cursor_collection_scan ≡ true
        → server (value_cmd key k) ≡ answered v
        → run server (value_of client conn key (0, 199) k) ≡ decode_value client k v
    unfolding value_of value_cmd read_only_command decode_value
    run-value_of string g c e = rw g (answered_cmd (codes "GETRANGE") _ _ refl e)
    run-value_of hash g c e = rw c (answered_cmd (codes "HSCAN") _ _ refl e ∙ run-of_result _)
    run-value_of list g c e = answered_cmd (codes "LRANGE") _ _ refl e
    run-value_of set g c e = rw c (answered_cmd (codes "SSCAN") _ _ refl e ∙ run-of_result _)
    run-value_of zset g c e = answered_cmd (codes "ZRANGE") _ _ refl e
    run-value_of stream g c e = answered_cmd (codes "XRANGE") _ _ refl e
    run-value_of no_kind g c e = refl
    run-value_of other g c e = refl

    -- What the slot of the type decodes to.
    value-slot :
        (k : Kind)
        → server (value_cmd key k) ≡ answered v
        → decoded_or_absent client k (slot_at client replies k value_base) ≡ decode_value client k v
    unfolding read_cmds value_cmd slot decode_value
    value-slot string e = rw e
    value-slot hash e = rw e
    value-slot list e = rw e
    value-slot set e = rw e
    value-slot zset e = rw e
    value-slot stream e = rw e
    value-slot no_kind e = refl
    value-slot other e = refl

  -- The type that the server gives the key.
  abbrev pub key_kind : Kind
  key_kind =
      kind_or_none client (ok_value (some (outcome client server (on_key (codes "TYPE") key))))

  abbrev head : KeyHead
  head = head_of client wants (map (outcome client server) (head_cmds wants key))

  memory-slot :
      (want : Bool)
      → memory_at client want (map (outcome client server) (read_cmds want key)) slot_memory
        ≡ memory_at client want (map (outcome client server) (head_cmds want key)) 2
  unfolding read_cmds head_cmds
  memory-slot true = refl
  memory-slot false = refl

  meta_eq :
      {k l : Kind} {ttl : Option ℤ} {n n' : ℕ} {m m' : Option ℕ}
      → k ≡ l
      → n ≡ n'
      → m ≡ m'
      → (let a : KeyMeta = record { key = key; kind = k; ttl_ms = ttl; size = n; memory = m } in
          let b : KeyMeta = record { key = key; kind = l; ttl_ms = ttl; size = n'; memory = m' } in
          a ≡ b)
  meta_eq {ttl} p q r =
      λ i. record { key = key; kind = p i; ttl_ms = ttl; size = q i; memory = r i }

  meta-slot :
      meta_at client wants key replies key_kind
      ≡ meta_of client key head (size_or_zero (run server (key_size client key key_kind)))
  unfolding read_cmds head_cmds head_of
  meta-slot = meta_eq refl (sym (size-slot key_kind)) (memory-slot wants)

  kind_ne : (k : Kind) → k ≢ no_kind → kind_eq k no_kind ≡ false
  kind_ne no_kind n = absurd (n refl)
  kind_ne k n = refl

  run-else :
      {A : Type 0} (b : Bool) (m n : Program A)
      → b ≡ false
      → run server (if b then m else n) ≡ run server n
  run-else true m n e = ground arith
  run-else false m n e = refl

  run-then :
      {A : Type 0} (b c : Bool) (m n : Program A)
      → b ≡ true
      → c ≡ true
      → run server (if b && c then m else n) ≡ run server m
  run-then true true m n e f = refl
  run-then true false m n e f = ground arith
  run-then false c m n e f = ground arith

  abbrev decode : List (Result Value) → Program (KeyMeta × KeyValue)
  decode rs = of_result (read_of client wants key rs)

  module _ (v : Value) (g : has conn.capabilities get_range ≡ true)
      (c : has conn.capabilities cursor_collection_scan ≡ true) where
    run-typed :
        (h : KeyHead)
        → server (value_cmd key h.kind) ≡ answered v
        → run server (read_typed client conn key h)
          ≡ try (decode_value client h.kind v) (
              beside client
                (meta_of client key h (size_or_zero (run server (key_size client key h.kind)))))
    unfolding read_value page_bounds
    run-typed h e =
        run-attempt server (key_size client key h.kind) _
        ∙ run-attempt server (read_value client conn key h.kind 0) _
        ∙ run-of_result v _
        ∙ ap
            (λ r. try r (
              beside client
                (meta_of client key h (size_or_zero (run server (key_size client key h.kind))))))
            (run-value_of v h.kind g c e)

    sequential :
        key_kind ≢ no_kind
        → server (value_cmd key key_kind) ≡ answered v
        → run server (read_key_sequentially client conn key)
          ≡ try (decode_value client key_kind v) (
              beside client (
                meta_of client key head (size_or_zero (run server (key_size client key key_kind)))))
    unfolding read_key_sequentially head_of head_cmds
    sequential n e =
        run-bind server (key_head client conn key) (read_there client conn key)
        ∙ ap (λ r. then_run server r (read_there client conn key)) run-key_head
        ∙ run-else (kind_eq key_kind no_kind) _ _ (kind_ne key_kind n)
        ∙ run-typed head e

    speculative :
        server (value_cmd key key_kind) ≡ answered v
        → run server (read_key client conn key)
          ≡ try
              (decode_value client key_kind v)
              (beside client (meta_at client wants key replies key_kind))
    unfolding read_key read_of read_cmds
    speculative e =
        run-then (has conn.capabilities get_range) (has conn.capabilities cursor_collection_scan)
          (pipeline client conn (read_cmds wants key) >>= decode)
          (read_key_sequentially client conn key) g c
        ∙ run-bind server (pipeline client conn (read_cmds wants key)) decode
        ∙ ap (λ r. then_run server r decode)
            (run-pipeline client server conn (read_cmds wants key)
              (read_cmds-allowed client wants key))
        ∙ run-of_result v (read_of client wants key replies)
        ∙ ap (λ r. try r (beside client (meta_at client wants key replies key_kind)))
            (value-slot v key_kind e)

    -- On a server that has every bounded read and whose data stays, where the key has a type and the
    -- read of its value is answered, one round trip reads what two do.
    pub read_key-eq-sequential :
        key_kind ≢ no_kind
        → server (value_cmd key key_kind) ≡ answered v
        → run server (read_key client conn key) ≡ run server (read_key_sequentially client conn key)
    read_key-eq-sequential n e =
        speculative e
        ∙ ap (λ m. try (decode_value client key_kind v) (beside client m)) meta-slot
        ∙ sym (sequential n e)
