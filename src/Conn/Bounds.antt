-- ===== src/Conn/Bounds.antt =====
-- The reads that cost a page at most, whatever the size of the key: what the readers of the keys and
-- of the queues may ask for.
use keylens.Base.{ℕ, ◌+◌, ◌^◌, ◌≤◌, ◌<◌, ◌≡◌, true, List, [], ◌∷◌, length}
use keylens.Base.Text.{Text, codes}
use keylens.Conn.Value.{Value, text, number}
use keylens.Conn.Program.{Command}
use keylens.Conn.Command.{one_of}
use keylens.Conn.Decode.{max_string_bytes}

-- The commands that read a property of a key, whatever its size.
abbrev pub property_reads : List Text
property_reads =
    codes "TYPE"
    ∷ codes "PTTL"
    ∷ codes "STRLEN"
    ∷ codes "HLEN"
    ∷ codes "LLEN"
    ∷ codes "SCARD"
    ∷ codes "ZCARD"
    ∷ codes "XLEN"
    ∷ []

abbrev pub ranges : List Text
ranges = codes "LRANGE" ∷ codes "ZRANGE" ∷ codes "ZREVRANGE" ∷ []

abbrev pub cursor_reads : List Text
cursor_reads = codes "HSCAN" ∷ codes "SSCAN" ∷ []

-- A read of one key that asks for at most `limit` elements, or for so many bytes as a string may
-- show: the bounds of a range are not negative, fit an `i64` and are so far apart.
pub data BoundedRead (limit : ℕ) : Command → Type 0 where
  property_read :
      (name key : Text)
      → one_of name property_reads ≡ true
      → BoundedRead limit (name, text key ∷ [])
  memory_read :
      (key : Text) → BoundedRead limit (codes "MEMORY", text (codes "USAGE") ∷ text key ∷ [])
  string_read :
      (key : Text) (stop : ℕ)
      → stop < max_string_bytes
      → BoundedRead limit (codes "GETRANGE", text key ∷ number 0 ∷ number stop ∷ [])
  range_read :
      (name key : Text) (start stop : ℕ) (rest : List Value)
      → one_of name ranges ≡ true
      → start ≤ stop
      → stop < start + limit
      → stop < 2 ^ 63
      → BoundedRead limit (name, text key ∷ number start ∷ number stop ∷ rest)
  cursor_read :
      (name key cursor : Text) (n : ℕ)
      → one_of name cursor_reads ≡ true
      → n ≤ limit
      → BoundedRead limit (name, text key ∷ text cursor ∷ text (codes "COUNT") ∷ number n ∷ [])
  stream_read :
      (key from to : Text) (n : ℕ)
      → n ≤ limit
      → BoundedRead limit
          (codes "XRANGE", text key ∷ text from ∷ text to ∷ text (codes "COUNT") ∷ number n ∷ [])
  fields_read :
      (key : Text) (fields : List Value)
      → length fields ≤ limit
      → BoundedRead limit (codes "HMGET", text key ∷ fields)
