-- ===== src/Conn/Kind.antt =====
-- `enum Kind` of crates/keylens-conn/src/value.rs: the type of a Redis key.
pub mod Names
use keylens.Base.{ℕ, suc, Bool, List, [], ◌∷◌, Option, none, some, if◌then◌else◌, ◌==◌}
use keylens.Base.Text.{Text, codes, text_eq}

pub data Kind : Type 0 where
  string hash list set zset stream no_kind other : Kind

-- `Kind::parse`
unfoldable pub parse_kind : Text → Kind
parse_kind s =
    if text_eq s (codes "string")
    then string
    else if text_eq s (codes "hash")
    then hash
    else if text_eq s (codes "list")
    then list
    else if text_eq s (codes "set")
    then set
    else if text_eq s (codes "zset")
    then zset
    else if text_eq s (codes "stream")
    then stream
    else if text_eq s (codes "none")
    then no_kind
    else other

-- `Kind::label`
abbrev pub kind_label : Kind → Text
kind_label string = codes "string"
kind_label hash = codes "hash"
kind_label list = codes "list"
kind_label set = codes "set"
kind_label zset = codes "zset"
kind_label stream = codes "stream"
kind_label no_kind = codes "none"
kind_label other = codes "other"

-- `Kind::tag`
abbrev tag : Kind → Text
tag string = codes "str"
tag hash = codes "hash"
tag list = codes "list"
tag set = codes "set"
tag zset = codes "zset"
tag stream = codes "strm"
tag no_kind = codes "-"
tag other = codes "?"

-- The derived equality, through the constructors' numbers.
abbrev kind_number : Kind → ℕ
kind_number string = 0
kind_number hash = 1
kind_number list = 2
kind_number set = 3
kind_number zset = 4
kind_number stream = 5
kind_number no_kind = 6
kind_number other = 7

abbrev pub kind_eq : Kind → Kind → Bool
kind_eq k l = kind_number k == kind_number l

-- `SPECULATIVE_KINDS`
abbrev pub speculative_kinds : List Kind
speculative_kinds = string ∷ hash ∷ list ∷ set ∷ zset ∷ stream ∷ []

abbrev next_slot : Option ℕ → Option ℕ
next_slot none = none
next_slot (some i) = some (suc i)

abbrev kind_position : Kind → List Kind → Option ℕ
kind_position k [] = none
kind_position k (l ∷ ls) = if kind_eq l k then some 0 else next_slot (kind_position k ls)

-- `Kind::slot`
unfoldable pub slot : Kind → Option ℕ
slot k = kind_position k speculative_kinds

-- `Kind::size_cmd`
abbrev pub size_cmd : Kind → Option Text
size_cmd string = some (codes "STRLEN")
size_cmd hash = some (codes "HLEN")
size_cmd list = some (codes "LLEN")
size_cmd set = some (codes "SCARD")
size_cmd zset = some (codes "ZCARD")
size_cmd stream = some (codes "XLEN")
size_cmd _ = none
