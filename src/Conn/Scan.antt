-- ===== src/Conn/Scan.antt =====
-- crates/keylens-conn/src/conn.rs: scanning the keyspace, a page at a time.
use keylens.Base.{ℕ, Bool, true, List, [], ◌∷◌, ◌++◌, Option, none, some, if◌then◌else◌}
use keylens.Base.Text.{Text, codes, text_eq}
use keylens.Conn.Value.{Value, array, nil, cons, to_list, text, number, Client, filter_map}
use keylens.Conn.Error.{ClientError, ConnError, command_error, reply_error, Result, ok, err}
use keylens.Conn.Capability.{has, scan_type_filter}
use keylens.Conn.Program.{Program, fail, of_result, ◌>>=◌}
use keylens.Conn.Command.{Conn, execute}

-- `struct ScanPage`
pub record ScanPage : Type 0 where
  pub cursor : Text
  pub keys : List Text

-- `ScanPage::is_complete`
unfoldable pub is_complete : ScanPage → Bool
is_complete p = text_eq p.cursor (codes "0")

-- `fred::types::scan::ScanType`
pub data ScanType : Type 0 where
  string_type hash_type list_type set_type zset_type stream_type : ScanType

-- `parse_scan_type`
unfoldable pub parse_scan_type : Text → Option ScanType
parse_scan_type raw =
    if text_eq raw (codes "string")
    then some string_type
    else if text_eq raw (codes "hash")
    then some hash_type
    else if text_eq raw (codes "list")
    then some list_type
    else if text_eq raw (codes "set")
    then some set_type
    else if text_eq raw (codes "zset")
    then some zset_type
    else if text_eq raw (codes "stream")
    then some stream_type
    else none

abbrev match_args : Option Text → List Value
match_args none = []
match_args (some p) = text (codes "MATCH") ∷ text p ∷ []

abbrev type_args : Bool → Option Text → List Value
type_args true (some t) = text (codes "TYPE") ∷ text t ∷ []
type_args _ _ = []

-- The arguments that `scan_page` sends.
unfoldable pub scan_args : Conn → Text → Option Text → ℕ → Option Text → List Value
unfolding has
scan_args conn cursor pattern count type_filter =
    text cursor
    ∷ (match_args pattern
        ++ (text (codes "COUNT")
            ∷ number count
            ∷ type_args (has conn.capabilities scan_type_filter) type_filter))

module _ (client : Client) where
  open client use {as_string, debug}

  abbrev scan_error : Text → ConnError
  scan_error detail = reply_error (codes "SCAN") detail

  abbrev page_of : Text → Value → Result ScanPage
  page_of cursor (array items) =
      ok (record { cursor = cursor; keys = filter_map as_string (to_list items) })
  page_of cursor v = err (scan_error (codes "keys not an array, got " ++ debug v))

  abbrev with_cursor : Option Text → Value → Result ScanPage
  with_cursor none items = err (scan_error (codes "cursor not a string"))
  with_cursor (some cursor) items = page_of cursor items

  -- `parse_scan_reply`
  unfoldable pub parse_scan_reply : Value → Result ScanPage
  parse_scan_reply (array (cons cursor (cons items nil))) = with_cursor (as_string cursor) items
  parse_scan_reply v = err (scan_error (codes "expected 2-element array, got " ++ debug v))

  -- `Conn::scan_page`
  unfoldable pub scan_page : Conn → Text → Option Text → ℕ → Option Text → Program ScanPage
  unfolding scan_args parse_scan_reply
  scan_page conn cursor pattern count type_filter =
      if conn.is_clustered
      then fail
          (scan_error (codes "a single cursor cannot scan Redis Cluster; use Conn::key_scanner"))
      else (execute client (codes "SCAN") (scan_args conn cursor pattern count type_filter)
          >>= λ reply. of_result (parse_scan_reply reply))

-- What the client's scanner yields next: a page, whose keys may be none and need not be texts, the
-- error of a node, or the end.
pub data Scanned : Type 0 where
  page_of_keys : Option (List (Option Text)) → Scanned
  scan_failed : ClientError → Scanned

abbrev pub texts : Option (List (Option Text)) → List Text
texts none = []
texts (some keys) = filter_map (λ k. k) keys

-- `KeyScanner::next_page`, on what the scanner has yet to yield; it leaves the rest.
unfoldable pub next_page : List Scanned → Result (Option (List Text)) × List Scanned
next_page [] = (ok none, [])
next_page (page_of_keys keys ∷ rest) = (ok (some (texts keys)), rest)
next_page (scan_failed e ∷ rest) = (err (command_error (codes "SCAN") e), rest)
