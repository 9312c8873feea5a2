-- ===== src/Conn/Command.antt =====
-- crates/keylens-conn/src/conn.rs: the connection, its allowlist of commands, `cmd` and `pipeline`.
pub mod Batch
pub mod Allowed
use keylens.Base.{
  ℕ, Bool, true, false, not, ◌&&◌, ◌||◌, List, [], ◌∷◌, ◌++◌, Option, none, some, if◌then◌else◌,
  ◌==◌, length, get_elem?,
}
use keylens.Base.Text.{Text, codes, text_eq, or_empty, compare_text}
use keylens.Base.Decimal.{to_string}
use keylens.Base.Lines.{to_lowercase, to_uppercase}
use keylens.Conn.Reply.{ServerInfo}
use keylens.Conn.Value.{Value, Client, first_text}
use keylens.Conn.Error.{
  ClientError, ConnError, command_error, reply_error, unsafe_command, Result, ok, err,
}
use keylens.Conn.Capability.{Capabilities}
use keylens.Conn.Program.{
  Command, Reply, answered, refused, Flush, not_buffered, flushed, Program, done, fail, ask,
  ask_all, attempt, ◌>>=◌,
}

-- `struct Conn`, without its client. The round trip is in milliseconds.
pub record Conn : Type 0 where
  pub is_clustered : Bool
  pub server : ServerInfo
  pub capabilities : Capabilities
  pub label : Text
  pub rtt : ℕ

-- `CONFIG_PARAMS`
abbrev pub config_params : List Text
config_params =
    codes "maxmemory"
    ∷ codes "maxmemory-policy"
    ∷ codes "appendonly"
    ∷ codes "save"
    ∷ codes "databases"
    ∷ codes "timeout"
    ∷ []

-- `contains` on a slice of texts, and the alternatives of a pattern.
abbrev pub one_of : Text → List Text → Bool
one_of t [] = false
one_of t (u ∷ us) = text_eq t u || one_of t us

-- The commands that `read_only_command` allows with any arguments.
abbrev pub plain_reads : List Text
plain_reads =
    codes "GETRANGE"
    ∷ codes "HGET"
    ∷ codes "HMGET"
    ∷ codes "HSCAN"
    ∷ codes "HLEN"
    ∷ codes "LLEN"
    ∷ codes "LRANGE"
    ∷ codes "PTTL"
    ∷ codes "SCAN"
    ∷ codes "SCARD"
    ∷ codes "SSCAN"
    ∷ codes "STRLEN"
    ∷ codes "TYPE"
    ∷ codes "XLEN"
    ∷ codes "XPENDING"
    ∷ codes "XRANGE"
    ∷ codes "ZCARD"
    ∷ codes "ZRANGE"
    ∷ codes "ZREVRANGE"
    ∷ []

-- `arg_at` of `read_only_command`
abbrev pub text_of : Client → Option Value → Text
text_of client none = []
text_of client (some v) = or_empty (client.as_string v)

module _ (client : Client) where
  abbrev pub subcommand : List Value → Text
  subcommand args = to_uppercase (or_empty (first_text client args))

  abbrev pub arg_at : List Value → ℕ → Text
  arg_at args i = text_of client (get_elem? args i)

  -- `read_only_command`
  unfoldable pub read_only_command : Text → List Value → Bool
  unfolding to_uppercase to_lowercase compare_text
  read_only_command name args =
      if text_eq name (codes "CLIENT")
      then one_of (subcommand args) (codes "INFO" ∷ codes "LIST" ∷ [])
      else if text_eq name (codes "CLUSTER")
      then one_of (subcommand args)
          (codes "INFO" ∷ codes "NODES" ∷ codes "SHARDS" ∷ codes "SLOTS" ∷ [])
      else if text_eq name (codes "CONFIG")
      then text_eq (subcommand args) (codes "GET")
        && length args == 2
        && one_of (to_lowercase (arg_at args 1)) config_params
      else if text_eq name (codes "MEMORY")
      then text_eq (subcommand args) (codes "USAGE")
      else if text_eq name (codes "MODULE")
      then text_eq (subcommand args) (codes "LIST")
      else if text_eq name (codes "PUBSUB")
      then one_of (subcommand args) (codes "CHANNELS" ∷ codes "NUMPAT" ∷ codes "NUMSUB" ∷ [])
      else if text_eq name (codes "SLOWLOG")
      then one_of (subcommand args) (codes "GET" ∷ codes "LEN" ∷ [])
      else if text_eq name (codes "XINFO")
      then one_of (subcommand args) (codes "STREAM" ∷ codes "GROUPS" ∷ codes "CONSUMERS" ∷ [])
      else one_of name plain_reads

  abbrev pub of_reply : Text → Reply → Program Value
  of_reply name (answered v) = done v
  of_reply name (refused e) = fail (command_error name e)

  -- `Conn::execute`
  abbrev pub execute : Text → List Value → Program Value
  execute name args = ask (name, args) (of_reply name)

  -- `Conn::cmd`
  unfoldable pub cmd : Text → List Value → Program Value
  unfolding read_only_command
  cmd name args =
      if read_only_command name args then execute name args else fail (unsafe_command name)

  -- The first command of a batch that the allowlist refuses.
  unfoldable pub first_unsafe : List Command → Option Text
  first_unsafe [] = none
  first_unsafe ((name, args) ∷ cs) =
      if read_only_command name args then first_unsafe cs else some name

  -- The routing of a batch in a cluster, each command by itself. The chunks of 64 bound how many
  -- wait at once, and leave the order of the replies.
  unfoldable pub routed : List Command → Program (List (Result Value))
  routed [] = done []
  routed ((name, args) ∷ cs) =
      attempt (execute name args) >>= λ r. routed cs >>= λ rs. done (r ∷ rs)

  abbrev pub named : Text → Reply → Result Value
  named name (answered v) = ok v
  named name (refused e) = err (command_error name e)

  -- The `zip` of the replies with the commands.
  unfoldable pub zipped : List Reply → List Command → List (Result Value)
  zipped [] cs = []
  zipped (r ∷ rs) [] = []
  zipped (r ∷ rs) ((name, args) ∷ cs) = named name r ∷ zipped rs cs

  abbrev count_detail : ℕ → ℕ → Text
  count_detail expected got =
      codes "expected " ++ (to_string expected ++ (codes " replies, got " ++ to_string got))

  unfoldable pub matched : List Command → Flush → Program (List (Result Value))
  unfolding zipped
  matched cs (not_buffered e) = fail (command_error (codes "PIPELINE") e)
  matched cs (flushed rs) =
      if length rs == length cs
      then done (zipped rs cs)
      else fail (reply_error (codes "PIPELINE") (count_detail (length cs) (length rs)))

  -- `Conn::pipeline_unchecked`
  unfoldable pub pipeline_unchecked : Conn → List Command → Program (List (Result Value))
  unfolding routed matched
  pipeline_unchecked conn cs = if conn.is_clustered then routed cs else ask_all cs (matched cs)

  abbrev refuse : Option Text → Program (List (Result Value)) → Program (List (Result Value))
  refuse (some name) rest = fail (unsafe_command name)
  refuse none rest = rest

  -- `Conn::pipeline`
  unfoldable pub pipeline : Conn → List Command → Program (List (Result Value))
  unfolding first_unsafe pipeline_unchecked
  pipeline conn cs = refuse (first_unsafe cs) (pipeline_unchecked conn cs)

-- `replies.get(i).and_then(|r| r.as_ref().ok())`
abbrev pub ok_value : Option (Result Value) → Option Value
ok_value none = none
ok_value (some (ok v)) = some v
ok_value (some (err e)) = none

abbrev pub reply_at : List (Result Value) → ℕ → Option Value
reply_at rs i = ok_value (get_elem? rs i)
