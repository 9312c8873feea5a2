-- ===== src/Conn/Sample.antt =====
-- A client, a connection and a server for the tests: the server holds the list `k` of one element.
use keylens.Base.{ℕ, false, [], Option, none, some, if◌then◌else◌}
use keylens.Base.Text.{Text, codes, text_eq}
use keylens.Base.Int.{ℤ, pos, negsuc}
use keylens.Conn.Value.{Value, array, text, integer, nil, cons, Client}
use keylens.Conn.Error.{ClientError, other_kind}
use keylens.Conn.Info.{unknown_server}
use keylens.Conn.Capability.{available, scan_type_filter, unsupported, feature_eq}
use keylens.Conn.Program.{Command, Reply, answered, refused}
use keylens.Conn.Command.{Conn}

abbrev text_in : Value → Option Text
text_in (text t) = some t
text_in _ = none

abbrev integer_in : Value → Option ℤ
integer_in (integer n) = some n
integer_in _ = none

abbrev count_in : Value → Option ℕ
count_in (integer (pos n)) = some n
count_in _ = none

abbrev pub sample_client : Client
sample_client = record {
  as_string = text_in;
  as_i64 = integer_in;
  as_u64 = count_in;
  as_f64 = λ v. none;
  as_bytes = λ v. none;
  from_utf8_lossy = λ b. b;
  debug = λ v. [];
  as_string-text = λ t. λ i. some t;
}

-- A connection to a server that has every feature but the type filter of `SCAN`.
abbrev pub sample_conn : Conn
sample_conn = record {
  is_clustered = false;
  server = unknown_server;
  capabilities = record {
    feature_map = λ f. some (if feature_eq f scan_type_filter then unsupported else available);
    modules = [];
  };
  label = [];
  rtt = 0;
}

abbrev pub wrong_type : ClientError
wrong_type = record { error_kind = other_kind; details = codes "WRONGTYPE" }

abbrev pub sample_list : Value
sample_list = array (cons (text (codes "a")) nil)

abbrev pub sample_server : Command → Reply
sample_server (name, args) =
    if text_eq name (codes "TYPE")
    then answered (text (codes "list"))
    else if text_eq name (codes "PTTL")
    then answered (integer (negsuc 0))
    else if text_eq name (codes "LLEN")
    then answered (integer (pos 1))
    else if text_eq name (codes "LRANGE")
    then answered sample_list
    else refused wrong_type
