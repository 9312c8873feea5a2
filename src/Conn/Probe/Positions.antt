-- ===== src/Conn/Probe/Positions.antt =====
-- Which probe settles which capability.
use keylens.Base.{
  ◌≡◌, refl, ap, ◌∙◌, Bool, true, false, List, [], ◌∷◌, Option, none, some, map, if◌then◌else◌, All,
  Bool-cases, inl, inr, length, ◌==◌,
}
use keylens.Base.Text.{codes}
use keylens.Conn.Value.{Client, Value, text, number}
use keylens.Conn.Error.{ok}
use keylens.Conn.Capability.{
  Availability, unsupported, Feature, server_info, Capabilities, no_capabilities, get_feature,
  config, client_list, slowlog, memory_stats, cluster, modules_feature, scan_type_filter, get_range,
  cursor_collection_scan, streams_feature, pub_sub,
}
use keylens.Conn.Program.{
  Command, Reply, answered, refused, Program, done, run, run-bind, then_run, Flush, not_buffered,
  flushed, Sends, Sends-bind,
}
use keylens.Conn.Command.Allowed.{IsAllowed, All-IsAllowed}
use keylens.Conn.Command.{read_only_command, first_unsafe}
use keylens.Conn.Probe.{
  probe_commands, probed, set_probed, with_modules, modules_reply, apply_probe_results, command_of,
  or_serially, probe_serially, run_probe_pipeline, probe,
}

abbrev no_such_key : Value
no_such_key = text (codes "keylens:__probe__")

-- The command whose answer tells whether a feature is there. `INFO` is asked for by itself.
abbrev pub telling_command : Feature → Option Command
telling_command server_info = none
telling_command config = some (codes "CONFIG", text (codes "GET") ∷ text (codes "maxmemory") ∷ [])
telling_command client_list = some (codes "CLIENT", text (codes "INFO") ∷ [])
telling_command slowlog = some (codes "SLOWLOG", text (codes "LEN") ∷ [])
telling_command memory_stats = some (codes "MEMORY", text (codes "USAGE") ∷ no_such_key ∷ [])
telling_command cluster = some (codes "CLUSTER", text (codes "INFO") ∷ [])
telling_command modules_feature = some (codes "MODULE", text (codes "LIST") ∷ [])
telling_command scan_type_filter = some (
  codes "SCAN",
  text (codes "0")
      ∷ text (codes "COUNT")
      ∷ number 1
      ∷ text (codes "TYPE")
      ∷ text (codes "string")
      ∷ [],
)
telling_command get_range = some (codes "GETRANGE", no_such_key ∷ number 0 ∷ number 0 ∷ [])
telling_command cursor_collection_scan =
    some (codes "HSCAN", no_such_key ∷ text (codes "0") ∷ text (codes "COUNT") ∷ number 1 ∷ [])
telling_command streams_feature = some (codes "XLEN", no_such_key ∷ [])
telling_command pub_sub = some (codes "PUBSUB", text (codes "CHANNELS") ∷ no_such_key ∷ [])

module _ (client : Client) (server : Command → Reply) where
  -- What the answer to its own command says of a feature; one with no command is not there.
  abbrev pub settled : Feature → Option Command → Availability
  settled f none = unsupported
  settled f (some c) = probed f (server c)

  run-probe_serially :
      (cs : List Command) → run server (probe_serially client cs) ≡ ok (map server cs)
  unfolding probe_serially
  run-probe_serially [] = refl
  run-probe_serially (c ∷ cs) =
      run-bind server (probe_serially client cs) (λ rs. done (server c ∷ rs))
      ∙ rw (run-probe_serially cs)

  get-with_modules :
      (b : Bool) (c : Capabilities) (o : Option Reply) (f : Feature)
      → get_feature (if b then with_modules client c o else c) f ≡ get_feature c f
  unfolding get_feature
  get-with_modules true c none f = refl
  get-with_modules true c (some (answered v)) f = refl
  get-with_modules true c (some (refused e)) f = refl
  get-with_modules false c o f = refl

  abbrev replies : List Reply
  replies = map server (map (command_of client) probe_commands)

  abbrev caps : Capabilities
  caps = apply_probe_results client no_capabilities probe_commands replies

  get-set_probed :
      (f : Feature)
      → get_feature (set_probed no_capabilities probe_commands replies) f
        ≡ settled f (telling_command f)
  unfolding get_feature set_probed
  get-set_probed server_info = refl
  get-set_probed f = refl

  get-caps : (f : Feature) → get_feature caps f ≡ settled f (telling_command f)
  unfolding apply_probe_results
  get-caps f =
      get-with_modules _ (set_probed no_capabilities probe_commands replies)
        (modules_reply client probe_commands replies) f
      ∙ get-set_probed f

  run-probe : (is_clustered : Bool) → run server (probe client is_clustered) ≡ ok caps
  unfolding probe run_probe_pipeline
  run-probe true =
      let applied : List Reply → Program Capabilities =
        λ rs. done (apply_probe_results client no_capabilities probe_commands rs) in
      run-bind server (probe_serially client (map (command_of client) probe_commands)) applied
      ∙ ap (λ r. then_run server r applied)
          (run-probe_serially (map (command_of client) probe_commands))
  run-probe false = refl

  probes-allowed : first_unsafe client (map (command_of client) probe_commands) ≡ none
  unfolding first_unsafe read_only_command
  probes-allowed = rw (
    client.as_string-text (codes "GET"),
    client.as_string-text (codes "maxmemory"),
    client.as_string-text (codes "INFO"),
    client.as_string-text (codes "LEN"),
    client.as_string-text (codes "USAGE"),
    client.as_string-text (codes "LIST"),
    client.as_string-text (codes "CHANNELS"),
  )

  probe_serially-Sends :
      (cs : List Command)
      → All (IsAllowed client) cs
      → Sends (IsAllowed client) (λ e. ⊥) (probe_serially client cs)
  unfolding probe_serially
  probe_serially-Sends [] h = tt
  probe_serially-Sends (c ∷ cs) h = (
    h.0,
    λ r.
        Sends-bind (IsAllowed client) (λ e. ⊥) (probe_serially client cs) _
          (probe_serially-Sends cs h.1) (λ rs. tt),
  )

  or_serially-Sends :
      (cs : List Command)
      → All (IsAllowed client) cs
      → (f : Flush) → Sends (IsAllowed client) (λ e. ⊥) (or_serially client cs f)
  unfolding or_serially probe_serially
  or_serially-Sends cs h (not_buffered e) = probe_serially-Sends cs h
  or_serially-Sends cs h (flushed rs) = elim (Bool-cases (length rs == length cs)) [
    | inl e ↦ rw e tt
    | inr e ↦ rw e (probe_serially-Sends cs h)
  ]

  run_probe_pipeline-Sends :
      (is_clustered : Bool) (cs : List Command)
      → All (IsAllowed client) cs
      → Sends (IsAllowed client) (λ e. ⊥) (run_probe_pipeline client is_clustered cs)
  unfolding run_probe_pipeline
  run_probe_pipeline-Sends true cs h = probe_serially-Sends cs h
  run_probe_pipeline-Sends false cs h = (h, or_serially-Sends cs h)

  probe-Sends :
      (is_clustered : Bool) → Sends (IsAllowed client) (λ e. ⊥) (probe client is_clustered)
  unfolding probe
  probe-Sends is_clustered =
      let cs : List Command = map (command_of client) probe_commands in
      Sends-bind (IsAllowed client) (λ e. ⊥) (run_probe_pipeline client is_clustered cs) _
        (run_probe_pipeline-Sends is_clustered cs (All-IsAllowed client cs probes-allowed))
        (λ rs. tt)

  -- Of one server or of a cluster, and whatever comes back, the probe sends commands that the
  -- allowlist has, and no others, and never fails. Where the data stays, it ends in capabilities that
  -- have each feature settled by the answer to the command that tells it, and `INFO` as not there.
  pub run-probe_settles :
      (is_clustered : Bool)
      → Sends (IsAllowed client) (λ e. ⊥) (probe client is_clustered)
        × (c : Capabilities) × (run server (probe client is_clustered) ≡ ok c)
        × ((f : Feature) → get_feature c f ≡ settled f (telling_command f))
  run-probe_settles is_clustered =
      (probe-Sends is_clustered, caps, run-probe is_clustered, get-caps)
