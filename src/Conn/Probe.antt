-- ===== src/Conn/Probe.antt =====
-- crates/keylens-conn/src/conn.rs: the capability probes of a new connection.
pub mod Positions
use keylens.Base.{
  ℕ, Bool, true, false, ◌&&◌, List, [], ◌∷◌, Option, none, some, if◌then◌else◌, ◌==◌, length, map,
}
use keylens.Base.Text.{Text, codes, text_eq}
use keylens.Base.Lines.{to_lowercase}
use keylens.Conn.Value.{
  Value, array, map_value, Values, nil, cons, Entries, no_entry, entry, to_list, text, number,
  Client, filter_map,
}
use keylens.Conn.Error.{ClientError, ConnError, command_error, contains, Result, ok, err}
use keylens.Conn.Capability.{
  Availability, available, unsupported, Feature, config, client_list, slowlog, memory_stats,
  cluster, modules_feature, scan_type_filter, get_range, cursor_collection_scan, streams_feature,
  pub_sub, server_info, Capabilities, no_capabilities, set_feature, has, classify, feature_eq,
}
use keylens.Conn.Program.{
  Command, Reply, answered, refused, Flush, not_buffered, flushed, Program, done, ask, ask_all,
  ◌>>=◌,
}

-- `PROBE_KEY`
abbrev probe_key : Value
probe_key = text (codes "keylens:__probe__")

abbrev pub Probe : Type 0
Probe = Feature × Command

-- `probe_commands`
abbrev pub probe_commands : List Probe
probe_commands =
    (config, (codes "CONFIG", text (codes "GET") ∷ text (codes "maxmemory") ∷ []))
    ∷ (client_list, (codes "CLIENT", text (codes "INFO") ∷ []))
    ∷ (slowlog, (codes "SLOWLOG", text (codes "LEN") ∷ []))
    ∷ (memory_stats, (codes "MEMORY", text (codes "USAGE") ∷ probe_key ∷ []))
    ∷ (cluster, (codes "CLUSTER", text (codes "INFO") ∷ []))
    ∷ (modules_feature, (codes "MODULE", text (codes "LIST") ∷ []))
    ∷ (streams_feature, (codes "XLEN", probe_key ∷ []))
    ∷ (pub_sub, (codes "PUBSUB", text (codes "CHANNELS") ∷ probe_key ∷ []))
    ∷ (get_range, (codes "GETRANGE", probe_key ∷ number 0 ∷ number 0 ∷ []))
    ∷ (
      cursor_collection_scan,
      (codes "HSCAN", probe_key ∷ text (codes "0") ∷ text (codes "COUNT") ∷ number 1 ∷ []),
    )
    ∷ (
      scan_type_filter,
      (
        codes "SCAN",
        text (codes "0")
            ∷ text (codes "COUNT")
            ∷ number 1
            ∷ text (codes "TYPE")
            ∷ text (codes "string")
            ∷ [],
      ),
    )
    ∷ []

-- What one reply says of a feature.
unfoldable pub probed : Feature → Reply → Availability
unfolding contains to_lowercase classify
probed f (answered v) = available
probed f (refused e) =
    if feature_eq f scan_type_filter && contains (to_lowercase e.details) (codes "syntax")
    then unsupported
    else classify e

-- The loop of `apply_probe_results` over the probes with their replies.
unfoldable pub set_probed : Capabilities → List Probe → List Reply → Capabilities
unfolding probed set_feature
set_probed caps ((f, c) ∷ ps) (r ∷ rs) = set_probed (set_feature caps f (probed f r)) ps rs
set_probed caps _ _ = caps

module _ (client : Client) where
  open client use {as_string}

  abbrev or_later : Bool → Option Text → Option Text → Option Text
  or_later true here later = here
  or_later false here later = later

  abbrev is_name : Option Text → Bool
  is_name none = false
  is_name (some s) = text_eq s (codes "name")

  -- The `find` over the windows of two elements.
  abbrev name_in_windows : Values → Option Text
  name_in_windows (cons k (cons v r)) =
      or_later (is_name (as_string k)) (as_string v) (name_in_windows (cons v r))
  name_in_windows _ = none

  abbrev name_in_map : Entries → Option Text
  name_in_map no_entry = none
  name_in_map (entry k v r) = or_later (is_name k) (as_string v) (name_in_map r)

  abbrev module_name : Value → Option Text
  module_name (array kv) = name_in_windows kv
  module_name (map_value m) = name_in_map m
  module_name _ = none

  -- `parse_module_names`
  unfoldable pub parse_module_names : Value → List Text
  parse_module_names (array mods) = filter_map module_name (to_list mods)
  parse_module_names _ = []

  -- The reply to the probe of the modules.
  abbrev modules_reply : List Probe → List Reply → Option Reply
  modules_reply ((f, c) ∷ ps) (r ∷ rs) =
      if feature_eq f modules_feature then some r else modules_reply ps rs
  modules_reply _ _ = none

  abbrev with_modules : Capabilities → Option Reply → Capabilities
  with_modules caps (some (answered v)) = record caps { modules = parse_module_names v }
  with_modules caps _ = caps

  -- `apply_probe_results`
  unfoldable pub apply_probe_results : Capabilities → List Probe → List Reply → Capabilities
  unfolding set_probed has parse_module_names
  apply_probe_results caps probes replies =
      let c = set_probed caps probes replies in
      if has c modules_feature then with_modules c (modules_reply probes replies) else c

  -- `probe_serially`
  unfoldable pub probe_serially : List Command → Program (List Reply)
  probe_serially [] = done []
  probe_serially (c ∷ cs) = ask c (λ r. probe_serially cs >>= λ rs. done (r ∷ rs))

  abbrev or_serially : List Command → Flush → Program (List Reply)
  unfolding probe_serially
  or_serially cs (not_buffered e) = probe_serially cs
  or_serially cs (flushed rs) = if length rs == length cs then done rs else probe_serially cs

  abbrev pub command_of : Probe → Command
  command_of (f, c) = c

  -- `run_probe_pipeline`
  unfoldable pub run_probe_pipeline : Bool → List Command → Program (List Reply)
  unfolding probe_serially
  run_probe_pipeline is_clustered cs =
      if is_clustered then probe_serially cs else ask_all cs (or_serially cs)

  -- `probe`
  unfoldable pub probe : Bool → Program Capabilities
  unfolding run_probe_pipeline apply_probe_results
  probe is_clustered =
      run_probe_pipeline is_clustered (map command_of probe_commands) >>= λ replies.
      done (apply_probe_results no_capabilities probe_commands replies)

-- `classify_from`
abbrev pub classify_from : ConnError → Availability
unfolding classify
classify_from (command_error c e) = classify e
classify_from _ = unsupported
