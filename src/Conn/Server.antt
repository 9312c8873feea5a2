-- ===== src/Conn/Server.antt =====
-- crates/keylens-conn/src/server.rs: the slow log, the clients, the cluster and the channels.
use keylens.Base.{ℕ, suc, zero, List, [], ◌∷◌, ◌++◌, Option, none, some, if◌then◌else◌, take, map}
use keylens.Base.Text.{Text, codes}
use keylens.Base.Int.{ℤ, pos}
use keylens.Conn.Reply.{SlowEntry, ClientInfo, ClusterTopology, PubSubChannel}
use keylens.Conn.Value.{
  Value, array, cons, to_list, text, number, Client, chunks, filter_map, display_string,
}
use keylens.Conn.Error.{Result, ok, err}
use keylens.Conn.Capability.{has, slowlog, client_list, cluster, pub_sub}
use keylens.Conn.Program.{Program, done, attempt, ◌>>=◌}
use keylens.Conn.Command.{Conn, cmd}
use keylens.Conn.Listings.{
  or_0, parse_client_list, no_topology, parse_cluster_info, parse_cluster_nodes,
}

abbrev pub or_0ℤ : Option ℤ → ℤ
or_0ℤ none = pos 0
or_0ℤ (some n) = n

-- `join(" ")`
abbrev join_words : List Text → Text
join_words [] = []
join_words (w ∷ []) = w
join_words (w ∷ v ∷ ws) = w ++ b' ' ∷ join_words (v ∷ ws)

module _ (client : Client) where
  open client use {as_i64, as_u64}

  abbrev command_text : Value → Text
  command_text (array parts) = join_words (map (display_string client) (to_list parts))
  command_text v = display_string client v

  abbrev shown_at : List Value → ℕ → Text
  shown_at [] i = []
  shown_at (v ∷ vs) zero = display_string client v
  shown_at (v ∷ vs) (suc i) = shown_at vs i

  abbrev slow_entry : Value → Option SlowEntry
  slow_entry (array (cons id (cons at (cons duration (cons command rest))))) = some (record {
    id = or_0ℤ (as_i64 id);
    timestamp = or_0ℤ (as_i64 at);
    duration_us = or_0 (as_u64 duration);
    command = command_text command;
    client_addr = shown_at (to_list rest) 0;
    client_name = shown_at (to_list rest) 1;
  })
  slow_entry _ = none

  -- `parse_slowlog`
  unfoldable pub parse_slowlog : Value → List SlowEntry
  unfolding display_string
  parse_slowlog (array entries) = filter_map slow_entry (to_list entries)
  parse_slowlog _ = []

  abbrev channel_of : Value × Value → PubSubChannel
  channel_of (name, count) = record {
    name = display_string client name;
    subscribers = or_0 (as_u64 count);
  }

  -- `parse_numsub`
  unfoldable pub parse_numsub : Value → List PubSubChannel
  unfolding display_string
  parse_numsub (array items) = map channel_of (chunks (to_list items))
  parse_numsub _ = []

  -- `Conn::slowlog`
  unfoldable pub read_slowlog : Conn → ℕ → Program (List SlowEntry)
  unfolding has cmd parse_slowlog
  read_slowlog conn count =
      if has conn.capabilities slowlog
      then (cmd client (codes "SLOWLOG") (text (codes "GET") ∷ number count ∷ []) >>= λ reply.
          done (parse_slowlog reply))
      else done []

  -- `Conn::client_list`
  unfoldable pub read_clients : Conn → Program (List ClientInfo)
  unfolding has cmd parse_client_list display_string
  read_clients conn =
      if has conn.capabilities client_list
      then (cmd client (codes "CLIENT") (text (codes "LIST") ∷ []) >>= λ reply.
          done (parse_client_list (display_string client reply)))
      else done []

  abbrev with_nodes : ClusterTopology → Result Value → ClusterTopology
  unfolding parse_cluster_nodes display_string
  with_nodes t (ok nodes) = record t { nodes = parse_cluster_nodes (display_string client nodes) }
  with_nodes t (err e) = t

  abbrev asked_nodes : ClusterTopology → Program ClusterTopology
  unfolding cmd
  asked_nodes t =
      if t.enabled
      then (attempt (cmd client (codes "CLUSTER") (text (codes "NODES") ∷ [])) >>= λ nodes.
          done (with_nodes t nodes))
      else done t

  -- `Conn::cluster_topology`
  unfoldable pub read_topology : Conn → Program ClusterTopology
  unfolding has cmd parse_cluster_info display_string parse_cluster_nodes
  read_topology conn =
      if has conn.capabilities cluster
      then (cmd client (codes "CLUSTER") (text (codes "INFO") ∷ []) >>= λ info.
          asked_nodes (parse_cluster_info (display_string client info)))
      else done no_topology

  abbrev counted : List Text → Program (List PubSubChannel)
  unfolding cmd parse_numsub
  counted [] = done []
  counted (n ∷ ns) =
      cmd client (codes "PUBSUB") (text (codes "NUMSUB") ∷ map text (n ∷ ns)) >>= λ counts.
      done (parse_numsub counts)

  abbrev channels_in : ℕ → Value → Program (List PubSubChannel)
  unfolding display_string cmd parse_numsub
  channels_in limit (array items) =
      counted (take limit (map (display_string client) (to_list items)))
  channels_in limit _ = done []

  -- `Conn::pubsub_channels`
  unfoldable pub read_channels : Conn → ℕ → Program (List PubSubChannel)
  unfolding has cmd display_string parse_numsub
  read_channels conn limit =
      if has conn.capabilities pub_sub
      then (cmd client (codes "PUBSUB") (text (codes "CHANNELS") ∷ []) >>= channels_in limit)
      else done []
