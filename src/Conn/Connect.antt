-- ===== src/Conn/Connect.antt =====
-- crates/keylens-conn/src/conn.rs: what a new connection makes of the answer to `INFO` and of the
-- probes. The handshake with its deadline is the client's.
use keylens.Base.{
  ◌∙◌, ◌||◌, List, ◌∷◌, ◌≡◌, refl, ap, Bool, true, false, not, ◌&&◌, [], if◌then◌else◌, arith,
  Bool-cases, inl, inr,
}
use keylens.Base.Text.{codes, Text, is_empty}
use keylens.Conn.Reply.{ServerInfo}
use keylens.Conn.Error.{contains, command_error, ClientError, Result, ok, err}
use keylens.Conn.Info.{parse_info, unknown_server}
use keylens.Conn.Info.Fields.{any_field, empty-parse_info}
use keylens.Conn.Capability.{
  Availability, available, unsupported, is_available, Capabilities, server_info, set_feature,
  get_feature, has, classify,
}
use keylens.Conn.Probe.{classify_from, probe}
use keylens.Conn.Probe.Positions.{run-probe_settles}
use keylens.Conn.Value.{Client}
use keylens.Conn.Program.{Command, Reply, run}
use keylens.Base.Lines.{lines, to_lowercase}

abbrev is_unsupported : Availability → Bool
is_unsupported unsupported = true
is_unsupported _ = false

-- The last statement of the handshake.
unfoldable pub restored : ServerInfo → Capabilities → Capabilities
restored server caps =
    if is_unsupported (get_feature caps server_info) && not (is_empty server.info_fields)
    then set_feature caps server_info available
    else caps

-- The server and the capabilities of a connection, from what `raw_info` gave and what the probes set.
unfoldable pub connected : Result Text → Capabilities → ServerInfo × Capabilities
unfolding parse_info restored classify set_feature
connected (ok raw) caps = (parse_info raw, restored (parse_info raw) caps)
connected (err e) caps =
    (unknown_server, restored unknown_server (set_feature caps server_info (classify_from e)))

restored-empty :
    (s : ServerInfo) (caps : Capabilities) → s.info_fields ≡ [] → restored s caps ≡ caps
unfolding restored
restored-empty s caps h = ground arith

set-has : (caps : Capabilities) → has (set_feature caps server_info available) server_info ≡ true
unfolding has set_feature
set-has caps = refl

not_had :
    (caps : Capabilities)
    → get_feature caps server_info ≡ unsupported
    → has caps server_info ≡ false
unfolding has
not_had caps h = ap is_available h

restored-has :
    (s : ServerInfo) (caps : Capabilities)
    → get_feature caps server_info ≡ unsupported
    → has (restored s caps) server_info ≡ not (is_empty s.info_fields)
unfolding restored
restored-has s caps h = elim (Bool-cases (is_empty s.info_fields)) [
  | inl e ↦ rw (h, e) (not_had caps h)
  | inr e ↦ rw (h, e) (set-has caps)
]

-- The words of an error that takes a feature for missing, or for refused.
abbrev pub refusal_words : List Text
refusal_words =
    codes "unknown command"
    ∷ codes "unknown subcommand"
    ∷ codes "not supported"
    ∷ codes "noperm"
    ∷ codes "no permissions"
    ∷ codes "not allowed"
    ∷ codes "disabled"
    ∷ codes "unauthorized"
    ∷ codes "restricted"
    ∷ codes "forbidden"
    ∷ []

abbrev pub mentions_any : Text → List Text → Bool
mentions_any s [] = false
mentions_any s (w ∷ ws) = contains (to_lowercase s) w || mentions_any s ws

not-not : (b : Bool) → not (not b) ≡ b
not-not true = refl
not-not false = refl

classify-refusal :
    (e : ClientError) → is_available (classify e) ≡ not (mentions_any e.details refusal_words)
unfolding classify
classify-refusal e = ground arith

failed-has :
    (caps : Capabilities) (name : Text) (e : ClientError)
    → has (connected (err (command_error name e)) caps).1 server_info
      ≡ not (mentions_any e.details refusal_words)
unfolding connected has get_feature
failed-has caps name e =
    ap (λ c. is_available (get_feature c server_info))
      (restored-empty unknown_server
        (set_feature caps server_info (classify_from (command_error name e))) refl)
    ∙ classify-refusal e

-- Whatever the server answers to the probes, the capabilities that they end in come to this: with an
-- `INFO` that was answered, the connection has `INFO` exactly when a line of the answer that is no
-- comment has a colon; with an `INFO` that failed, exactly when the text of the error mentions none of the ten phrases of a command
-- that is unknown or refused, in capital letters or small.
pub connected_info :
    (client : Client) (server : Command → Reply) (is_clustered : Bool) (raw name : Text)
    (e : ClientError)
    → (caps : Capabilities) × (run server (probe client is_clustered) ≡ ok caps)
      × (has (connected (ok raw) caps).1 server_info ≡ any_field (lines raw))
      × (has (connected (err (command_error name e)) caps).1 server_info
          ≡ not (mentions_any e.details refusal_words))
unfolding connected
connected_info client server is_clustered raw name e =
    let (allowed, caps, ran, get) = run-probe_settles client server is_clustered in
    (
      caps,
      ran,
      restored-has (parse_info raw) caps (get server_info)
          ∙ ap not (empty-parse_info raw)
          ∙ not-not (any_field (lines raw)),
      failed-has caps name e,
    )
