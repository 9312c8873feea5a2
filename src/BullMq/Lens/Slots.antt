-- ===== src/BullMq/Lens/Slots.antt =====
-- Which replies make up the summary of a queue.
use keylens.Base.{
  ℕ, zero, suc, ◌+◌, ◌*◌, ◌≡◌, refl, ap, ◌∙◌, List, [], ◌∷◌, ◌++◌, Option, none, some, arith, map,
  get_elem?, drop, length,
}
use mathlib.Core.List.{map-append}
use keylens.Base.Text.{Text}
use keylens.Conn.Value.{Value, Client}
use keylens.Conn.Error.{Result, ok}
use keylens.Conn.Program.{Command, Reply, done, run, run-bind}
use keylens.Conn.Command.{Conn, read_only_command, pipeline, first_unsafe, ok_value}
use keylens.Conn.Command.Batch.{outcome, run-pipeline}
use keylens.BullMq.Keys.{State, all_states, QueueKeys}
use keylens.BullMq.Job.{QueueSummary}
use keylens.BullMq.Lens.{
  queue_cmds, summary_cmds, meta_cmd, count_of_cmd, summary_at, summaries_from, summaries,
  paused_in, and_then, or_zero, counts_from, per_queue,
}

module _ {ℓ} {A : Type ℓ} where
  -- The element and the rest where a list is cut.
  cut :
      (i : ℕ) (xs : List A) {x : A} {rest : List A}
      → drop i xs ≡ x ∷ rest
      → (get_elem? xs i ≡ some x) × (drop (suc i) xs ≡ rest)
  cut zero [] h = ground arith
  cut zero (y ∷ xs) h = ground arith
  cut (suc i) [] h = ground arith
  cut (suc i) (y ∷ xs) h = cut i xs h

module _ (client : Client) (prefix : Text) where
  first_unsafe-append :
      (cs ds : List Command)
      → first_unsafe client cs ≡ none
      → first_unsafe client ds ≡ none
      → first_unsafe client (cs ++ ds) ≡ none
  unfolding first_unsafe
  first_unsafe-append [] ds h k = k
  first_unsafe-append ((name, args) ∷ cs) ds h k = ground (arith, first_unsafe-append cs ds)

  -- Every command of a refresh is allowed.
  summary_cmds-allowed :
      (names : List Text) → first_unsafe client (summary_cmds prefix names) ≡ none
  unfolding summary_cmds first_unsafe read_only_command
  summary_cmds-allowed [] = refl
  summary_cmds-allowed (name ∷ names) =
      first_unsafe-append (queue_cmds (record { prefix = prefix; name = name }))
        (summary_cmds prefix names) refl (summary_cmds-allowed names)

  module _ (server : Command → Reply) where
    -- The value that the server gives to one command by itself.
    abbrev pub value_of : Command → Option Value
    value_of c = ok_value (some (outcome client server c))

    abbrev pub count_alone : QueueKeys → State → State × ℕ
    count_alone keys s = (s, or_zero (and_then (value_of (count_of_cmd keys s)) client.as_u64))

    -- A queue's summary, from what the commands on its own keys give.
    abbrev pub summary_alone : Text → QueueSummary
    summary_alone name =
        let keys : QueueKeys = record { prefix = prefix; name = name } in
        record {
          name = name;
          paused = paused_in client (value_of (meta_cmd keys));
          counts = map (count_alone keys) all_states;
        }

    module _ (rs : List (Result Value)) where
      counts-slot :
          (keys : QueueKeys) (i : ℕ) (ss : List State) {rest : List (Result Value)}
          → drop i rs ≡ map (outcome client server) (map (count_of_cmd keys) ss) ++ rest
          → (counts_from client rs i ss ≡ map (count_alone keys) ss)
            × (drop (i + length ss) rs ≡ rest)
      unfolding counts_from
      counts-slot keys i [] h = let e : i + 0 ≡ i = omega arith in rw e (refl, h)
      counts-slot keys i (s ∷ ss) h =
          let (g, d) = cut i rs h in
          let (a, b) = counts-slot keys (suc i) ss d in
          let e : i + 1 ≡ suc i = omega arith in
          let f : i + suc (length ss) ≡ suc i + length ss = omega arith in
          rw (g, e, f) (ap (λ r. count_alone keys s ∷ r) a, b)

      summary-slot :
          (i : ℕ) (name : Text) {rest : List (Result Value)}
          → (let keys : QueueKeys = record { prefix = prefix; name = name } in
              drop (i * per_queue) rs ≡ map (outcome client server) (queue_cmds keys) ++ rest)
          → (summary_at client rs i name ≡ summary_alone name)
            × (drop (suc i * per_queue) rs ≡ rest)
      unfolding queue_cmds
      summary-slot i name h =
          let keys : QueueKeys = record { prefix = prefix; name = name } in
          let (g, d) = cut (i * per_queue) rs h in
          let (a, b) = counts-slot keys (suc (i * per_queue)) all_states d in
          let e : i * per_queue + 1 ≡ suc (i * per_queue) = omega arith in
          let f : suc i * per_queue ≡ suc (i * per_queue) + length all_states = omega arith in
          let counted : counts_from client rs (i * per_queue + 1) all_states
              ≡ map (count_alone keys) all_states =
            ap (λ n. counts_from client rs n all_states) e ∙ a in
          (
            λ j. record {
              name = name;
              paused = paused_in client (ok_value (g j));
              counts = counted j;
            },
            rw f b,
          )

      summaries-slots :
          (i : ℕ) (names : List Text)
          → drop (i * per_queue) rs ≡ map (outcome client server) (summary_cmds prefix names)
          → summaries_from client rs i names ≡ map summary_alone names
      unfolding summaries_from summary_cmds
      summaries-slots i [] h = refl
      summaries-slots i (name ∷ names) h =
          let keys : QueueKeys = record { prefix = prefix; name = name } in
          let (a, b) =
            summary-slot i name {rest = map (outcome client server) (summary_cmds prefix names)} (
              h
              ∙ map-append (outcome client server) (queue_cmds keys) (summary_cmds prefix names)) in
          let e : i + 1 ≡ suc i = omega arith in
          rw (a, e) (ap (λ r. summary_alone name ∷ r) (summaries-slots (suc i) names b))

    -- On a server whose data stays, a refresh of many queues in one batch gives each queue the summary
    -- that the commands on its own keys give, in the order of the names; a command that fails costs
    -- its queue that one cell.
    pub run-summaries :
        (conn : Conn) (names : List Text)
        → run server (summaries client conn prefix names) ≡ ok (map summary_alone names)
    unfolding summaries
    run-summaries conn [] = refl
    run-summaries conn (name ∷ names) =
        let cs : List Command = summary_cmds prefix (name ∷ names) in
        run-bind server (pipeline client conn cs)
          (λ replies. done (summaries_from client replies 0 (name ∷ names)))
        ∙ rw (run-pipeline client server conn cs (summary_cmds-allowed (name ∷ names)))
            (ap ok (summaries-slots (map (outcome client server) cs) 0 (name ∷ names) refl))
