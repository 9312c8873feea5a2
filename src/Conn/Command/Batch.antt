-- ===== src/Conn/Command/Batch.antt =====
-- The replies of a batch of commands, with what each command of it gave.
use keylens.Base.{
  ◌≡◌, refl, ap, ◌∙◌, true, List, [], ◌∷◌, none, arith, ◌==◌, length, map, Bool-cases, inl, inr,
}
use keylens.Base.Text.{Text}
use keylens.Conn.Value.{Value, Client}
use keylens.Conn.Error.{Result, ok}
use keylens.Conn.Program.{
  Command, Reply, answered, refused, flushed, done, ◌>>=◌, Program, run-attempt, then_run, run,
  run-bind,
}
use keylens.Conn.Command.{
  cmd, read_only_command, Conn, named, routed, zipped, matched, pipeline_unchecked, pipeline,
  first_unsafe, execute, of_reply,
}

module _ (client : Client) where
  -- What each command of a batch gives on a server.
  abbrev pub outcome : (Command → Reply) → Command → Result Value
  outcome server (name, args) = named client name (server (name, args))

  run-of_reply :
      (server : Command → Reply) (name : Text) (r : Reply)
      → run server (of_reply client name r) ≡ named client name r
  run-of_reply server name (answered v) = refl
  run-of_reply server name (refused e) = refl

  -- A command that is allowed gives its outcome to what follows.
  pub run-cmd :
      {A : Type 0} (server : Command → Reply) (name : Text) (args : List Value)
      (f : Value → Program A)
      → read_only_command client name args ≡ true
      → run server (cmd client name args >>= f) ≡ then_run server (outcome server (name, args)) f
  unfolding cmd
  run-cmd server name args f h = rw h (
      run-bind server (of_reply client name (server (name, args))) f
      ∙ rw (run-of_reply server name (server (name, args))))

  run-routed :
      (server : Command → Reply) (cs : List Command)
      → run server (routed client cs) ≡ ok (map (outcome server) cs)
  unfolding routed
  run-routed server [] = refl
  run-routed server ((name, args) ∷ cs) =
      run-attempt server (execute client name args) (λ r. routed client cs >>= λ rs. done (r ∷ rs))
      ∙ rw (run-of_reply server name (server (name, args))) (
          run-bind server (routed client cs)
            (λ rs. done (named client name (server (name, args)) ∷ rs))
          ∙ rw (run-routed server cs))

  zipped-map :
      (server : Command → Reply) (cs : List Command)
      → zipped client (map server cs) cs ≡ map (outcome server) cs
  unfolding zipped
  zipped-map server [] = refl
  zipped-map server (c ∷ cs) = ap (λ r. outcome server c ∷ r) (zipped-map server cs)

  length-map :
      (server : Command → Reply) (cs : List Command) → (length (map server cs) == length cs) ≡ true
  length-map server [] = refl
  length-map server (c ∷ cs) = ground (arith, length-map server cs)

  run-matched :
      (server : Command → Reply) (cs : List Command)
      → run server (matched client cs (flushed (map server cs))) ≡ ok (map (outcome server) cs)
  unfolding matched
  run-matched server cs = rw (length-map server cs) (rw (zipped-map server cs))

  run-pipeline_unchecked :
      (server : Command → Reply) (conn : Conn) (cs : List Command)
      → run server (pipeline_unchecked client conn cs) ≡ ok (map (outcome server) cs)
  unfolding pipeline_unchecked
  run-pipeline_unchecked server conn cs = elim (Bool-cases conn.is_clustered) [
    | inl e ↦ rw e (run-routed server cs)
    | inr e ↦ rw e (run-matched server cs)
  ]

  -- On a server whose data stays, a batch of allowed commands comes back with one outcome for each
  -- command, in the order of the commands, in a cluster and out of one.
  pub run-pipeline :
      (server : Command → Reply) (conn : Conn) (cs : List Command)
      → first_unsafe client cs ≡ none
      → run server (pipeline client conn cs) ≡ ok (map (outcome server) cs)
  unfolding pipeline
  run-pipeline server conn cs h = rw h (run-pipeline_unchecked server conn cs)
