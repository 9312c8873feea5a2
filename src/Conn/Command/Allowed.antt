-- ===== src/Conn/Command/Allowed.antt =====
-- What `cmd` and `pipeline` let through.
use keylens.Base.{
  ◌≡◌, refl, true, List, [], ◌∷◌, Option, none, some, arith, All, ◌==◌, length, Bool-cases, inl,
  inr,
}
use keylens.Base.Text.{Text, codes}
use keylens.Conn.Value.{Value, Client}
use keylens.Conn.Error.{
  ClientError, ConnError, url_error, connect_error, likely_needs_tls, connect_timeout,
  command_error, reply_error, range_error, unsafe_command,
}
use keylens.Conn.Program.{
  Command, Reply, answered, refused, Flush, not_buffered, flushed, Sends, Sends-bind, Sends-attempt,
}
use keylens.Conn.Command.{
  Conn, read_only_command, execute, of_reply, cmd, first_unsafe, refuse, routed, matched,
  pipeline_unchecked, pipeline,
}

-- An error that no command of the caller was refused for.
abbrev pub NotRefused : ConnError → Type 0
NotRefused (unsafe_command name) = ⊥
NotRefused (url_error t) = Unit
NotRefused (connect_error e) = Unit
NotRefused (likely_needs_tls t e) = Unit
NotRefused (connect_timeout t) = Unit
NotRefused (command_error c e) = Unit
NotRefused (reply_error c t) = Unit
NotRefused (range_error c o t) = Unit

module _ (client : Client) where
  -- A command that the allowlist has.
  abbrev pub IsAllowed : Command → Type 0
  IsAllowed (name, args) = read_only_command client name args ≡ true

  pub All-IsAllowed : (cs : List Command) → first_unsafe client cs ≡ none → All IsAllowed cs
  unfolding first_unsafe
  All-IsAllowed [] h = tt
  All-IsAllowed ((name, args) ∷ cs) h = elim (Bool-cases (read_only_command client name args)) [
    | inl e ↦ (e, All-IsAllowed cs (ground arith))
    | inr e ↦ absurd (ground arith)
  ]

  module _ (P : Command → Type 0) (E : ConnError → Type 0) where
    pub of_reply-Sends :
        (name : Text)
        → ((e : ClientError) → E (command_error name e))
        → (r : Reply) → Sends P E (of_reply client name r)
    of_reply-Sends name he (answered v) = tt
    of_reply-Sends name he (refused e) = he e

    routed-Sends :
        ((name : Text) (e : ClientError) → E (command_error name e))
        → (cs : List Command) → All P cs
        → Sends P E (routed client cs)
    unfolding routed
    routed-Sends he [] h = tt
    routed-Sends he ((name, args) ∷ cs) h =
        Sends-attempt P E (execute client name args) _ (h.0, of_reply-Sends name (he name))
          λ r f. Sends-bind P E (routed client cs) _ (routed-Sends he cs h.1) (λ rs. tt)

    matched-Sends :
        ((name : Text) (e : ClientError) → E (command_error name e))
        → ((name detail : Text) → E (reply_error name detail))
        → (cs : List Command) (f : Flush) → Sends P E (matched client cs f)
    unfolding matched
    matched-Sends he hr cs (not_buffered e) = he (codes "PIPELINE") e
    matched-Sends he hr cs (flushed rs) = elim (Bool-cases (length rs == length cs)) [
      | inl e ↦ rw e tt
      | inr e ↦ rw e (hr (codes "PIPELINE") _)
    ]

    pub pipeline_unchecked-Sends :
        ((name : Text) (e : ClientError) → E (command_error name e))
        → ((name detail : Text) → E (reply_error name detail))
        → (conn : Conn) (cs : List Command) → All P cs
        → Sends P E (pipeline_unchecked client conn cs)
    unfolding pipeline_unchecked
    pipeline_unchecked-Sends he hr conn cs h = elim (Bool-cases conn.is_clustered) [
      | inl e ↦ rw e (routed-Sends he cs h)
      | inr e ↦ rw e (h, matched-Sends he hr cs)
    ]

  cmd-Sends-IsAllowed :
      (name : Text) (args : List Value) → Sends IsAllowed (λ e. Unit) (cmd client name args)
  unfolding cmd
  cmd-Sends-IsAllowed name args = elim (Bool-cases (read_only_command client name args)) [
    | inl e ↦ rw e (e, of_reply-Sends IsAllowed (λ e. Unit) name (λ e. tt))
    | inr e ↦ rw e tt
  ]

  refuse-Sends :
      (conn : Conn) (cs : List Command) (o : Option Text)
      → first_unsafe client cs ≡ o
      → Sends IsAllowed (λ e. Unit) (refuse client o (pipeline_unchecked client conn cs))
  refuse-Sends conn cs none h =
      pipeline_unchecked-Sends IsAllowed (λ e. Unit) (λ n e. tt) (λ n d. tt) conn cs
        (All-IsAllowed cs h)
  refuse-Sends conn cs (some name) h = tt

  pipeline-Sends-IsAllowed :
      (conn : Conn) (cs : List Command) → Sends IsAllowed (λ e. Unit) (pipeline client conn cs)
  unfolding pipeline
  pipeline-Sends-IsAllowed conn cs = refuse-Sends conn cs (first_unsafe client cs) refl

  -- Whatever a caller asks for and whatever comes back, `cmd` sends a command only if the allowlist
  -- has it, and `pipeline` sends no batch that holds a command which the allowlist lacks.
  pub Sends-IsAllowed_only :
      (name : Text) (args : List Value) (conn : Conn) (cs : List Command)
      → Sends IsAllowed (λ e. Unit) (cmd client name args)
        × Sends IsAllowed (λ e. Unit) (pipeline client conn cs)
  Sends-IsAllowed_only name args conn cs =
      (cmd-Sends-IsAllowed name args, pipeline-Sends-IsAllowed conn cs)

  -- What a caller sends that asks for allowed commands only: no call of its own is refused.
  module _ (P : Command → Type 0) where
    pub cmd-Sends :
        (name : Text) (args : List Value)
        → read_only_command client name args ≡ true
        → P (name, args)
        → Sends P NotRefused (cmd client name args)
    unfolding cmd
    cmd-Sends name args h p = rw h (p, of_reply-Sends P NotRefused name (λ e. tt))

    pub pipeline-Sends :
        (conn : Conn) (cs : List Command)
        → first_unsafe client cs ≡ none
        → All P cs
        → Sends P NotRefused (pipeline client conn cs)
    unfolding pipeline
    pipeline-Sends conn cs h p =
        rw h (pipeline_unchecked-Sends P NotRefused (λ n e. tt) (λ n d. tt) conn cs p)
