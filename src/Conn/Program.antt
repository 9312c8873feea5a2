-- ===== src/Conn/Program.antt =====
-- What the connection's methods do, apart from the answers they get: a tree of the commands that
-- they send to the client. The answers are not known, and may differ each time.
use keylens.Base.{◌≡◌, refl, List, map, All}
use keylens.Base.Text.{Text}
use keylens.Conn.Value.{Value}
use keylens.Conn.Error.{ClientError, ConnError, Result, ok, err}

-- The name of a command and its arguments.
abbrev pub Command : Type 0
Command = Text × List Value

-- What the client answers to one command.
pub data Reply : Type 0 where
  answered : Value → Reply
  refused : ClientError → Reply

-- What a pipeline comes back with: the error of a command that could not be buffered, or a list of
-- replies, of whatever length.
pub data Flush : Type 0 where
  not_buffered : ClientError → Flush
  flushed : List Reply → Flush

-- `ask` sends one command, and `ask_all` a pipeline of them.
pub data Program (A : Type 0) : Type 0 where
  done : A → Program A
  fail : ConnError → Program A
  ask : Command → (Reply → Program A) → Program A
  ask_all : List Command → (Flush → Program A) → Program A

infixl 5 ◌>>=◌
abbrev pub ◌>>=◌ : {A B : Type 0} → Program A → (A → Program B) → Program B
done a >>= f = f a
fail e >>= f = fail e
ask c k >>= f = ask c (λ r. k r >>= f)
ask_all cs k >>= f = ask_all cs (λ rs. k rs >>= f)

abbrev pub of_result : {A : Type 0} → Result A → Program A
of_result (ok a) = done a
of_result (err e) = fail e

-- A step whose error is kept as a value.
abbrev pub attempt : {A : Type 0} → Program A → Program (Result A)
attempt (done a) = done (ok a)
attempt (fail e) = done (err e)
attempt (ask c k) = ask c (λ r. attempt (k r))
attempt (ask_all cs k) = ask_all cs (λ rs. attempt (k rs))

-- The result against a server whose data does not change between the commands, and which gives a
-- pipeline one reply for each command.
abbrev pub run : {A : Type 0} → (Command → Reply) → Program A → Result A
run server (done a) = ok a
run server (fail e) = err e
run server (ask c k) = run server (k (server c))
run server (ask_all cs k) = run server (k (flushed (map server cs)))

abbrev pub then_run : {A B : Type 0} → (Command → Reply) → Result A → (A → Program B) → Result B
then_run server (ok a) f = run server (f a)
then_run server (err e) f = err e

module _ {A B : Type 0} (server : Command → Reply) where
  -- A run goes through a bind.
  pub run-bind :
      (m : Program A) (f : A → Program B) → run server (m >>= f) ≡ then_run server (run server m) f
  run-bind (done a) f = refl
  run-bind (fail e) f = refl
  run-bind (ask c k) f = run-bind (k (server c)) f
  run-bind (ask_all cs k) f = run-bind (k (flushed (map server cs))) f

  -- A step whose error is kept never ends a run.
  pub run-attempt :
      (m : Program A) (f : Result A → Program B)
      → run server (attempt m >>= f) ≡ run server (f (run server m))
  run-attempt (done a) f = refl
  run-attempt (fail e) f = refl
  run-attempt (ask c k) f = run-attempt (k (server c)) f
  run-attempt (ask_all cs k) f = run-attempt (k (flushed (map server cs))) f

-- Every command that a program sends satisfies `P`, and every error that it ends in satisfies `E`,
-- whatever the answers.
module _ (P : Command → Type 0) (E : ConnError → Type 0) where
  abbrev pub Sends : {A : Type 0} → Program A → Type 0
  Sends (done a) = Unit
  Sends (fail e) = E e
  Sends (ask c k) = P c × ((r : Reply) → Sends (k r))
  Sends (ask_all cs k) = All P cs × ((f : Flush) → Sends (k f))

  pub Sends-bind :
      {A B : Type 0} (m : Program A) (f : A → Program B)
      → Sends m
      → ((a : A) → Sends (f a))
      → Sends (m >>= f)
  Sends-bind (done a) f s t = t a
  Sends-bind (fail e) f s t = s
  Sends-bind (ask c k) f s t = (s.0, λ r. Sends-bind (k r) f (s.1 r) t)
  Sends-bind (ask_all cs k) f s t = (s.0, λ r. Sends-bind (k r) f (s.1 r) t)

  -- The error of a result, if it is one.
  abbrev pub Fits : {A : Type 0} → Result A → Type 0
  Fits (ok a) = Unit
  Fits (err e) = E e

  pub Sends-attempt :
      {A B : Type 0} (m : Program A) (f : Result A → Program B)
      → Sends m
      → ((r : Result A) → Fits r → Sends (f r))
      → Sends (attempt m >>= f)
  Sends-attempt (done a) f s t = t (ok a) tt
  Sends-attempt (fail e) f s t = t (err e) s
  Sends-attempt (ask c k) f s t = (s.0, λ r. Sends-attempt (k r) f (s.1 r) t)
  Sends-attempt (ask_all cs k) f s t = (s.0, λ r. Sends-attempt (k r) f (s.1 r) t)

-- A program that never fails, and whose every result satisfies `P`, whatever the answers.
module _ {B : Type 0} (P : B → Type 0) where
  abbrev pub Ends : Program B → Type 0
  Ends (done b) = P b
  Ends (fail e) = ⊥
  Ends (ask c k) = (r : Reply) → Ends (k r)
  Ends (ask_all cs k) = (f : Flush) → Ends (k f)

  -- Behind a step whose error is kept, nothing is left to fail.
  pub Ends-attempt :
      {A : Type 0} (m : Program A) (f : Result A → Program B)
      → ((r : Result A) → Ends (f r))
      → Ends (attempt m >>= f)
  Ends-attempt (done a) f h = h (ok a)
  Ends-attempt (fail e) f h = h (err e)
  Ends-attempt (ask c k) f h = λ r. Ends-attempt (k r) f h
  Ends-attempt (ask_all cs k) f h = λ r. Ends-attempt (k r) f h

module _ {A B : Type 0} (P : A → Type 0) (Q : B → Type 0) where
  pub Ends-bind :
      (m : Program A) (f : A → Program B)
      → Ends P m
      → ((a : A) → P a → Ends Q (f a))
      → Ends Q (m >>= f)
  Ends-bind (done a) f h k = k a h
  Ends-bind (fail e) f h k = elim h [ ]
  Ends-bind (ask c m) f h k = λ r. Ends-bind (m r) f (h r) k
  Ends-bind (ask_all cs m) f h k = λ r. Ends-bind (m r) f (h r) k
