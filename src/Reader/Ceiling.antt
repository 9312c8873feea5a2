-- ===== src/Reader/Ceiling.antt =====
-- The ceiling on consecutive failures of the reader's loop.
use keylens.Base.{
  ◌+◌, ◌≤◌, ◌<◌, ◌≡◌, Bool, true, false, List, [], ◌∷◌, Option, length, arith, if_cases, Bool-cases,
  inl, inr,
}
use keylens.Base.Text.{Text}
use keylens.BullMq.Events.Throughput.{StreamEvent}
use keylens.Reader.{
  Value, Read, reply, error, Loop, turn, run, pass_on, parse_xread, max_consecutive_failures,
}

-- A running loop has failed fewer times in a row than the ceiling.
abbrev pub IsBelow : Loop → Type 0
IsBelow l = l.running ≡ true → l.failures < max_consecutive_failures

-- The reads of a server that refuses every one, with the text of each error.
abbrev pub refusals : List (Text × Bool) → List (Read × Bool)
refusals [] = []
refusals ((e, open_ui) ∷ rs) = (error e, open_ui) ∷ refusals rs

module _ (as_string : Value → Option Text) (keys queues : List Text) where
  pass_on-IsBelow :
      (es : List StreamEvent) (open_ui : Bool) (l : Loop)
      → IsBelow l
      → IsBelow (pass_on as_string keys queues es open_ui l)
  pass_on-IsBelow [] open_ui l h = h
  pass_on-IsBelow (e ∷ es) true l h = h
  pass_on-IsBelow (e ∷ es) false l h = λ e. ground arith

  turn-IsBelow :
      (r : Read) (open_ui : Bool) (l : Loop) → IsBelow (turn as_string keys queues r open_ui l)
  unfolding turn
  turn-IsBelow (error e) open_ui l = ground arith
  turn-IsBelow (reply v) open_ui l =
      let p = parse_xread as_string v keys queues l.cursors in
      pass_on-IsBelow p.gathered open_ui (record l { cursors = p.ids; failures = 0 })
        (λ h. omega arith)

  failures_counted :
      (e : Text) (open_ui : Bool) (l : Loop)
      → (turn as_string keys queues (error e) open_ui l).failures ≡ l.failures + 1
  unfolding turn
  failures_counted e open_ui l = ground arith

  -- Whatever reads the loop meets, in any order, it is running only while it has failed fewer times
  -- in a row than the ceiling.
  pub run-IsBelow :
      (rs : List (Read × Bool)) (l : Loop) → IsBelow l → IsBelow (run as_string keys queues rs l)
  unfolding run
  run-IsBelow [] l h = h
  run-IsBelow ((r, open_ui) ∷ rs) l h =
      if_cases IsBelow l.running
        (λ e. run-IsBelow rs (turn as_string keys queues r open_ui l) (turn-IsBelow r open_ui l))
        (λ e. h)

  -- A loop that meets refusals up to the ceiling, counted with those it has met last, has stopped.
  pub gives_up :
      (rs : List (Text × Bool)) (l : Loop)
      → IsBelow l
      → max_consecutive_failures ≤ l.failures + length rs
      → (run as_string keys queues (refusals rs) l).running ≡ false
  unfolding run
  gives_up [] l h many = elim (Bool-cases l.running) [
    | inl e ↦ absurd (omega (arith, h e))
    | inr e ↦ e
  ]
  gives_up ((x, open_ui) ∷ rs) l h many =
      if_cases (λ (d : Loop). d.running ≡ false) l.running
        (λ e.
          gives_up rs (turn as_string keys queues (error x) open_ui l)
            (turn-IsBelow (error x) open_ui l) (omega (arith, failures_counted x open_ui l)))
        (λ e. e)
