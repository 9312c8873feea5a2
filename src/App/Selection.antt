-- ===== src/App/Selection.antt =====
-- Fetching the key under the cursor, in crates/keylens/src/app.rs: what a move of the cursor, the
-- flush behind it and the reply to it do to the state and to the channel.
use keylens.Base.{
  ℕ, ◌≡◌, ◌≢◌, refl, ap, ◌∙◌, Bool, true, false, List, [], ◌∷◌, ◌++◌, Option, none, some, arith,
  ◌==◌, Bool-cases, inl, inr, length, ◌⊎◌, Option-cases, ◌&&◌, not, if◌then◌else◌, sym, append-nil,
}
use keylens.Base.Text.{Text, text_eq_iff}
use keylens.Base.Int.{ℤ}
use keylens.Conn.Kind.{Kind}
use keylens.Ui.Tree.Rows.{Row}
use keylens.App.{Request, App, Channel, SendResult, sent, full, closed, select, batch}
use keylens.App.Ops.{
  selected_row, is_text, flush_row, flush_selection, send, after_send, unless_sent, touch_selection,
  rebuild,
}
use keylens.App.Apply.{apply, apply_batch, fill_in}
use keylens.App.Input.{step_cursor}
use keylens.App.Keys.{move_cursor, move_among}

module _ {C : Type 0} where
  move_among-tx :
      (rs : List Row) (delta : ℤ) (a : App C)
      → ((move_among rs delta a).tx ≡ a.tx)
        × ((move_among rs delta a).pending_key ≡ a.pending_key)
        × ((move_among rs delta a).rows ≡ a.rows)
  unfolding touch_selection
  move_among-tx [] delta a = (refl, refl, refl)
  move_among-tx (r ∷ rs) delta a =
      elim (Bool-cases (step_cursor (length rs) a.selected delta == a.selected)) [
        | inl e ↦ rw e (refl, refl, refl)
        | inr e ↦ rw e (refl, refl, refl)
      ]

  -- A run of cursor moves.
  abbrev pub moves : List ℤ → App C → App C
  moves [] a = a
  moves (d ∷ ds) a = moves ds (move_cursor d a)

  moves-tx :
      (ds : List ℤ) (a : App C)
      → ((moves ds a).tx ≡ a.tx) × ((moves ds a).pending_key ≡ a.pending_key)
  unfolding move_cursor
  moves-tx [] a = (refl, refl)
  moves-tx (d ∷ ds) a =
      let (t, p) = moves-tx ds (move_cursor d a) in
      let (t', p', r) = move_among-tx a.rows d a in (t ∙ t', p ∙ p')

  module _ (ch : Channel C) where
    abbrev pub is_sent : SendResult → Bool
    is_sent sent = true
    is_sent _ = false

    abbrev pub asks_for : Row → App C → Bool
    asks_for r a = r.row_is_key && not (is_text a.pending_key r.path)

    -- What a flush from `a` to `b` shows on the row `r`, where the channel answers `o` to the request
    -- for it.
    abbrev pub FlushedTo : SendResult × C → Row → App C → App C → Type 0
    FlushedTo o r a b =
        (b.tx ≡ (if asks_for r a then o.1 else a.tx))
        × (ch.queued b.tx
            ≡ ch.queued a.tx ++ (if asks_for r a && is_sent o.0 then select r.path ∷ [] else []))
        × (b.selection_dirty ≡ asks_for r a && not (is_sent o.0))
        × (b.detail ≡ (if r.row_is_key then a.detail else none))
        × (b.pending_key ≡ (if r.row_is_key && not b.selection_dirty then some r.path else none))
        × (selected_row b ≡ selected_row a)

    asked_to :
        (o : SendResult × C) (r : Row) (a : App C)
        → r.row_is_key ≡ true
        → is_text a.pending_key r.path ≡ false
        → (o.0 ≡ sent → ch.queued o.1 ≡ ch.queued a.tx ++ select r.path ∷ [])
        → (o.0 ≢ sent → ch.queued o.1 ≡ ch.queued a.tx)
        → FlushedTo o r a (
            unless_sent ch
              (after_send ch o (record a { selection_dirty = false; pending_key = some r.path }))
              (λ d. d)
              (λ d. record d { pending_key = none; selection_dirty = true }))
    unfolding selected_row
    asked_to (sent, c) r a k p taken refused = rw (k, p) (refl, taken refl, refl, refl, refl, refl)
    asked_to (full, c) r a k p taken refused =
        let same = refused (λ e. ground arith) ∙ sym (append-nil (ch.queued a.tx)) in
        rw (k, p) (refl, same, refl, refl, refl, refl)
    asked_to (closed, c) r a k p taken refused =
        let same = refused (λ e. ground arith) ∙ sym (append-nil (ch.queued a.tx)) in
        rw (k, p) (refl, same, refl, refl, refl, refl)

    awaits : (o : Option Text) (path : Text) → is_text o path ≡ true → o ≡ some path
    awaits none path h = ground arith
    awaits (some p) path h = ap some ((text_eq_iff p path).0 h)

    abbrev select_of : Row → App C → SendResult × C
    select_of r a = ch.try_send (select r.path) a.tx

    flush_row-asks :
        (r : Row) (a : App C)
        → r.row_is_key ≡ true
        → is_text a.pending_key r.path ≡ false
        → flush_row ch (some r) a
          ≡ unless_sent ch
              (after_send ch (select_of r a) (record a { pending_key = some r.path }))
              (λ d. d)
              (λ d. record d { pending_key = none; selection_dirty = true })
    unfolding flush_row send
    flush_row-asks r a k p = rw (k, p) refl

    flushed_to :
        (r : Row) (a : App C)
        → FlushedTo
            (select_of r a)
            r
            a
            (flush_row ch (some r) (record a { selection_dirty = false }))
    unfolding flush_row selected_row
    flushed_to r a = elim (Bool-cases r.row_is_key) [
      | inr k ↦ rw k (refl, sym (append-nil (ch.queued a.tx)), refl, refl, refl, refl)
      | inl k ↦ elim (Bool-cases (is_text a.pending_key r.path)) [
        | inl p ↦
            rw (k, p)
              (
                refl,
                sym (append-nil (ch.queued a.tx)),
                refl,
                refl,
                awaits a.pending_key r.path p,
                refl,
              )
        | inr p ↦ rw (flush_row-asks r (record a { selection_dirty = false }) k p) (
            asked_to (select_of r a) r a k p (ch.try_send_sent (select r.path) a.tx)
              (ch.try_send_refused (select r.path) a.tx))
      ]
    ]

    unasked :
        (before after : List Request) (r : Row) (asks : Bool)
        → asks ≡ false
        → after ≡ before ++ (if asks then select r.path ∷ [] else [])
        → after ≡ before
    unasked before after r asks h q =
        q ∙ ap (λ x. before ++ (if x then select r.path ∷ [] else [])) h ∙ append-nil before

    awaited_row :
        (r : Row) (a : App C)
        → r.row_is_key ≡ true
        → is_text a.pending_key r.path ≡ true
        → asks_for r a ≡ false
    awaited_row r a k p = ground arith

    either_way {ℓ} : {A : Type ℓ} (x : A) (b : Bool) → (if b then x else x) ≡ x
    either_way x true = refl
    either_way x false = refl

    settled_row :
        (r : Row) (awaited : Option Text) (dirty : Bool)
        → dirty ≡ false
        → awaited ≡ (if r.row_is_key && not dirty then some r.path else none)
        → (r.row_is_key && not (is_text awaited r.path)) ≡ false
    settled_row r awaited dirty d h = ground (arith, text_eq_iff r.path r.path)

    flush-on_row :
        (a : App C) (r : Row)
        → selected_row a ≡ some r
        → flush_selection ch a ≡ flush_row ch (some r) (record a { selection_dirty = false })
    unfolding flush_selection
    flush-on_row a r e = ap (λ o. flush_row ch o (record a { selection_dirty = false })) e

    flush-FlushedTo :
        (a : App C) (r : Row)
        → selected_row a ≡ some r
        → FlushedTo (select_of r a) r a (flush_selection ch a)
    flush-FlushedTo a r e = rw (flush-on_row a r e) (flushed_to r a)

    -- A flush asks the channel for the selected row exactly when the row is a key that is not awaited
    -- yet; the request is queued exactly when the channel takes it, and the selection stays to be
    -- flushed again exactly when the channel does not. A row that is no key clears the value shown, a
    -- key keeps it. Behind the flush the key is the one awaited, unless the row is no key or the
    -- request was refused, and the row stays selected. A second flush behind one that was not refused
    -- queues nothing.
    pub flush_selection_lem :
        (a : App C) (r : Row)
        → selected_row a ≡ some r
        → let b = flush_selection ch a in
          FlushedTo (ch.try_send (select r.path) a.tx) r a b
          × ((b.selection_dirty ≡ true) ⊎ (ch.queued (flush_selection ch b).tx ≡ ch.queued b.tx))
    flush_selection_lem a r e =
        let b = flush_selection ch a in
        let first = flush-FlushedTo a r e in
        let (t, q, d, v, p, s) = first in
        (
          first,
          elim (Bool-cases b.selection_dirty) [
            | inl dirty ↦ inl dirty
            | inr clean ↦
                let second = flush-FlushedTo b r (s ∙ e) in
                let none_asked : asks_for r b ≡ false =
                  settled_row r b.pending_key b.selection_dirty clean p in
                inr (
                  second.1
                  ∙ ap
                      (λ asks.
                        ch.queued b.tx
                        ++ (if asks && is_sent (select_of r b).0 then select r.path ∷ [] else []))
                      none_asked
                  ∙ append-nil (ch.queued b.tx))
          ],
        )

    flush_nothing :
        (a : App C) → selected_row a ≡ none → ch.queued (flush_selection ch a).tx ≡ ch.queued a.tx
    unfolding flush_selection flush_row
    flush_nothing a e = rw e refl

    -- The requests queued by a flush: none, or one for the key of the row.
    AsksOnce : App C → App C → Type 0
    AsksOnce a b =
        (ch.queued b.tx ≡ ch.queued a.tx)
        ⊎ ((r : Row) × (selected_row a ≡ some r)
            × (r.row_is_key ≡ true)
            × (b.pending_key ≡ some r.path)
            × (ch.queued b.tx ≡ ch.queued a.tx ++ select r.path ∷ []))

    asks-AsksOnce :
        (a b : App C) (r : Row) (taken : Bool)
        → selected_row a ≡ some r
        → ch.queued b.tx
          ≡ ch.queued a.tx ++ (if asks_for r a && taken then select r.path ∷ [] else [])
        → b.selection_dirty ≡ (asks_for r a && not taken)
        → b.pending_key ≡ (if r.row_is_key && not b.selection_dirty then some r.path else none)
        → AsksOnce a b
    unfolding AsksOnce
    asks-AsksOnce a b r taken e q d p = elim (Bool-cases (asks_for r a && taken)) [
      | inl asks ↦ inr (
        r,
        e,
        ground arith,
        ground arith,
        q ∙ ap (λ x. ch.queued a.tx ++ (if x then select r.path ∷ [] else [])) asks,
      )
      | inr silent ↦ inl (unasked (ch.queued a.tx) (ch.queued b.tx) r _ silent q)
    ]

    flush-AsksOnce : (a : App C) → AsksOnce a (flush_selection ch a)
    unfolding AsksOnce
    flush-AsksOnce a = elim (Option-cases (selected_row a)) [
      | inl e ↦ inl (flush_nothing a e)
      | inr (r, e) ↦
          let (t, q, d, v, p, s) = flush-FlushedTo a r e in
          asks-AsksOnce a (flush_selection ch a) r (is_sent (select_of r a).0) e q d p
    ]

    -- However many times the cursor moves before input goes quiet, the worker is sent nothing for the
    -- moves, and the flush behind them queues at most one request: for the key of the row that the
    -- cursor has come to, which is then the key awaited.
    pub moves_ask_once :
        (ds : List ℤ) (a : App C)
        → (ch.queued (flush_selection ch (moves ds a)).tx ≡ ch.queued a.tx)
          ⊎ ((r : Row) × (selected_row (moves ds a) ≡ some r)
              × (r.row_is_key ≡ true)
              × ((flush_selection ch (moves ds a)).pending_key ≡ some r.path)
              × (ch.queued (flush_selection ch (moves ds a)).tx
                  ≡ ch.queued a.tx ++ select r.path ∷ []))
    unfolding AsksOnce
    moves_ask_once ds a =
        let same = ap ch.queued (moves-tx ds a).0 in
        elim (flush-AsksOnce (moves ds a)) [
          | inl queue ↦ inl (queue ∙ same)
          | inr (r, e, k, p, queue) ↦
              inr (r, e, k, p, queue ∙ ap (λ q. q ++ select r.path ∷ []) same)
        ]

    -- After the first batch of a rescan, which clears the value shown, a flush on the key that was
    -- awaited before sends no request and leaves no value shown.
    pub reset_leaves_unfetched :
        (ks : List (Text × Option Kind)) (complete : Bool) (pages : ℕ) (a : App C) (r : Row)
        → selected_row (apply (batch ks true complete pages) a) ≡ some r
        → r.row_is_key ≡ true
        → is_text a.pending_key r.path ≡ true
        → let b = flush_selection ch (apply (batch ks true complete pages) a) in
          (b.detail ≡ none) × (ch.queued b.tx ≡ ch.queued a.tx)
    unfolding apply apply_batch fill_in rebuild
    reset_leaves_unfetched ks complete pages a r e k p =
        let (t, q, d, v, p', s) = flush-FlushedTo (apply (batch ks true complete pages) a) r e in
        (
          v ∙ either_way none r.row_is_key,
          unasked (ch.queued a.tx) _ r _
              (ap (λ x. x && is_sent (select_of r (apply (batch ks true complete pages) a)).0)
                (awaited_row r a k p))
              q,
        )
