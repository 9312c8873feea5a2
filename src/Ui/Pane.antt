-- ===== src/Ui/Pane.antt =====
-- crates/keylens-ui/src/pane.rs: the state of a pane that loads lazily.
use keylens.Base.{◌≡◌, refl, Bool, true, false, Option, none, some, ◌++◌, is_some, not}
use keylens.Base.Text.{Text, codes}

-- `enum PaneState<T>`
pub data PaneState (T : Type 0) : Type 0 where
  idle : PaneState T
  loading : PaneState T
  ready_with : T → PaneState T
  unavailable : Text → PaneState T
  failed_with : Text → PaneState T

module _ {T : Type 0} where
  -- `PaneState::is_idle`
  abbrev pub is_idle : PaneState T → Bool
  is_idle idle = true
  is_idle _ = false

  -- `PaneState::ready`
  abbrev pub ready : PaneState T → Option T
  ready (ready_with v) = some v
  ready _ = none

  -- `PaneState::is_error`
  abbrev is_error : PaneState T → Bool
  is_error (failed_with e) = true
  is_error _ = false

-- `Result<&T, String>`
pub data Shown (T : Type 0) : Type 0 where
  value : T → Shown T
  message : Text → Shown T

module _ {T : Type 0} where
  -- `PaneState::value_or_message`
  unfoldable value_or_message : PaneState T → Shown T
  value_or_message (ready_with v) = value v
  value_or_message idle = message (codes "press r to load")
  value_or_message loading = message (codes "loading...")
  value_or_message (unavailable why) = message (codes "unavailable on this server - " ++ why)
  value_or_message (failed_with e) = message (codes "failed: " ++ e)

  abbrev err : Shown T → Option Text
  err (value v) = none
  err (message m) = some m

  -- `PaneState::placeholder`
  unfoldable pub placeholder : PaneState T → Option Text
  unfolding value_or_message
  placeholder p = err (value_or_message p)

  -- A pane shows a placeholder exactly when it has no value: `placeholder` and `ready` are
  -- complements.
  pub placeholder_complement :
      (p : PaneState T) → is_some (placeholder p) ≡ (not (is_some (ready p)))
  unfolding placeholder
  placeholder_complement idle = refl
  placeholder_complement loading = refl
  placeholder_complement (ready_with v) = refl
  placeholder_complement (unavailable why) = refl
  placeholder_complement (failed_with e) = refl
