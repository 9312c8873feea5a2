-- ===== src/App/Input.antt =====
-- Keys as crossterm reports them, and the arithmetic of cursors and scroll offsets.
use keylens.Base.{ℕ, ◌+◌, ◌-◌, ◌^◌, min, Bool, [], ◌∷◌, if◌then◌else◌}
use keylens.Base.Text.{Text}
use keylens.Base.Int.{ℤ, pos, negsuc, ◌+ℤ◌, ◌-ℤ◌, leb_ℤ, ltb_ℤ, to_ℕ}

-- The variants of `crossterm::event::KeyCode` that the application names, and one for the rest.
pub data KeyCode : Type 0 where
  char : ℕ → KeyCode
  down up page_down page_up home end_key left_key right_key enter esc tab backspace other_code :
      KeyCode

-- `crossterm::event::KeyEvent`: its code, and whether its modifiers contain CONTROL.
pub record KeyEvent : Type 0 where
  pub code : KeyCode
  pub control : Bool

-- `u16::saturating_add`; its `saturating_sub` is the subtraction of ℕ.
abbrev pub add_u16 : ℕ → ℕ → ℕ
add_u16 a b = min (a + b) (2 ^ 16 - 1)

abbrev pub isize_min : ℤ
isize_min = negsuc (2 ^ 63 - 1)

abbrev pub isize_max : ℤ
isize_max = pos (2 ^ 63 - 1)

-- `isize::MIN / 2` and `isize::MAX / 2`
abbrev pub far_up : ℤ
far_up = negsuc (2 ^ 62 - 1)

abbrev pub far_down : ℤ
far_down = pos (2 ^ 62 - 1)

-- `Ord::clamp` and `Ord::min`
unfoldable pub clamp_ℤ : ℤ → ℤ → ℤ → ℤ
clamp_ℤ low high a = if ltb_ℤ a low then low else if ltb_ℤ high a then high else a

unfoldable min_ℤ : ℤ → ℤ → ℤ
min_ℤ a b = if leb_ℤ a b then a else b

-- `(cursor as isize).saturating_add(delta).clamp(0, last) as usize`
unfoldable pub step_saturating : ℕ → ℕ → ℤ → ℕ
unfolding clamp_ℤ ◌+ℤ◌
step_saturating last cursor delta =
    to_ℕ (clamp_ℤ (pos 0) (pos last) (clamp_ℤ isize_min isize_max (pos cursor +ℤ delta)))

-- `(selected as isize + delta).clamp(0, last as isize) as usize`
unfoldable pub step_cursor : ℕ → ℕ → ℤ → ℕ
unfolding clamp_ℤ ◌+ℤ◌
step_cursor last cursor delta = to_ℕ (clamp_ℤ (pos 0) (pos last) (pos cursor +ℤ delta))

-- The scroll offset of a job's detail after a move by `delta`.
unfoldable pub scrolled : ℤ → ℕ → ℕ
unfolding min_ℤ ◌-ℤ◌
scrolled delta offset =
    if ltb_ℤ (pos 0) delta
    then add_u16 offset (to_ℕ (min_ℤ delta (pos 20)))
    else offset - to_ℕ (min_ℤ (pos 0 -ℤ delta) (pos 20))

-- `String::pop`
unfoldable pub pop : Text → Text
pop [] = []
pop (c ∷ []) = []
pop (c ∷ d ∷ s) = c ∷ pop (d ∷ s)
