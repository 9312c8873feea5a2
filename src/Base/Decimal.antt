-- ===== src/Base/Decimal.antt =====
-- `to_string` and `parse` of Rust's numbers.
use keylens.Base.{
  ◌-◌, ◌*◌, ◌^◌, Option, none, some, leb, ◌==◌, ◌&&◌, if◌then◌else◌, ◌>>=◌, ℕ, zero, suc, ◌+◌, ◌/◌,
  ◌%◌, compare, Ordering, [], ◌∷◌, ◌++◌,
}
use keylens.Base.Text.{Text}
use keylens.Base.Int.{ℤ, pos, negsuc, sub_ℕ}

-- `to_string` of an unsigned number; each step has a digit less, so that `n` steps are enough.
unfoldable pub digits : ℕ → ℕ → Text
digits zero n = []
digits (suc fuel) n = elim (compare n 10) [
  | Ordering.lt ↦ (b'0' + n) ∷ []
  | _ ↦ digits fuel (n / 10) ++ (b'0' + n % 10) ∷ []
]

unfoldable pub to_string : ℕ → Text
unfolding digits
to_string n = digits (suc n) n

-- `to_string` of a signed number.
unfoldable pub signed_to_string : ℤ → Text
signed_to_string (pos n) = to_string n
signed_to_string (negsuc n) = b'-' ∷ to_string (suc n)

-- The value of a text of decimal digits, behind `acc`.
abbrev pub digits_value : ℕ → Text → Option ℕ
digits_value acc [] = some acc
digits_value acc (c ∷ s) =
    let rest = digits_value (acc * 10 + (c - b'0')) s in
    if leb b'0' c && leb c b'9' then rest else none

abbrev pub unsigned : Text → Option ℕ
unsigned [] = none
unsigned (c ∷ s) = digits_value 0 (c ∷ s)

-- `parse::<i64>()`
abbrev pub signed : Text → Option ℤ
signed [] = none
signed (c ∷ s) =
    if c == b'-'
    then (do n ← unsigned s; if leb n (2 ^ 63) then some (sub_ℕ 0 n) else none)
    else (do
      n ← unsigned (if c == b'+' then s else c ∷ s)
      if leb n (2 ^ 63 - 1) then some (pos n) else none)

abbrev within : ℕ → Option ℕ → Option ℕ
within limit none = none
within limit (some n) = if leb n limit then some n else none

abbrev plus_dropped : Text → Text
plus_dropped [] = []
plus_dropped (c ∷ s) = if c == b'+' then s else c ∷ s

-- `parse::<u32>()` and `parse::<u64>()`
unfoldable pub parse_u32 : Text → Option ℕ
parse_u32 s = within (2 ^ 32 - 1) (unsigned (plus_dropped s))

unfoldable pub parse_u64 : Text → Option ℕ
parse_u64 s = within (2 ^ 64 - 1) (unsigned (plus_dropped s))
