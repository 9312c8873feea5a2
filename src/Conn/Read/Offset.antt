-- ===== src/Conn/Read/Offset.antt =====
-- The offset of `read_value`.
use keylens.Base.{ℕ, ◌+◌, ◌-◌, ◌^◌, ◌<◌, ◌≡◌, refl, sym, ap, ◌∙◌, Bool, true, false, arith}
use keylens.Base.Text.{Text}
use keylens.Conn.Kind.{Kind, list, zset}
use keylens.Conn.Value.{Client}
use keylens.Conn.Error.{ok}
use keylens.Conn.Command.{Conn}
use keylens.Conn.Program.{of_result, ◌>>=◌}
use keylens.Conn.Decode.{page}
use keylens.Conn.Read.{page_bounds, value_of, read_value}

-- The types whose page starts at the offset.
abbrev pub is_ranged : Kind → Bool
is_ranged list = true
is_ranged zset = true
is_ranged _ = false

page_bounds-fits :
    (offset : ℕ) (k : Kind)
    → offset + (page - 1) < 2 ^ 63
    → page_bounds offset k ≡ ok (offset, offset + (page - 1))
unfolding page_bounds
page_bounds-fits offset k h = ground arith

module _ (client : Client) (conn : Conn) (key : Text) where
  unranged :
      (k : Kind) (a b : ℕ × ℕ)
      → is_ranged k ≡ false
      → value_of client conn key a k ≡ value_of client conn key b k
  unfolding value_of
  unranged list a b h = ground arith
  unranged zset a b h = ground arith
  unranged k a b h = refl

  -- A read of any type but a list and a sorted set, a stream's included, is the same for every two
  -- offsets whose pages end below 2 ^ 63.
  pub read_value_ignores_offset :
      (k : Kind) (offset offset' : ℕ)
      → is_ranged k ≡ false
      → offset + (page - 1) < 2 ^ 63
      → offset' + (page - 1) < 2 ^ 63
      → read_value client conn key k offset ≡ read_value client conn key k offset'
  unfolding read_value
  read_value_ignores_offset k offset offset' r h h' =
      ap (λ b. of_result b >>= λ bounds. value_of client conn key bounds k)
        (page_bounds-fits offset k h)
      ∙ unranged k _ _ r
      ∙ sym (
          ap (λ b. of_result b >>= λ bounds. value_of client conn key bounds k)
            (page_bounds-fits offset' k h'))
