-- ===== src/BullMq/Fields/Capped.antt =====
-- The cap on a field of a job.
use keylens.Base.{
  ℕ, ◌+◌, ◌≤◌, ◌<◌, ◌≡◌, refl, ap, ◌⊎◌, inl, inr, [], ◌∷◌, ◌++◌, arith, leb, ltb, Bool-cases,
}
use keylens.Base.Text.{Text}
use keylens.Conn.Value.{byte_length, char_bytes}
use keylens.BullMq.Fields.{max_field_bytes, field_marker, fitting, cap_field}

-- Of `used` bytes written before, no more than the limit are written after.
fitting-le :
    (used : ℕ) (s : Text)
    → used ≤ max_field_bytes
    → used + byte_length (fitting used s) ≤ max_field_bytes
unfolding fitting byte_length
fitting-le used [] h = ground arith
fitting-le used (c ∷ s) h = elim (Bool-cases (ltb max_field_bytes (used + char_bytes c))) [
  | inl e ↦ rw e (ground arith)
  | inr e ↦ rw e (ground (arith, fitting-le (used + char_bytes c) s))
]

-- What is left out behind the part that fits begins with a character that does not fit.
cut_off :
    (used : ℕ) (s : Text)
    → used ≤ max_field_bytes
    → max_field_bytes < used + byte_length s
    → (c : ℕ) × (rest : Text) × (s ≡ fitting used s ++ c ∷ rest)
      × (max_field_bytes < used + byte_length (fitting used s) + char_bytes c)
unfolding fitting byte_length
cut_off used [] l h = ground arith
cut_off used (c ∷ s) l h = elim (Bool-cases (ltb max_field_bytes (used + char_bytes c))) [
  | inl e ↦ (c, s, rw e refl, rw e (ground arith))
  | inr e ↦
      let (d, rest, a, b) = cut_off (used + char_bytes c) s (ground arith) (ground arith) in
      (d, rest, rw e (ap (λ r. c ∷ r) a), rw e (ground arith))
]

-- A field that fits is kept as it is. Of a longer one, as many whole characters are kept from its
-- start as fit into the limit, and the marker is put behind them.
pub cap_field_lem :
    (s : Text)
    → ((byte_length s ≤ max_field_bytes) × (cap_field s ≡ s))
      ⊎ ((kept : Text) × (c : ℕ) × (rest : Text) × (s ≡ kept ++ c ∷ rest)
          × (byte_length kept ≤ max_field_bytes)
          × (max_field_bytes < byte_length kept + char_bytes c)
          × (cap_field s ≡ kept ++ field_marker))
unfolding cap_field
cap_field_lem s = elim (Bool-cases (leb (byte_length s) max_field_bytes)) [
  | inl e ↦ inl (ground arith, rw e refl)
  | inr e ↦
      let (c, rest, h, over) = cut_off 0 s (ground arith) (ground arith) in
      inr (fitting 0 s, c, rest, h, ground (arith, fitting-le 0 s), ground arith, rw e refl)
]
