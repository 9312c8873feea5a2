-- ===== src/Ui/Format/Numbers.antt =====
-- What a formatted number reads back as.
use keylens.Base.{
  ℕ, zero, suc, ◌+◌, ◌-◌, ◌*◌, ◌/◌, ◌%◌, ◌≤◌, ◌<◌, ◌≡◌, refl, ap, ◌∙◌, Bool, true, false, List, [],
  ◌∷◌, ◌++◌, ◌==◌, ltb, if◌then◌else◌, arith, length, Bool-cases, inl, inr, max, take,
  length-append, length-take,
}
use keylens.Base.Text.{Text, codes}
use keylens.Base.Decimal.{digits, to_string}
use keylens.Ui.Format.{grouped, count, truncate}

-- The number that a text of digits denotes, commas left out, after `acc`.
unfoldable pub read_from : ℕ → Text → ℕ
read_from acc [] = acc
read_from acc (c ∷ s) = if c == b',' then read_from acc s else read_from (acc * 10 + (c - b'0')) s

read_from-append : (acc : ℕ) (a b : Text) → read_from acc (a ++ b) ≡ read_from (read_from acc a) b
unfolding read_from
read_from-append acc [] b = refl
read_from-append acc (c ∷ a) b =
    ground (arith, read_from-append acc a b, read_from-append (acc * 10 + (c - b'0')) a b)

read_from-digits : (fuel n : ℕ) → n < fuel → read_from 0 (digits fuel n) ≡ n
unfolding digits read_from
read_from-digits zero n h = absurd (omega arith)
read_from-digits (suc fuel) n h = elim (Bool-cases (ltb n 10)) [
  | inl e ↦ ground arith
  | inr e ↦ ground (
    arith,
    read_from-append 0 (digits fuel (n / 10)) ((b'0' + n % 10) ∷ []),
    read_from-digits fuel (n / 10) (ground arith),
  )
]

read_from-grouped :
    (first : Bool) (acc : ℕ) (s : Text) → read_from acc (grouped first s) ≡ read_from acc s
unfolding grouped read_from
read_from-grouped first acc [] = refl
read_from-grouped first acc (c ∷ s) =
    ground (arith, read_from-grouped false acc s, read_from-grouped false (acc * 10 + (c - b'0')) s)

-- A count with its separators reads back as the number it shows.
pub count_reads_back : (n : ℕ) → read_from 0 (count n) ≡ n
unfolding count to_string
count_reads_back n =
    read_from-grouped true 0 (digits (suc n) n) ∙ read_from-digits (suc n) n (omega arith)

take-take_append :
    {A : Type 0} (n : ℕ) (s t : List A) → n ≤ length s → take n (take n s ++ t) ≡ take n s
take-take_append zero s t h = refl
take-take_append (suc n) [] t h = absurd (omega arith)
take-take_append (suc n) (x ∷ s) t h = ap (λ r. x ∷ r) (take-take_append n s t (omega arith))

cut_length : (s : Text) (limit : ℕ) → limit < length s → length (truncate s limit) ≡ max limit 1
unfolding truncate
cut_length s limit h =
    ground (arith, length-append (take (limit - 1) s) (codes "…"), length-take (limit - 1) s)

cut_start :
    (s : Text) (limit : ℕ)
    → limit < length s
    → take (limit - 1) (truncate s limit) ≡ take (limit - 1) s
unfolding truncate
cut_start s limit h = ground (arith, take-take_append (limit - 1) s (codes "…") (omega arith))

-- A text that fits is left alone; a longer one is cut to `max` characters, the ellipsis included,
-- and shares all but the last of them with the text. A limit of 0 leaves the ellipsis.
pub truncate_lem :
    (s : Text) (limit : ℕ)
    → (length s ≤ limit → truncate s limit ≡ s)
      × (limit < length s
          → (length (truncate s limit) ≡ max limit 1)
            × (take (limit - 1) (truncate s limit) ≡ take (limit - 1) s))
unfolding truncate
truncate_lem s limit = (λ h. ground arith, λ h. (cut_length s limit h, cut_start s limit h))
