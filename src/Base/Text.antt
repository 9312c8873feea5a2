-- ===== src/Base/Text.antt =====
-- Rust's `str` as the list of its code points. The order of `str`, that of its bytes in UTF-8, is
-- the order of the code points.
use Prim.Native.Char.{code}
use Prim.Native.String.{String}
use keylens.Base.{
  Option, none, some, ℕ, compare, Ordering, ◌≡◌, ◌≢◌, refl, ◌↔◌, Bool, true, false, List, [], ◌∷◌,
  arith, All,
}

abbrev pub Text : Type 0
Text = List ℕ

abbrev pub codes : String → Text
codes String.[] = []
codes (String.◌∷◌ c s) = code c ∷ codes s

-- `str::cmp`
unfoldable pub compare_text : Text → Text → Ordering
compare_text [] [] = Ordering.eq
compare_text [] (y ∷ ys) = Ordering.lt
compare_text (x ∷ xs) [] = Ordering.gt
compare_text (x ∷ xs) (y ∷ ys) = elim (compare x y) [
  | Ordering.lt ↦ Ordering.lt
  | Ordering.eq ↦ compare_text xs ys
  | Ordering.gt ↦ Ordering.gt
]

pub compare_text_refl : (a : Text) → compare_text a a ≡ Ordering.eq
unfolding compare_text
compare_text_refl [] = refl
compare_text_refl (x ∷ xs) = ground (arith, compare_text_refl xs)

pub eq_of_compare_text : (a b : Text) → compare_text a b ≡ Ordering.eq → a ≡ b
unfolding compare_text
eq_of_compare_text [] [] h = refl
eq_of_compare_text [] (y ∷ ys) h = ground arith
eq_of_compare_text (x ∷ xs) [] h = ground arith
eq_of_compare_text (x ∷ xs) (y ∷ ys) h = ground (arith, eq_of_compare_text xs ys)

pub lt_of_gt_text : (a b : Text) → compare_text a b ≡ Ordering.gt → compare_text b a ≡ Ordering.lt
unfolding compare_text
lt_of_gt_text [] [] h = ground arith
lt_of_gt_text [] (y ∷ ys) h = ground arith
lt_of_gt_text (x ∷ xs) [] h = refl
lt_of_gt_text (x ∷ xs) (y ∷ ys) h = ground (arith, lt_of_gt_text xs ys)

pub gt_of_lt_text : (a b : Text) → compare_text a b ≡ Ordering.lt → compare_text b a ≡ Ordering.gt
unfolding compare_text
gt_of_lt_text [] [] h = ground arith
gt_of_lt_text [] (y ∷ ys) h = refl
gt_of_lt_text (x ∷ xs) [] h = ground arith
gt_of_lt_text (x ∷ xs) (y ∷ ys) h = ground (arith, gt_of_lt_text xs ys)

pub lt_trans_text :
    (a b c : Text)
    → compare_text a b ≡ Ordering.lt
    → compare_text b c ≡ Ordering.lt
    → compare_text a c ≡ Ordering.lt
unfolding compare_text
lt_trans_text [] [] c h k = ground arith
lt_trans_text [] (y ∷ ys) [] h k = ground arith
lt_trans_text [] (y ∷ ys) (z ∷ zs) h k = refl
lt_trans_text (x ∷ xs) [] c h k = ground arith
lt_trans_text (x ∷ xs) (y ∷ ys) [] h k = ground arith
lt_trans_text (x ∷ xs) (y ∷ ys) (z ∷ zs) h k = ground (arith, lt_trans_text xs ys zs)

-- `==` on texts.
abbrev pub text_eq : Text → Text → Bool
text_eq a b = elim (compare_text a b) [ Ordering.eq ↦ true | _ ↦ false ]

pub text_eq_refl : (a : Text) → text_eq a a ≡ true
text_eq_refl a = ground (arith, compare_text_refl a)

pub text_eq_iff : (a b : Text) → (text_eq a b ≡ true) ↔ (a ≡ b)
text_eq_iff a b = ground (arith, eq_of_compare_text a b, compare_text_refl a)

-- No character of the text is `c`.
abbrev pub Lacks : ℕ → Text → Type 0
Lacks c = All (λ x. x ≢ c)

abbrev pub is_empty {ℓ} : {A : Type ℓ} → List A → Bool
is_empty [] = true
is_empty (x ∷ xs) = false

-- `unwrap_or_default` on texts.
abbrev pub or_empty : Option Text → Text
or_empty none = []
or_empty (some s) = s
