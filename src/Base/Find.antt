-- ===== src/Base/Find.antt =====
-- `strip_prefix`, `split_once`, `rsplit_once`, `rfind`, `split_at` and `contains` of Rust's `str`.
-- Positions count characters, where Rust counts bytes; they are only handed from one of these
-- functions to another.
use keylens.Base.{
  ℕ, suc, ◌≡◌, refl, ap, Bool, false, ◌||◌, List, [], ◌∷◌, ◌++◌, Option, none, some, arith, ◌==◌,
  if◌then◌else◌, take, drop, length, Option-cases, inl, inr,
}
use keylens.Base.Text.{Text, Lacks}

unfoldable pub strip_prefix : Text → Text → Option Text
strip_prefix [] s = some s
strip_prefix (p ∷ ps) [] = none
strip_prefix (p ∷ ps) (x ∷ s) = if p == x then strip_prefix ps s else none

abbrev push_first : ℕ → Option (Text × Text) → Option (Text × Text)
push_first x none = none
push_first x (some (a, b)) = some (x ∷ a, b)

abbrev or_split : Option Text → Option (Text × Text) → Option (Text × Text)
or_split (some rest) later = some ([], rest)
or_split none later = later

-- `s.split_once(pattern)`: at the first occurrence.
unfoldable pub split_once : Text → Text → Option (Text × Text)
unfolding strip_prefix
split_once pattern [] = or_split (strip_prefix pattern []) none
split_once pattern (x ∷ s) =
    or_split (strip_prefix pattern (x ∷ s)) (push_first x (split_once pattern s))

-- `s.split_once(c)` for a character.
unfoldable pub split_once_char : ℕ → Text → Option (Text × Text)
split_once_char c [] = none
split_once_char c (x ∷ s) = if x == c then some ([], s) else push_first x (split_once_char c s)

abbrev or_here : Option (Text × Text) → Option (Text × Text) → Option (Text × Text)
or_here (some split) now = some split
or_here none now = now

-- `s.rsplit_once(c)`: at the last occurrence.
unfoldable pub rsplit_once_char : ℕ → Text → Option (Text × Text)
rsplit_once_char c [] = none
rsplit_once_char c (x ∷ s) =
    or_here (push_first x (rsplit_once_char c s)) (if x == c then some ([], s) else none)

abbrev later_position : Option ℕ → Option ℕ → Option ℕ
later_position (some i) now = some (suc i)
later_position none now = now

-- `s.rfind(c)`
unfoldable pub rfind : ℕ → Text → Option ℕ
rfind c [] = none
rfind c (x ∷ s) = later_position (rfind c s) (if x == c then some 0 else none)

-- `s.contains(&[c, d, …])`
unfoldable pub contains_char : ℕ → Text → Bool
contains_char c [] = false
contains_char c (x ∷ s) = x == c || contains_char c s

module _ (c : ℕ) where
  pub rfind-Lacks : (s : Text) → Lacks c s → rfind c s ≡ none
  unfolding rfind
  rfind-Lacks [] l = refl
  rfind-Lacks (x ∷ s) l = ground (arith, rfind-Lacks s l.1)

  -- The last occurrence, when nothing after it is one.
  pub rfind_last : (a b : Text) → Lacks c b → rfind c (a ++ c ∷ b) ≡ some (length a)
  unfolding rfind
  rfind_last [] b l = ground (arith, rfind-Lacks b l)
  rfind_last (x ∷ a) b l = ground (arith, rfind_last a b l)

  pub split_once_char-Lacks : (s : Text) → Lacks c s → split_once_char c s ≡ none
  unfolding split_once_char
  split_once_char-Lacks [] l = refl
  split_once_char-Lacks (x ∷ s) l = ground (arith, split_once_char-Lacks s l.1)

  pub split_once_char_first :
      (a b : Text) → Lacks c a → split_once_char c (a ++ c ∷ b) ≡ some (a, b)
  unfolding split_once_char
  split_once_char_first [] b l = ground arith
  split_once_char_first (x ∷ a) b l = ground (arith, split_once_char_first a b l.1)

  rsplit_once_char-Lacks : (s : Text) → Lacks c s → rsplit_once_char c s ≡ none
  unfolding rsplit_once_char
  rsplit_once_char-Lacks [] l = refl
  rsplit_once_char-Lacks (x ∷ s) l = ground (arith, rsplit_once_char-Lacks s l.1)

  pub rsplit_once_char_last :
      (a b : Text) → Lacks c b → rsplit_once_char c (a ++ c ∷ b) ≡ some (a, b)
  unfolding rsplit_once_char
  rsplit_once_char_last [] b l = ground (arith, rsplit_once_char-Lacks b l)
  rsplit_once_char_last (x ∷ a) b l = ground (arith, rsplit_once_char_last a b l)

module _ {ℓ} {A : Type ℓ} where
  pub take-length_append : (a b : List A) → take (length a) (a ++ b) ≡ a
  take-length_append [] b = refl
  take-length_append (x ∷ a) b = ap (λ r. x ∷ r) (take-length_append a b)

  pub drop-length_append : (a b : List A) → drop (length a) (a ++ b) ≡ b
  drop-length_append [] b = refl
  drop-length_append (x ∷ a) b = drop-length_append a b

pub strip_prefix-append : (p b : Text) → strip_prefix p (p ++ b) ≡ some b
unfolding strip_prefix
strip_prefix-append [] b = refl
strip_prefix-append (x ∷ p) b = ground (arith, strip_prefix-append p b)

-- What is stripped, and what is left, spell the text.
pub strip_prefix_sound : (p s r : Text) → strip_prefix p s ≡ some r → s ≡ p ++ r
unfolding strip_prefix
strip_prefix_sound [] s r h = ground arith
strip_prefix_sound (x ∷ p) [] r h = ground arith
strip_prefix_sound (x ∷ p) (y ∷ s) r h = ground (arith, strip_prefix_sound p s r)

-- A split at the first occurrence, where no character before it can begin the pattern.
pub split_once_at :
    (p : ℕ) (ps a b : Text) → Lacks p a → split_once (p ∷ ps) (a ++ (p ∷ ps ++ b)) ≡ some (a, b)
unfolding split_once
split_once_at p ps [] b l = ground (arith, strip_prefix-append ps b)
split_once_at p ps (x ∷ a) b l = ground (arith, split_once_at p ps a b l.1)

-- A text before the split that lacks the pattern's first character goes to its first part.
pub split_once-append :
    (p : ℕ) (ps a s x y : Text)
    → Lacks p a
    → split_once (p ∷ ps) s ≡ some (x, y)
    → split_once (p ∷ ps) (a ++ s) ≡ some (a ++ x, y)
unfolding split_once
split_once-append p ps [] s x y l h = h
split_once-append p ps (c ∷ a) s x y l h = ground (arith, split_once-append p ps a s x y l.1 h)

-- No occurrence of the pattern's first character, no split.
split_once-Lacks : (p : ℕ) (ps s : Text) → Lacks p s → split_once (p ∷ ps) s ≡ none
unfolding split_once
split_once-Lacks p ps [] l = refl
split_once-Lacks p ps (x ∷ s) l = ground (arith, split_once-Lacks p ps s l.1)

-- The parts of a split, with the pattern between them, spell the text.
pub split_once_sound :
    (pattern s a b : Text) → split_once pattern s ≡ some (a, b) → s ≡ a ++ (pattern ++ b)
unfolding split_once
split_once_sound pattern [] a b h = ground (arith, strip_prefix_sound pattern [] b)
split_once_sound pattern (x ∷ s) a b h = elim (Option-cases (strip_prefix pattern (x ∷ s))) [
  | inl e ↦ elim (Option-cases (split_once pattern s)) [
    | inl f ↦ absurd (ground arith)
    | inr ((a', b'), f) ↦ ground (arith, split_once_sound pattern s a' b' f)
  ]
  | inr (r, e) ↦ ground (arith, strip_prefix_sound pattern (x ∷ s) r e)
]
