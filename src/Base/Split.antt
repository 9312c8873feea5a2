-- ===== src/Base/Split.antt =====
-- `str::split`, `split_once`, `rsplit_once`, `strip_prefix` and `strip_suffix` of Rust.
use keylens.Base.{
  ℕ, ◌≡◌, ◌≢◌, refl, ap, List, [], ◌∷◌, ◌++◌, arith, ◌==◌, if◌then◌else◌, All, Bool-cases, inl, inr,
  sym, ◌∙◌,
}
use keylens.Base.Text.{Text, Lacks}

module _ (sep : ℕ) where
  push_head : ℕ → List Text → List Text
  push_head x [] = (x ∷ []) ∷ []
  push_head x (p ∷ ps) = (x ∷ p) ∷ ps

  -- `s.split(sep)`: the pieces between the separators, at least one.
  unfoldable pub split : Text → List Text
  unfolding push_head
  split [] = [] ∷ []
  split (x ∷ s) = let rest = split s in if x == sep then [] ∷ rest else push_head x rest

  -- The inverse of `split`.
  unfoldable pub join : List Text → Text
  join [] = []
  join (p ∷ []) = p
  join (p ∷ q ∷ ps) = p ++ sep ∷ join (q ∷ ps)

  pub split-ne-nil : (s : Text) → split s ≢ []
  unfolding split
  split-ne-nil [] = ground arith
  split-ne-nil (x ∷ s) = ground (arith, split-ne-nil s)

  join-push_head : (x : ℕ) (ps : List Text) → ps ≢ [] → join (push_head x ps) ≡ x ∷ join ps
  unfolding join push_head
  join-push_head x [] h = absurd (h refl)
  join-push_head x (p ∷ []) h = refl
  join-push_head x (p ∷ q ∷ ps) h = refl

  join-nil-cons : (ps : List Text) → ps ≢ [] → join ([] ∷ ps) ≡ sep ∷ join ps
  unfolding join
  join-nil-cons [] h = absurd (h refl)
  join-nil-cons (p ∷ ps) h = refl

  pub join-split : (s : Text) → join (split s) ≡ s
  unfolding split
  join-split [] = unfold join in refl
  join-split (x ∷ s) = elim (Bool-cases (x == sep)) [
    | inl e ↦ rw e (ground (arith, join-nil-cons (split s) (split-ne-nil s), join-split s))
    | inr e ↦ rw e (ground (arith, join-push_head x (split s) (split-ne-nil s), join-split s))
  ]

  -- Texts with the same pieces are the same.
  pub split-injective : (s t : Text) → split s ≡ split t → s ≡ t
  split-injective s t h = sym (join-split s) ∙ ap join h ∙ join-split t

  push_head-Lacks :
      (x : ℕ) (ps : List Text) → x ≢ sep → All (Lacks sep) ps → All (Lacks sep) (push_head x ps)
  unfolding push_head
  push_head-Lacks x [] h a = ((h, tt), tt)
  push_head-Lacks x (p ∷ ps) h a = ((h, a.0), a.1)

  pub split-Lacks : (s : Text) → All (Lacks sep) (split s)
  unfolding split
  split-Lacks [] = (tt, tt)
  split-Lacks (x ∷ s) = elim (Bool-cases (x == sep)) [
    | inl e ↦ rw e (tt, split-Lacks s)
    | inr e ↦ rw e (push_head-Lacks x (split s) (ground arith) (split-Lacks s))
  ]

  -- A text without the separator is one piece, and a separator starts a new one.
  pub split-one : (q : Text) → Lacks sep q → split q ≡ q ∷ []
  unfolding split
  split-one [] l = refl
  split-one (x ∷ q) l = ground (arith, split-one q l.1)

  push_head-append :
      (x : ℕ) (ps qs : List Text) → ps ≢ [] → push_head x (ps ++ qs) ≡ push_head x ps ++ qs
  unfolding push_head
  push_head-append x [] qs h = absurd (h refl)
  push_head-append x (p ∷ ps) qs h = refl

  pub split-append : (p q : Text) → split (p ++ sep ∷ q) ≡ split p ++ split q
  unfolding split
  split-append [] q = ground arith
  split-append (x ∷ p) q =
      ground (arith, split-append p q, push_head-append x (split p) (split q) (split-ne-nil p))
