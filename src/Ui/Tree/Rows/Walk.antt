-- ===== src/Ui/Tree/Rows/Walk.antt =====
-- The induction rule of `walk`: a property of paths and nodes that passes from a node to its
-- children holds of every row.
use keylens.Base.{
  ℕ, zero, suc, ◌+◌, ◌≡◌, ◌≢◌, refl, Bool, true, false, ◌&&◌, List, [], ◌∷◌, ◌++◌, All, All-append,
  Bool-cases, inl, inr,
}
use keylens.Base.Text.{Text}
use keylens.Ui.Tree.{
  separator, Node, node, Children, nil, cons, children, has_children, set_contains,
}
use keylens.Ui.Tree.Rows.{Row, extend, fold, folded, branches, leaves, make_row, emit, walk}

-- The segment and the child stand in the map.
pub data ChildOf (s : Text) (c : Node) : Children → Type 0 where
  here : {r : Children} → ChildOf s c (cons s c r)
  there : {t : Text} {d : Node} {r : Children} → ChildOf s c r → ChildOf s c (cons t d r)

abbrev pub Entry : Type 0
Entry = Text × Text × Node

module _ {ℓ} (P : Entry → Type ℓ) where
  pub All-branches : (es : List Entry) → All P es → All P (branches es)
  unfolding branches
  All-branches [] h = tt
  All-branches ((label, path, n) ∷ r) h = elim (Bool-cases (has_children n)) [
    | inl e ↦ rw e (h.0, All-branches r h.1)
    | inr e ↦ rw e (All-branches r h.1)
  ]

  pub All-leaves : (es : List Entry) → All P es → All P (leaves es)
  unfolding leaves
  All-leaves [] h = tt
  All-leaves ((label, path, n) ∷ r) h = elim (Bool-cases (has_children n)) [
    | inl e ↦ rw e (All-leaves r h.1)
    | inr e ↦ rw e (h.0, All-leaves r h.1)
  ]

pub extend_below : (path s : Text) → path ≢ [] → extend path s ≡ path ++ separator ∷ s
unfolding extend
extend_below [] s h = absurd (h refl)
extend_below (c ∷ cs) s h = refl

module _ {ℓ κ} (P : Text → Node → Type ℓ) (Q : Row → Type κ) (open_paths : List Text)
    (nonempty : (path : Text) (nd : Node) → P path nd → path ≢ [])
    (child : (path : Text) (nd : Node) (s : Text) (c : Node)
      → P path nd
      → ChildOf s c (children nd)
      → P (path ++ separator ∷ s) c)
    (row : (depth : ℕ) (label path : Text) (nd : Node)
      → P path nd
      → Q (make_row open_paths depth label path nd)) where
  pub fold_keeps :
      (label path : Text) (nd : Node) → P path nd → P (fold label path nd).1 (fold label path nd).2
  unfolding fold
  fold_keeps label path (node (cons s c nil) false kd n) h =
      fold_keeps (label ++ separator ∷ s) (path ++ separator ∷ s) c (child path _ s c h here)
  fold_keeps label path nd h = h

  folded_keeps :
      (compact : Bool) (prefix : Text) (cs : Children)
      → ((s : Text) (c : Node) → ChildOf s c cs → P (extend prefix s) c)
      → All (λ (e : Entry). P e.1 e.2) (folded compact prefix cs)
  unfolding folded
  folded_keeps compact prefix nil h = tt
  folded_keeps true prefix (cons s c r) h = (
    fold_keeps s (extend prefix s) c (h s c here),
    folded_keeps true prefix r (λ t d m. h t d (there m)),
  )
  folded_keeps false prefix (cons s c r) h =
      (h s c here, folded_keeps false prefix r (λ t d m. h t d (there m)))

  emit-All :
      (below : Node → Text → ℕ → List Row) (depth : ℕ) (es : List Entry)
      → ((nd : Node) (path : Text) (d : ℕ) → P path nd → All Q (below nd path d))
      → All (λ (e : Entry). P e.1 e.2) es
      → All Q (emit open_paths below depth es)
  unfolding emit
  emit-All below depth [] ih h = tt
  emit-All below depth ((label, path, nd) ∷ r) ih h =
      elim (Bool-cases (has_children nd && set_contains path open_paths)) [
        | inl e ↦ (
          row depth label path nd h.0,
          rw e (
              All-append Q (below nd path (depth + 1)) _ (ih nd path (depth + 1) h.0)
                (emit-All below depth r ih h.1)),
        )
        | inr e ↦ (row depth label path nd h.0, rw e (emit-All below depth r ih h.1))
      ]

  pub walk-All :
      (fuel : ℕ) (compact : Bool) (nd : Node) (prefix : Text) (depth : ℕ)
      → ((s : Text) (c : Node) → ChildOf s c (children nd) → P (extend prefix s) c)
      → All Q (walk fuel compact open_paths nd prefix depth)
  unfolding walk
  walk-All zero compact nd prefix depth h = tt
  walk-All (suc fuel) compact nd prefix depth h =
      let es = folded compact prefix (children nd) in
      let hs = folded_keeps compact prefix (children nd) h in
      emit-All (walk fuel compact open_paths) depth (branches es ++ leaves es)
        (λ c path d p.
          walk-All fuel compact c path d
            (λ s e m. rw (extend_below path s (nonempty path c p)) (child path c s e p m)))
        (All-append _ (branches es) (leaves es) (All-branches _ es hs) (All-leaves _ es hs))
