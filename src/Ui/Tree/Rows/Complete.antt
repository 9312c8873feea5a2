-- ===== src/Ui/Tree/Rows/Complete.antt =====
-- With every branch open, every key of the tree has its row.
use keylens.Base.{
  ℕ, zero, suc, ◌+◌, ◌≤◌, ◌≡◌, refl, sym, ap, ◌∙◌, Bool, true, false, ◌&&◌, List, [], ◌∷◌, Option,
  none, some, arith, if◌then◌else◌, Any, Any-append_left, Any-append_right, Bool-cases,
  Option-cases, inl, inr, ◌⊎◌, subst,
}
use keylens.Base.Text.{Text, text_eq, text_eq_iff}
use keylens.Base.Split.{split, split-ne-nil, join, join-split}
use keylens.Conn.Kind.{Kind}
use keylens.Ui.Tree.{
  separator, Node, node, Children, nil, cons, children, is_key, has_children, KeyTree, get, find,
  find_from, contains, set_contains,
}
use keylens.Ui.Tree.Counts.{IsValid}
use keylens.Ui.Tree.Rows.{
  Row, extend, fold, folded, emit, walk, height, height_below, rows, expand_all, set_extend,
  collect_branches,
}
use keylens.Ui.Tree.Rows.Walk.{ChildOf, here, there, Entry, fold_keeps, extend_below}
use keylens.Ui.Tree.Rows.Fuel.{height-fold}
use keylens.Ui.Tree.Rows.Expanded.{set_contains-extend, IsOpen, child-IsOpen, root-IsOpen}
use keylens.Ui.Tree.Rows.Reach.{
  trail, trail-join, fold-reach, Any-partition, ap_key, entry_of, Any-folded,
}

-- The row of a key at a path.
abbrev pub ShowsKey : Text → Row → Type 0
ShowsKey path r = (r.path ≡ path) × (r.row_is_key ≡ true)

-- An entry that is the key itself, or that is open with the row below it.
abbrev Leads : List Text → (Node → Text → ℕ → List Row) → ℕ → Text → Entry → Type 0
Leads open_paths below depth path e =
    ((e.1 ≡ path) × (is_key e.2 ≡ true))
    ⊎ ((has_children e.2 ≡ true)
        × (set_contains e.1 open_paths ≡ true)
        × Any (ShowsKey path) (below e.2 e.1 (depth + 1)))

Any-emit :
    (open_paths : List Text) (below : Node → Text → ℕ → List Row) (depth : ℕ) (path : Text)
    (es : List Entry)
    → Any (Leads open_paths below depth path) es
    → Any (ShowsKey path) (emit open_paths below depth es)
unfolding emit
Any-emit open_paths below depth path [] h = elim h [ ]
Any-emit open_paths below depth path ((label, at, nd) ∷ r) (inl (inl p)) = inl p
Any-emit open_paths below depth path ((label, at, nd) ∷ r) (inl (inr (b, o, h))) = inr (
    Any-append_left (ShowsKey path)
      (if has_children nd && set_contains at open_paths then below nd at (depth + 1) else []) _
      (rw (b, o) h))
Any-emit open_paths below depth path ((label, at, nd) ∷ r) (inr h) =
    inr (Any-append_right (ShowsKey path) _ _ (Any-emit open_paths below depth path r h))

ChildOf-here : (s t : Text) (c d : Node) (r : Children) → s ≡ t → d ≡ c → ChildOf s c (cons t d r)
ChildOf-here s t c d r p q =
    subst (λ w. ChildOf s c (cons w d r)) p (subst (λ e. ChildOf s c (cons s e r)) (sym q) here)

ChildOf-get : (s : Text) (c : Node) (cs : Children) → get s cs ≡ some c → ChildOf s c cs
unfolding get
ChildOf-get s c nil h = absurd (cc)
ChildOf-get s c (cons t d r) h = elim (Bool-cases (text_eq s t)) [
  | inl e ↦ ChildOf-here s t c d r ((text_eq_iff s t).0 e) (ground arith)
  | inr e ↦ there (ChildOf-get s c r (ground arith))
]

find_step :
    (s : Text) (ss : List Text) (cs : Children) (k : Bool) (kd : Option Kind) (n : ℕ)
    (target : Node)
    → find_from (s ∷ ss) (node cs k kd n) ≡ some target
    → (c : Node) × (get s cs ≡ some c) × (find_from ss c ≡ some target)
unfolding find_from
find_step s ss cs k kd n target h = elim (Option-cases (get s cs)) [
  | inl e ↦ absurd (ground arith)
  | inr (c, e) ↦ (c, e, ground arith)
]

find_from-has_children :
    (s : Text) (ss : List Text) (nd target : Node)
    → find_from (s ∷ ss) nd ≡ some target
    → has_children nd ≡ true
unfolding find_from get
find_from-has_children s ss (node nil k kd n) target h = ground arith
find_from-has_children s ss (node (cons t d r) k kd n) target h = refl

height-ChildOf : (s : Text) (c : Node) (cs : Children) → ChildOf s c cs → height c ≤ height_below cs
unfolding height
height-ChildOf s c nil m = elim m [ ]
height-ChildOf s c (cons t d r) here = omega arith
height-ChildOf s c (cons t d r) (there m) = omega (arith, height-ChildOf s c r m)

module _ (open_paths : List Text) (target : Node) (key : is_key target ≡ true) where
  -- The walk below a node shows the target wherever a path leads to it.
  Shows : ℕ → Bool → ℕ → Node → Text → Type 0
  Shows fuel compact depth nd at =
      (u : Text) (us : List Text)
      → find_from (u ∷ us) nd ≡ some target
      → Any (ShowsKey (trail (extend at u) us)) (walk fuel compact open_paths nd at depth)

  -- The entry shows the target, if the recursive call does below it.
  entry-Leads :
      (fuel : ℕ) (compact : Bool) (depth : ℕ) (path label at : Text) (nd : Node) (rest : List Text)
      → Shows fuel compact (depth + 1) nd at
      → IsOpen open_paths at nd
      → find_from rest nd ≡ some target
      → trail at rest ≡ path
      → Leads open_paths (walk fuel compact open_paths) depth path (label, at, nd)
  unfolding Shows
  entry-Leads fuel compact depth path label at nd [] ih o h e =
      inl (e, ap_key nd target (unfold find_from in h) ∙ key)
  entry-Leads fuel compact depth path label at nd (u ∷ us) ih o h e =
      let has = find_from-has_children u us nd target h in
      let spelt = ap (λ w. trail w us) (extend_below at u o.0) ∙ e in
      let shown = λ (w : Text). Any (ShowsKey w) (walk fuel compact open_paths nd at (depth + 1)) in
      inr (has, o.1 has, subst shown spelt (ih u us h))

  folded-Leads :
      (fuel : ℕ) (compact : Bool) (depth : ℕ) (prefix s : Text) (c : Node) (ss : List Text)
      → ((nd : Node) (at : Text)
          → height nd ≤ height c
          → IsOpen open_paths at nd
          → Shows fuel compact (depth + 1) nd at)
      → IsOpen open_paths (extend prefix s) c
      → find_from ss c ≡ some target
      → Leads open_paths
          (walk fuel compact open_paths)
          depth
          (trail (extend prefix s) ss)
          (entry_of compact prefix s c)
  folded-Leads fuel false depth prefix s c ss ih o h =
      entry-Leads fuel false depth _ s (extend prefix s) c ss
        (ih c (extend prefix s) (omega arith) o) o h refl
  folded-Leads fuel true depth prefix s c ss ih o h =
      let (rest, reached, spelt) = fold-reach s (extend prefix s) c ss target h key in
      let (label, at, nd) = fold s (extend prefix s) c in
      let o' =
        fold_keeps (IsOpen open_paths) (λ _. Unit {0}) open_paths (λ path e p. p.0)
          (child-IsOpen open_paths) (λ _ _ _ _ _. tt) s (extend prefix s) c o in
      entry-Leads fuel true depth _ label at nd rest
        (ih nd at (height-fold s (extend prefix s) c) o') o' reached spelt

  walk-Shows :
      (fuel : ℕ) (compact : Bool) (depth : ℕ) (nd : Node) (prefix : Text)
      → height nd ≤ fuel
      → ((s : Text) (c : Node) → ChildOf s c (children nd) → IsOpen open_paths (extend prefix s) c)
      → Shows fuel compact depth nd prefix
  unfolding walk Shows height
  walk-Shows zero compact depth (node cs k kd n) prefix l o s ss h = absurd (omega arith)
  walk-Shows (suc fuel) compact depth (node cs k kd n) prefix l o s ss h =
      let (c, got, found) = find_step s ss cs k kd n target h in
      let m = ChildOf-get s c cs got in
      Any-emit open_paths (walk fuel compact open_paths) depth _ _ (
        Any-partition _ (folded compact prefix cs) (
          Any-folded _ compact prefix s c cs m (
            folded-Leads fuel compact depth prefix s c ss
              (λ nd at lower op.
                walk-Shows fuel compact (depth + 1) nd at (omega (arith, height-ChildOf s c cs m))
                  (λ u d mem.
                    rw (extend_below at u op.0) (child-IsOpen open_paths at nd u d op mem)))
              (o s c m) found)))

-- The path that the pieces of a key lead to is the key.
trail-split :
    (key s : Text) (ss : List Text) → split separator key ≡ s ∷ ss → trail (extend [] s) ss ≡ key
unfolding extend
trail-split key s ss e = trail-join s ss ∙ ap (join separator) (sym e) ∙ join-split separator key

shown_at :
    (key : Text) (t : KeyTree) (pieces : List Text) (target : Node)
    → IsValid t
    → get [] (children t.root) ≡ none
    → split separator key ≡ pieces
    → find_from pieces t.root ≡ some target
    → is_key target ≡ true
    → Any (ShowsKey key) (rows (expand_all t))
unfolding rows expand_all Shows
shown_at key t [] target v free e h k = absurd (split-ne-nil separator key e)
shown_at key t (s ∷ ss) target v free e h k =
    let open_paths = set_extend (collect_branches t.root []) t.expanded in
    let shown =
      λ (w : Text). Any (ShowsKey w) (walk (height t.root) t.compact open_paths t.root [] 0) in
    subst shown (trail-split key s ss e) (
      walk-Shows open_paths target k (height t.root) t.compact 0 t.root [] (omega arith)
        (root-IsOpen open_paths t.root v.counted free
          (λ q m. ground (arith, set_contains-extend q (collect_branches t.root []) t.expanded)))
        s ss h)

-- After `expand_all`, in a valid tree with no key that begins with the separator, every key of the
-- tree has a row with its path that is marked as a key.
pub rows-expand_all_complete :
    (key : Text) (t : KeyTree)
    → IsValid t
    → get [] (children t.root) ≡ none
    → contains key t ≡ true
    → Any (ShowsKey key) (rows (expand_all t))
unfolding contains find
rows-expand_all_complete key t v free has =
    elim (Option-cases (find_from (split separator key) t.root)) [
      | inl e ↦ absurd (ground arith)
      | inr (target, e) ↦ shown_at key t (split separator key) target v free refl e (ground arith)
    ]
