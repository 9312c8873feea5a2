-- ===== src/Ui/Tree/Rows/Sound.antt =====
-- Every row tells the truth about the node that its path names.
use keylens.Base.{
  ℕ, ◌≡◌, ◌≢◌, refl, ◌&&◌, List, [], ◌∷◌, ◌++◌, none, some, arith, All, ◌>>=◌, ap, ◌∙◌,
  Option-cases, inl, inr, Ordering,
}
use keylens.Base.Text.{Text, compare_text, gt_of_lt_text, Lacks, text_eq_refl}
use keylens.Base.Split.{split, split-one, split-append}
use keylens.Ui.Tree.{
  separator, Node, node, Children, nil, cons, children, is_key, kind, subtree_keys, has_children,
  KeyTree, get, find, find_from, is_expanded,
}
use keylens.Ui.Tree.Shape.{IsSorted, Above, IsCounted, AreCounted}
use keylens.Ui.Tree.Counts.{IsValid}
use keylens.Ui.Tree.Rows.{Row, extend, height, rows}
use keylens.Ui.Tree.Rows.Walk.{ChildOf, here, there, walk-All}

Above-ChildOf :
    (s t : Text) (c : Node) (cs : Children)
    → Above s cs
    → ChildOf t c cs
    → compare_text s t ≡ Ordering.lt
Above-ChildOf s t c nil a m = elim m [ ]
Above-ChildOf s t c (cons u d r) a here = a.0
Above-ChildOf s t c (cons u d r) a (there m) = Above-ChildOf s t c r a.1 m

-- In an ordered map a child is found under its segment.
get-ChildOf :
    (s : Text) (c : Node) (cs : Children) → IsSorted cs → ChildOf s c cs → get s cs ≡ some c
unfolding get
get-ChildOf s c nil o m = elim m [ ]
get-ChildOf s c (cons u d r) o here = rw (text_eq_refl s)
get-ChildOf s c (cons u d r) o (there m) =
    ground (arith, gt_of_lt_text u s (Above-ChildOf u s c r o.0 m), get-ChildOf s c r o.1 m)

ChildOf-IsCounted :
    (s : Text) (c : Node) (cs : Children)
    → AreCounted cs
    → ChildOf s c cs
    → Lacks separator s × IsCounted c
unfolding IsCounted
ChildOf-IsCounted s c nil a m = elim m [ ]
ChildOf-IsCounted s c (cons u d r) a here = (a.1, a.2)
ChildOf-IsCounted s c (cons u d r) a (there m) = ChildOf-IsCounted s c r a.3 m

find_from-append :
    (ss us : List Text) (nd : Node) → find_from (ss ++ us) nd ≡ (find_from ss nd >>= find_from us)
unfolding find_from
find_from-append [] us nd = refl
find_from-append (s ∷ ss) us (node cs k kd n) = elim (Option-cases (get s cs)) [
  | inl e ↦ rw e
  | inr (c, e) ↦ rw e (find_from-append ss us c)
]

-- What a row says of the node at its path.
abbrev pub RowFits : KeyTree → Row → Type 0
RowFits t r =
    (nd : Node) × (find r.path t ≡ some nd)
    × (r.row_is_key ≡ is_key nd)
    × (r.row_is_branch ≡ has_children nd)
    × (r.row_subtree_keys ≡ subtree_keys nd)
    × (r.row_kind ≡ kind nd)
    × (r.row_expanded ≡ (has_children nd && is_expanded r.path t))

-- The path leads from the root to the node.
abbrev Located : Node → Text → Node → Type 0
Located root path nd =
    (path ≢ []) × (find_from (split separator path) root ≡ some nd) × IsCounted nd

find_from-last :
    (s : Text) (c nd : Node) → get s (children nd) ≡ some c → find_from (s ∷ []) nd ≡ some c
unfolding find_from
find_from-last s c (node cs k kd n) e = rw e

pub append-cons-ne-nil : (p q : Text) (c : ℕ) → p ++ c ∷ q ≢ []
append-cons-ne-nil [] q c = ground arith
append-cons-ne-nil (x ∷ p) q c = ground arith

child-Located :
    (root : Node) (path : Text) (nd : Node) (s : Text) (c : Node)
    → Located root path nd
    → ChildOf s c (children nd)
    → Located root (path ++ separator ∷ s) c
unfolding IsCounted
child-Located root path (node cs k kd n) s c h m =
    let (lacks, counted) = ChildOf-IsCounted s c cs h.2.2 m in
    let pieces =
      split-append separator path s
      ∙ ap (λ q. split separator path ++ q) (split-one separator s lacks) in
    (
      append-cons-ne-nil path s separator,
      rw pieces (
          rw (find_from-append, h.1)
            (find_from-last s c (node cs k kd n) (get-ChildOf s c cs h.2.1 m))),
      counted,
    )

pub root-Located :
    (root : Node)
    → IsCounted root
    → get [] (children root) ≡ none
    → (s : Text) (c : Node) → ChildOf s c (children root)
    → Located root (extend [] s) c
unfolding IsCounted extend
root-Located (node cs k kd n) h free [] c m = absurd (cc (get-ChildOf [] c cs h.1 m))
root-Located (node cs k kd n) h free (x ∷ s) c m =
    let (lacks, counted) = ChildOf-IsCounted (x ∷ s) c cs h.2 m in
    (
      ground arith,
      rw (split-one separator (x ∷ s) lacks)
          (find_from-last (x ∷ s) c (node cs k kd n) (get-ChildOf (x ∷ s) c cs h.1 m)),
      counted,
    )

-- In a valid tree with no key that begins with the separator, every row names a node that is there,
-- and shows whether it is a key and a branch, its count, its type and its expansion as they are.
pub rows_sound :
    (t : KeyTree) → IsValid t → get [] (children t.root) ≡ none → All (RowFits t) (rows t)
unfolding rows find is_expanded
rows_sound t v free =
    walk-All (Located t.root) (RowFits t) t.expanded (λ path nd p. p.0) (child-Located t.root)
      (λ depth label path nd p. (nd, p.1, refl, refl, refl, refl, refl)) (height t.root) t.compact
      t.root [] 0 (root-Located t.root v.counted free)
