-- ===== src/Ui/Tree/Rows/Expanded.antt =====
-- `expand_all` opens every branch that a row can show.
use keylens.Base.{◌≡◌, ◌≢◌, refl, true, ◌||◌, List, [], ◌∷◌, ◌++◌, none, arith, All}
use keylens.Base.Text.{Text, text_eq_refl, text_eq_iff}
use keylens.Ui.Tree.{
  separator, Node, node, Children, nil, cons, children, has_children, KeyTree, get, set_contains,
  set_insert,
}
use keylens.Ui.Tree.Shape.{IsCounted}
use keylens.Ui.Tree.Counts.{IsValid}
use keylens.Ui.Tree.Rows.{
  Row, extend, height, rows, collect_branches, collect, set_extend, expand_all,
}
use keylens.Ui.Tree.Rows.Walk.{ChildOf, here, there, walk-All, extend_below}
use keylens.Ui.Tree.Rows.Sound.{append-cons-ne-nil, root-Located}

set_contains-append :
    (q : Text) (a b : List Text) → set_contains q (a ++ b) ≡ (set_contains q a || set_contains q b)
unfolding set_contains
set_contains-append q [] b = refl
set_contains-append q (x ∷ a) b = ground (arith, set_contains-append q a b)

pub set_contains-extend :
    (q : Text) (ps s : List Text)
    → set_contains q (set_extend ps s) ≡ (set_contains q ps || set_contains q s)
unfolding set_extend set_contains
set_contains-extend q [] s = refl
set_contains-extend q (p ∷ ps) s =
    ground (arith, set_contains-extend q ps (set_insert p s), text_eq_iff q p)

-- What is collected from a map holds the path of each child that is a branch, and what is
-- collected below each child.
collect-ChildOf :
    (s : Text) (c : Node) (cs : Children) (prefix q : Text)
    → ChildOf s c cs
    → (has_children c ≡ true → set_contains (extend prefix s) (collect cs prefix) ≡ true)
      × (set_contains q (collect_branches c (extend prefix s)) ≡ true
          → set_contains q (collect cs prefix) ≡ true)
unfolding collect_branches set_contains
collect-ChildOf s c nil prefix q m = elim m [ ]
collect-ChildOf s (node nil k kd n) (cons t d r) prefix q here = ground arith
collect-ChildOf s (node (cons u e w) k kd n) (cons t d r) prefix q here = ground (
  arith,
  text_eq_refl (extend prefix s),
  set_contains-append q (collect (cons u e w) (extend prefix s)) (collect r prefix),
)
collect-ChildOf s c (cons t d r) prefix q (there m) =
    let ih = collect-ChildOf s c r prefix q m in
    ground (
      arith,
      ih.0,
      ih.1,
      set_contains-append q (collect_branches d (extend prefix t)) (collect r prefix),
      set_contains-append (extend prefix s) (collect_branches d (extend prefix t))
          (collect r prefix),
    )

-- A node whose branches are all open, itself included.
abbrev pub IsOpen : List Text → Text → Node → Type 0
IsOpen open_paths path nd =
    (path ≢ [])
    × (has_children nd ≡ true → set_contains path open_paths ≡ true)
    × ((q : Text)
        → set_contains q (collect_branches nd path) ≡ true
        → set_contains q open_paths ≡ true)

pub child-IsOpen :
    (open_paths : List Text) (path : Text) (nd : Node) (s : Text) (c : Node)
    → IsOpen open_paths path nd
    → ChildOf s c (children nd)
    → IsOpen open_paths (path ++ separator ∷ s) c
unfolding collect_branches
child-IsOpen open_paths path (node cs k kd n) s c h m =
    let below = extend_below path s h.0 in
    (
      append-cons-ne-nil path s separator,
      λ b. rw (← below) (h.2 (extend path s) ((collect-ChildOf s c cs path [] m).0 b)),
      λ q i. h.2 q ((collect-ChildOf s c cs path q m).1 (rw below i)),
    )

pub root-IsOpen :
    (open_paths : List Text) (root : Node)
    → IsCounted root
    → get [] (children root) ≡ none
    → ((q : Text)
        → set_contains q (collect_branches root []) ≡ true
        → set_contains q open_paths ≡ true)
    → (s : Text) (c : Node) → ChildOf s c (children root)
    → IsOpen open_paths (extend [] s) c
unfolding collect_branches
root-IsOpen open_paths (node cs k kd n) v free all s c m = (
  (root-Located (node cs k kd n) v free s c m).0,
  λ b. all (extend [] s) ((collect-ChildOf s c cs [] [] m).0 b),
  λ q i. all q ((collect-ChildOf s c cs [] q m).1 i),
)

-- After `expand_all`, in a valid tree with no key that begins with the separator, every row of a
-- branch is expanded, the rows of folded branches included.
pub rows-expand_all :
    (t : KeyTree)
    → IsValid t
    → get [] (children t.root) ≡ none
    → All (λ (r : Row). r.row_expanded ≡ r.row_is_branch) (rows (expand_all t))
unfolding rows expand_all
rows-expand_all t v free =
    let open_paths = set_extend (collect_branches t.root []) t.expanded in
    walk-All (IsOpen open_paths) (λ (r : Row). r.row_expanded ≡ r.row_is_branch) open_paths
      (λ path nd p. p.0) (child-IsOpen open_paths) (λ depth label path nd p. ground (arith, p.1))
      (height t.root) t.compact t.root [] 0
      (root-IsOpen open_paths t.root v.counted free
        (λ q h. ground (arith, set_contains-extend q (collect_branches t.root []) t.expanded)))
