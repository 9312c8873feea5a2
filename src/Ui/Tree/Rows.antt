-- ===== src/Ui/Tree/Rows.antt =====
-- `rows`, `walk` and `expand_all` of crates/keylens-ui/src/tree.rs. `walk` calls itself on the node
-- that folding has led to, which lies at any depth: it takes fuel, and `rows` gives it the height
-- of the tree. `out.push` is a list of rows returned.
pub mod Walk
pub mod Sound
pub mod Expanded
pub mod Fuel
pub mod Reach
pub mod Complete
use keylens.Base.{
  ℕ, zero, suc, ◌+◌, max, ◌≡◌, refl, Bool, true, false, not, ◌&&◌, List, [], ◌∷◌, ◌++◌, Option,
  none, some, if◌then◌else◌,
}
use keylens.Base.Text.{Text, is_empty}
use keylens.Conn.Kind.{Kind}
use keylens.Ui.Tree.{
  separator, Node, node, Children, nil, cons, children, is_key, kind, subtree_keys, has_children,
  KeyTree, set_contains, set_insert,
}

-- `struct Row`
pub record Row : Type 0 where
  pub depth : ℕ
  pub label : Text
  pub path : Text
  pub row_is_key : Bool
  pub row_is_branch : Bool
  pub row_expanded : Bool
  pub row_subtree_keys : ℕ
  pub row_kind : Option Kind

-- The path of a child: the segment itself below an empty prefix.
unfoldable pub extend : Text → Text → Text
extend prefix segment = if is_empty prefix then segment else prefix ++ separator ∷ segment

-- `single_child`
abbrev single_child : Node → Option (Text × Node)
single_child (node (cons s c nil) k kd n) = some (s, c)
single_child (node _ k kd n) = none

-- The `while` loop of `walk`: its condition is `!target.is_key` with a `single_child`.
unfoldable pub fold : Text → Text → Node → Text × Text × Node
fold label path (node (cons s c nil) false kd n) =
    fold (label ++ separator ∷ s) (path ++ separator ∷ s) c
fold label path target = (label, path, target)

-- The first `for` loop of `walk`.
unfoldable pub folded : Bool → Text → Children → List (Text × Text × Node)
folded compact prefix nil = []
folded compact prefix (cons segment child r) =
    (if compact
      then fold segment (extend prefix segment) child
      else (segment, extend prefix segment, child))
    ∷ folded compact prefix r

-- The two halves of `partition(|(_, _, n)| !n.children.is_empty())`.
unfoldable pub branches : List (Text × Text × Node) → List (Text × Text × Node)
branches [] = []
branches ((label, path, n) ∷ r) =
    if has_children n then (label, path, n) ∷ branches r else branches r

unfoldable pub leaves : List (Text × Text × Node) → List (Text × Text × Node)
leaves [] = []
leaves ((label, path, n) ∷ r) = if has_children n then leaves r else (label, path, n) ∷ leaves r

abbrev make_row : List Text → ℕ → Text → Text → Node → Row
make_row open_paths depth label path target = record {
  depth = depth;
  label = label;
  path = path;
  row_is_key = is_key target;
  row_is_branch = has_children target;
  row_expanded = has_children target && set_contains path open_paths;
  row_subtree_keys = subtree_keys target;
  row_kind = kind target;
}

-- The second `for` loop of `walk`; `below` is the recursive call.
unfoldable pub emit :
    List Text → (Node → Text → ℕ → List Row) → ℕ → List (Text × Text × Node) → List Row
emit open_paths below depth [] = []
emit open_paths below depth ((label, path, target) ∷ r) =
    make_row open_paths depth label path target
      ∷ (if has_children target && set_contains path open_paths
          then below target path (depth + 1)
          else [])
    ++ emit open_paths below depth r

unfoldable pub walk : ℕ → Bool → List Text → Node → Text → ℕ → List Row
unfolding folded branches leaves emit
walk zero compact open_paths nd prefix depth = []
walk (suc fuel) compact open_paths nd prefix depth =
    let entries = folded compact prefix (children nd) in
    emit open_paths (walk fuel compact open_paths) depth (branches entries ++ leaves entries)

unfoldable mutual
  pub height : Node → ℕ
  height (node cs k kd n) = suc (height_below cs)

  height_below : Children → ℕ
  height_below nil = 0
  height_below (cons s c r) = max (height c) (height_below r)

unfoldable pub rows : KeyTree → List Row
unfolding walk height
rows t = walk (height t.root) t.compact t.expanded t.root [] 0

unfoldable mutual
  -- `collect_branches`: a node's own children, then theirs.
  pub collect_branches : Node → Text → List Text
  collect_branches (node cs k kd n) prefix = collect cs prefix

  collect : Children → Text → List Text
  collect nil prefix = []
  collect (cons segment child r) prefix =
      let path = extend prefix segment in
      let inner = collect_branches child path in
      let rest = collect r prefix in if has_children child then path ∷ inner ++ rest else rest

-- `HashSet::extend`
unfoldable pub set_extend : List Text → List Text → List Text
unfolding set_insert
set_extend [] s = s
set_extend (p ∷ ps) s = set_extend ps (set_insert p s)

unfoldable pub expand_all : KeyTree → KeyTree
unfolding collect_branches set_extend
expand_all t = record t { expanded = set_extend (collect_branches t.root []) t.expanded }
