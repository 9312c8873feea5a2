-- ===== src/Ui/Tree.antt =====
-- crates/keylens-ui/src/tree.rs: the key tree. Keys go in, rows come out. `&mut self` is a tree
-- passed in and returned; `usize` counts are unbounded numbers, since they count stored keys.
pub mod Shape
pub mod Counts
pub mod Lookup
pub mod Expansion
pub mod Rows
use keylens.Base.{
  ℕ, zero, suc, ◌+◌, compare, Ordering, ◌≡◌, refl, Bool, true, false, not, List, [], ◌∷◌, ◌++◌,
  Option, none, some, ◌==◌, if◌then◌else◌, is_some, ◌>>=◌,
}
use keylens.Base.Text.{Text, compare_text, text_eq, is_empty}
use keylens.Base.Split.{split}
use keylens.Conn.Kind.{Kind}

abbrev pub separator : ℕ
separator = b':'

-- `struct Node`. The map of children is the list of its entries, kept in the order of the keys.
mutual
  pub data Node : Type 0 where
    node : Children → Bool → Option Kind → ℕ → Node

  pub data Children : Type 0 where
    nil : Children
    cons : Text → Node → Children → Children

abbrev pub children : Node → Children
children (node cs k kd n) = cs

abbrev is_key : Node → Bool
is_key (node cs k kd n) = k

abbrev pub kind : Node → Option Kind
kind (node cs k kd n) = kd

abbrev subtree_keys : Node → ℕ
subtree_keys (node cs k kd n) = n

-- `Node::default()`
abbrev default_node : Node
default_node = node nil false none 0

abbrev has_children : Node → Bool
has_children (node nil k kd n) = false
has_children (node (cons s c r) k kd n) = true

-- `children.get(segment)`
unfoldable pub get : Text → Children → Option Node
get s nil = none
get s (cons t c r) = if text_eq s t then some c else get s r

-- `children.entry(segment).or_default()`, and what is then done to the entry.
unfoldable pub entry : Text → (Node → Node) → Children → Children
entry s f nil = cons s (f default_node) nil
entry s f (cons t c r) = elim (compare_text s t) [
  | Ordering.lt ↦ cons s (f default_node) (cons t c r)
  | Ordering.eq ↦ cons t (f c) r
  | Ordering.gt ↦ cons t c (entry s f r)
]

-- `node.subtree_keys += 1`
abbrev count_key : Node → Node
count_key (node cs k kd n) = node cs k kd (n + 1)

-- The `for` loop of `insert_with_kind`, and the two writes after it. The loop's variable is the
-- node that the path has led to, here the argument.
unfoldable pub descend : List Text → Option Kind → Node → Node
descend [] kd (node cs k kd' n) = node cs true kd n
descend (s ∷ ss) kd (node cs k kd' n) = node (entry s (λ c. descend ss kd (count_key c)) cs) k kd' n

-- The loop of `find`.
unfoldable pub find_from : List Text → Node → Option Node
find_from [] nd = some nd
find_from (s ∷ ss) (node cs k kd n) = do c ← get s cs; find_from ss c

-- `struct KeyTree`. The set of expanded paths is the list of its members.
pub record KeyTree : Type 0 where
  pub root : Node
  pub expanded : List Text
  pub total : ℕ
  pub compact : Bool

-- `HashSet::contains`, `insert` and `remove`.
unfoldable pub set_contains : Text → List Text → Bool
set_contains p [] = false
set_contains p (q ∷ qs) = if text_eq p q then true else set_contains p qs

unfoldable pub set_insert : Text → List Text → List Text
unfolding set_contains
set_insert p qs = if set_contains p qs then qs else p ∷ qs

unfoldable pub set_remove : Text → List Text → List Text
set_remove p [] = []
set_remove p (q ∷ qs) = let rest = set_remove p qs in if text_eq p q then rest else q ∷ rest

-- `KeyTree::new`
unfoldable pub new : KeyTree
new = record { root = default_node; expanded = []; total = 0; compact = true }

unfoldable set_compact : Bool → KeyTree → KeyTree
set_compact b t = record t { compact = b }

unfoldable pub len : KeyTree → ℕ
len t = t.total

unfoldable tree_is_empty : KeyTree → Bool
tree_is_empty t = t.total == 0

unfoldable pub clear_keys : KeyTree → KeyTree
clear_keys t = record t { root = default_node; total = 0 }

unfoldable pub reset : KeyTree → KeyTree
unfolding clear_keys
reset t = record (clear_keys t) { expanded = [] }

unfoldable pub find : Text → KeyTree → Option Node
find path t = find_from (split separator path) t.root

abbrev holds_key : Option Node → Bool
holds_key none = false
holds_key (some nd) = is_key nd

-- `self.find(key).is_some_and(|n| n.is_key)`
unfoldable pub contains : Text → KeyTree → Bool
contains key t = holds_key (find key t)

unfoldable pub insert_with_kind : Text → Option Kind → KeyTree → KeyTree
insert_with_kind key kd t = if is_empty key then t else if contains key t then t else record t {
  root = descend (split separator key) kd (count_key t.root);
  total = t.total + 1;
}

unfoldable insert : Text → KeyTree → KeyTree
insert key t = insert_with_kind key none t

unfoldable pub is_expanded : Text → KeyTree → Bool
is_expanded path t = set_contains path t.expanded

abbrev pub is_branch : Option Node → Bool
is_branch none = false
is_branch (some nd) = has_children nd

unfoldable pub toggle : Text → KeyTree → Option Bool × KeyTree
toggle path t =
    if not (is_branch (find path t))
    then (none, t)
    else if set_contains path t.expanded
    then (some false, record t { expanded = set_remove path t.expanded })
    else (some true, record t { expanded = set_insert path t.expanded })

unfoldable pub collapse_all : KeyTree → KeyTree
collapse_all t = record t { expanded = [] }
