-- ===== src/Ui/Tree/Shape.antt =====
-- The invariant of the key tree: children in strictly increasing order, no separator in a segment,
-- the cached counts exact, and no node without a key in its subtree.
use keylens.Base.{ℕ, ◌+◌, ◌<◌, Ordering, ◌≡◌, refl, Bool, true, false, Option, none, some, arith}
use keylens.Base.Text.{
  Text, compare_text, compare_text_refl, eq_of_compare_text, lt_of_gt_text, lt_trans_text, text_eq,
  Lacks,
}
use keylens.Ui.Tree.{
  separator, Node, node, Children, nil, cons, subtree_keys, default_node, get, entry,
}

-- Every segment of the map comes after `s`.
abbrev pub Above : Text → Children → Type 0
Above s nil = Unit
Above s (cons t c r) = (compare_text s t ≡ Ordering.lt) × Above s r

abbrev pub IsSorted : Children → Type 0
IsSorted nil = Unit
IsSorted (cons s c r) = Above s r × IsSorted r

abbrev own_key : Bool → ℕ
own_key true = 1
own_key false = 0

-- The keys under a map of children, by the counts of the children.
abbrev pub keys_below : Children → ℕ
keys_below nil = 0
keys_below (cons s c r) = subtree_keys c + keys_below r

unfoldable mutual
  pub IsCounted : Node → Type 0
  IsCounted (node cs k kd n) = (n ≡ own_key k + keys_below cs) × IsSorted cs × AreCounted cs

  pub AreCounted : Children → Type 0
  AreCounted nil = Unit
  AreCounted (cons s c r) = (0 < subtree_keys c) × Lacks separator s × IsCounted c × AreCounted r

-- `get` at another segment, and at a segment before all others.
pub get-Above : (s : Text) (cs : Children) → Above s cs → get s cs ≡ none
unfolding get
get-Above s nil h = refl
get-Above s (cons t c r) h = ground (arith, get-Above s r)

pub Above-trans :
    (s t : Text) (cs : Children) → compare_text s t ≡ Ordering.lt → Above t cs → Above s cs
Above-trans s t nil h a = tt
Above-trans s t (cons u c r) h a = (lt_trans_text s t u h a.0, Above-trans s t r h a.1)

-- `entry` keeps the order.
entry-Above :
    (s t : Text) (f : Node → Node) (cs : Children)
    → compare_text s t ≡ Ordering.lt
    → Above s cs
    → Above s (entry t f cs)
unfolding entry
entry-Above s t f nil h a = (h, tt)
entry-Above s t f (cons u c r) h a = ground (arith, entry-Above s t f r)

pub entry-IsSorted :
    (s : Text) (f : Node → Node) (cs : Children) → IsSorted cs → IsSorted (entry s f cs)
unfolding entry
entry-IsSorted s f nil h = (tt, tt)
entry-IsSorted s f (cons t c r) h = ground (
  arith,
  Above-trans s t r,
  entry-IsSorted s f r,
  entry-Above t s f r,
  lt_of_gt_text s t,
  eq_of_compare_text s t,
)

-- The entry that `entry` writes, and all other entries as they were.
abbrev pub or_default : Option Node → Node
or_default none = default_node
or_default (some c) = c

pub get-entry_self :
    (s : Text) (f : Node → Node) (cs : Children)
    → IsSorted cs
    → get s (entry s f cs) ≡ some (f (or_default (get s cs)))
unfolding get entry
get-entry_self s f nil h = ground (arith, compare_text_refl s)
get-entry_self s f (cons t c r) h =
    ground (arith, compare_text_refl s, get-entry_self s f r, get-Above s r, Above-trans s t r)

pub get-entry_ne :
    (s u : Text) (f : Node → Node) (cs : Children)
    → text_eq u s ≡ false
    → get u (entry s f cs) ≡ get u cs
unfolding get entry
get-entry_ne s u f nil h = ground arith
get-entry_ne s u f (cons t c r) h = ground (arith, get-entry_ne s u f r, eq_of_compare_text s t)
