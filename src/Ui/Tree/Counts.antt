-- ===== src/Ui/Tree/Counts.antt =====
-- `insert_with_kind` keeps the invariant of the key tree, and what it does to the counts.
use keylens.Base.{
  ℕ, ◌+◌, ◌≡◌, refl, Bool, false, List, [], ◌∷◌, Option, arith, All, inl, inr, Bool-cases, sym, ◌∙◌,
  ◌≢◌, if◌then◌else◌, ◌||◌,
}
use keylens.Base.Text.{Text, eq_of_compare_text, Lacks, is_empty}
use keylens.Base.Split.{split, split-Lacks, split-ne-nil}
use keylens.Conn.Kind.{Kind}
use keylens.Ui.Tree.{
  separator, Node, node, Children, nil, cons, is_key, subtree_keys, default_node, get, entry,
  count_key, descend, find_from, holds_key, KeyTree, new, len, contains, find, insert_with_kind,
}
use keylens.Ui.Tree.Shape.{
  IsSorted, keys_below, IsCounted, AreCounted, entry-IsSorted, or_default, get-Above, Above-trans,
}

entry-AreCounted :
    (s : Text) (f : Node → Node) (cs : Children)
    → IsSorted cs
    → Lacks separator s
    → AreCounted cs
    → IsCounted (f (or_default (get s cs)))
    → subtree_keys (f (or_default (get s cs))) ≡ subtree_keys (or_default (get s cs)) + 1
    → AreCounted (entry s f cs) × (keys_below (entry s f cs) ≡ keys_below cs + 1)
unfolding entry get IsCounted
entry-AreCounted s f nil o l a hc hn = ground arith
entry-AreCounted s f (cons t c r) o l a hc hn =
    ground (arith, entry-AreCounted s f r, get-Above s r, Above-trans s t r, eq_of_compare_text s t)

pub get-IsCounted : (s : Text) (cs : Children) → AreCounted cs → IsCounted (or_default (get s cs))
unfolding get IsCounted
get-IsCounted s nil a = ground arith
get-IsCounted s (cons t c r) a = ground (arith, get-IsCounted s r)

subtree_keys-descend :
    (ss : List Text) (kd : Option Kind) (nd : Node)
    → subtree_keys (descend ss kd nd) ≡ subtree_keys nd
unfolding descend
subtree_keys-descend [] kd (node cs k kd' n) = refl
subtree_keys-descend (s ∷ ss) kd (node cs k kd' n) = refl

-- Below a default node there is no key.
find_from-default : (ss : List Text) → holds_key (find_from ss default_node) ≡ false
unfolding find_from get
find_from-default [] = refl
find_from-default (s ∷ ss) = refl

pub find_from-or_default :
    (s : Text) (ss : List Text) (cs : Children) (k : Bool) (kd : Option Kind) (n : ℕ)
    → holds_key (find_from (s ∷ ss) (node cs k kd n))
      ≡ holds_key (find_from ss (or_default (get s cs)))
unfolding find_from
find_from-or_default s ss cs k kd n = ground (arith, find_from-default ss)

count_key_one : (nd : Node) → subtree_keys (count_key nd) ≡ subtree_keys nd + 1
count_key_one (node cs k kd n) = refl

descend-IsCounted :
    (ss : List Text) (kd : Option Kind) (nd : Node)
    → All (Lacks separator) ss
    → IsCounted nd
    → holds_key (find_from ss nd) ≡ false
    → IsCounted (descend ss kd (count_key nd))
unfolding descend IsCounted
descend-IsCounted [] kd (node cs k kd' n) l h f = unfold find_from in ground arith
descend-IsCounted (s ∷ ss) kd (node cs k kd' n) l h f =
    let d : Node = or_default (get s cs) in
    let free = sym (find_from-or_default s ss cs k kd' n) ∙ f in
    let sub = descend-IsCounted ss kd d l.1 (get-IsCounted s cs h.2) free in
    let below =
      entry-AreCounted s (λ c. descend ss kd (count_key c)) cs h.1 l.0 h.2 sub
        (subtree_keys-descend ss kd (count_key d) ∙ count_key_one d) in
    (omega (arith, h.0, below.1), entry-IsSorted s _ cs h.1, below.0)

-- The invariant of the whole tree: the root is no key, and `total` is the count at the root.
pub record IsValid (t : KeyTree) : Type 0 where
  pub counted : IsCounted t.root
  pub root_plain : is_key t.root ≡ false
  pub totalled : t.total ≡ subtree_keys t.root

pub new-IsValid : IsValid new
unfolding new IsCounted
new-IsValid = record { counted = (refl, tt, tt); root_plain = refl; totalled = refl }

is_key-descend :
    (ss : List Text) (kd : Option Kind) (nd : Node)
    → ss ≢ []
    → is_key (descend ss kd nd) ≡ is_key nd
unfolding descend
is_key-descend [] kd nd h = absurd (h refl)
is_key-descend (s ∷ ss) kd (node cs k kd' n) h = refl

is_key-count_key : (nd : Node) → is_key (count_key nd) ≡ is_key nd
is_key-count_key (node cs k kd n) = refl

-- Inserting a key keeps the invariant, whether the key is new, known or empty.
pub insert_with_kind-IsValid :
    (key : Text) (kd : Option Kind) (t : KeyTree) → IsValid t → IsValid (insert_with_kind key kd t)
unfolding insert_with_kind
insert_with_kind-IsValid [] kd t v = v
insert_with_kind-IsValid (c ∷ cs) kd t v = elim (Bool-cases (contains (c ∷ cs) t)) [
  | inl old ↦ rw old v
  | inr fresh ↦
      let ss : List Text = split separator (c ∷ cs) in
      let grown = count_key t.root in
      rw fresh (record {
        counted =
            descend-IsCounted ss kd t.root (split-Lacks separator (c ∷ cs)) v.counted
              (unfold contains find in fresh);
        root_plain =
            is_key-descend ss kd grown (split-ne-nil separator (c ∷ cs))
            ∙ is_key-count_key t.root
            ∙ v.root_plain;
        totalled =
            omega (arith, subtree_keys-descend ss kd grown, count_key_one t.root, v.totalled);
      })
]

-- The total grows by one exactly when the key is not empty and not yet in the tree.
pub len-insert_with_kind :
    (key : Text) (kd : Option Kind) (t : KeyTree)
    → len (insert_with_kind key kd t)
      ≡ (if is_empty key || contains key t then len t else len t + 1)
unfolding insert_with_kind len
len-insert_with_kind key kd t = ground arith
