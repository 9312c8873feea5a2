-- ===== src/Ui/Tree/Rows/Reach.antt =====
-- Where folding leads from a node, and where the entry of a child stands among the rows.
use keylens.Base.{
  ℕ, ◌≡◌, refl, sym, ap, ◌∙◌, Bool, true, false, List, [], ◌∷◌, ◌++◌, append_assoc, Option, some,
  arith, if◌then◌else◌, Any, Any-append_left, Any-append_right, Bool-cases, inl, inr, ◌⊎◌,
}
use keylens.Base.Text.{Text, text_eq_iff}
use keylens.Base.Split.{join}
use keylens.Conn.Kind.{Kind}
use keylens.Ui.Tree.{
  separator, Node, node, Children, nil, cons, is_key, has_children, get, find_from,
}
use keylens.Ui.Tree.Rows.{extend, fold, folded, branches, leaves}
use keylens.Ui.Tree.Rows.Walk.{ChildOf, here, there, Entry}

-- The path that further segments lead to.
abbrev pub trail : Text → List Text → Text
trail path [] = path
trail path (s ∷ ss) = trail (path ++ separator ∷ s) ss

pub trail-join : (path : Text) (ss : List Text) → trail path ss ≡ join separator (path ∷ ss)
unfolding join
trail-join path [] = refl
trail-join path (s ∷ []) = refl
trail-join path (s ∷ u ∷ ss) =
    trail-join (path ++ separator ∷ s) (u ∷ ss)
    ∙ append_assoc path (separator ∷ s) (separator ∷ join separator (u ∷ ss))

find_one :
    (u : Text) (us : List Text) (s : Text) (c : Node) (k : Bool) (kd : Option Kind) (n : ℕ)
    (target : Node)
    → find_from (u ∷ us) (node (cons s c nil) k kd n) ≡ some target
    → (u ≡ s) × (find_from us c ≡ some target)
unfolding find_from get
find_one u us s c k kd n target h = ground (arith, text_eq_iff u s)

plain_target :
    (c : Node) (s : Text) (kd : Option Kind) (n : ℕ) (target : Node)
    → find_from [] (node (cons s c nil) false kd n) ≡ some target
    → is_key target ≡ true
    → ⊥
unfolding find_from
plain_target c s kd n target h k = ground arith

-- Folding goes no further than the node of a key.
pub fold-reach :
    (label path : Text) (nd : Node) (ss : List Text) (target : Node)
    → find_from ss nd ≡ some target
    → is_key target ≡ true
    → (rest : List Text) × (find_from rest (fold label path nd).2 ≡ some target)
      × (trail (fold label path nd).1 rest ≡ trail path ss)
unfolding fold
fold-reach label path (node (cons s c nil) false kd n) [] target h k =
    absurd (plain_target c s kd n target h k)
fold-reach label path (node (cons s c nil) false kd n) (u ∷ us) target h k =
    let (same, below) = find_one u us s c false kd n target h in
    let (rest, reached, spelt) =
      fold-reach (label ++ separator ∷ s) (path ++ separator ∷ s) c us target below k in
    (rest, reached, spelt ∙ ap (λ w. trail (path ++ separator ∷ w) us) (sym same))
fold-reach label path nd ss target h k = (ss, h, refl)

-- An entry of either half of the partition is an entry of the row order.
Any-halves :
    (P : Entry → Type 0) (es : List Entry) → Any P es → Any P (branches es) ⊎ Any P (leaves es)
unfolding branches leaves
Any-halves P [] h = elim h [ ]
Any-halves P ((label, path, n) ∷ r) (inl p) = elim (Bool-cases (has_children n)) [
  | inl e ↦ inl (rw e (inl p))
  | inr e ↦ inr (rw e (inl p))
]
Any-halves P ((label, path, n) ∷ r) (inr h) = elim (Any-halves P r h) [
  | inl b ↦ inl (elim (Bool-cases (has_children n)) [ inl e ↦ rw e (inr b) | inr e ↦ rw e b ])
  | inr l ↦ inr (elim (Bool-cases (has_children n)) [ inl e ↦ rw e l | inr e ↦ rw e (inr l) ])
]

pub Any-partition :
    (P : Entry → Type 0) (es : List Entry) → Any P es → Any P (branches es ++ leaves es)
Any-partition P es h = elim (Any-halves P es h) [
  | inl b ↦ Any-append_left P (branches es) (leaves es) b
  | inr l ↦ Any-append_right P (branches es) (leaves es) l
]

pub ap_key : (nd target : Node) → some nd ≡ some target → is_key nd ≡ is_key target
ap_key nd target h = cc

-- The entry of a child.
abbrev pub entry_of : Bool → Text → Text → Node → Entry
entry_of compact prefix s c =
    if compact then fold s (extend prefix s) c else (s, extend prefix s, c)

pub Any-folded :
    (P : Entry → Type 0) (compact : Bool) (prefix : Text) (s : Text) (c : Node) (cs : Children)
    → ChildOf s c cs
    → P (entry_of compact prefix s c)
    → Any P (folded compact prefix cs)
unfolding folded
Any-folded P compact prefix s c nil m p = elim m [ ]
Any-folded P compact prefix s c (cons t d r) here p = inl p
Any-folded P compact prefix s c (cons t d r) (there m) p =
    inr (Any-folded P compact prefix s c r m p)
