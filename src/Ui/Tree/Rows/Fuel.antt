-- ===== src/Ui/Tree/Rows/Fuel.antt =====
-- The fuel of `walk` is enough: with the height of the node or more, the rows do not depend on it.
use keylens.Base.{
  ℕ, zero, suc, ◌+◌, ◌≤◌, ◌≡◌, refl, Bool, true, false, List, [], ◌∷◌, ◌++◌, arith, All, All-append,
}
use keylens.Base.Text.{Text}
use keylens.Ui.Tree.{separator, Node, node, Children, nil, cons}
use keylens.Ui.Tree.Rows.{
  Row, extend, fold, folded, branches, leaves, emit, walk, height, height_below,
}
use keylens.Ui.Tree.Rows.Walk.{Entry, All-branches, All-leaves}

pub height-fold : (label path : Text) (nd : Node) → height (fold label path nd).2 ≤ height nd
unfolding fold height
height-fold label path (node (cons s c nil) false kd n) =
    omega (arith, height-fold (label ++ separator ∷ s) (path ++ separator ∷ s) c)
height-fold label path nd = omega arith

height-folded :
    (compact : Bool) (prefix : Text) (cs : Children) (h : ℕ)
    → height_below cs ≤ h
    → All (λ (e : Entry). height e.2 ≤ h) (folded compact prefix cs)
unfolding folded height
height-folded compact prefix nil h l = tt
height-folded true prefix (cons s c r) h l =
    (omega (arith, height-fold s (extend prefix s) c), height-folded true prefix r h (omega arith))
height-folded false prefix (cons s c r) h l =
    (omega arith, height-folded false prefix r h (omega arith))

-- `emit` reads its recursive call only at the nodes of its entries.
emit_agree :
    (open_paths : List Text) (below below' : Node → Text → ℕ → List Row) (depth h : ℕ)
    (es : List Entry)
    → ((nd : Node) (path : Text) (d : ℕ) → height nd ≤ h → below nd path d ≡ below' nd path d)
    → All (λ (e : Entry). height e.2 ≤ h) es
    → emit open_paths below depth es ≡ emit open_paths below' depth es
unfolding emit
emit_agree open_paths below below' depth h [] same l = refl
emit_agree open_paths below below' depth h ((label, path, nd) ∷ r) same l =
    ground
      (arith, same nd path (depth + 1) l.0, emit_agree open_paths below below' depth h r same l.1)

-- Fuel of the height of the node, or more, gives the same rows: the fuel never runs out.
pub walk_fuel :
    (f g : ℕ) (compact : Bool) (open_paths : List Text) (nd : Node) (prefix : Text) (depth : ℕ)
    → height nd ≤ f
    → height nd ≤ g
    → walk f compact open_paths nd prefix depth ≡ walk g compact open_paths nd prefix depth
unfolding walk height
walk_fuel zero g compact open_paths (node cs k kd n) prefix depth l m = absurd (omega arith)
walk_fuel (suc f) zero compact open_paths (node cs k kd n) prefix depth l m = absurd (omega arith)
walk_fuel (suc f) (suc g) compact open_paths (node cs k kd n) prefix depth l m =
    let es = folded compact prefix cs in
    let hs = height-folded compact prefix cs (height_below cs) (omega arith) in
    emit_agree open_paths (walk f compact open_paths) (walk g compact open_paths) depth
      (height_below cs) (branches es ++ leaves es)
      (λ c path d h. walk_fuel f g compact open_paths c path d (omega arith) (omega arith))
      (All-append _ (branches es) (leaves es) (All-branches _ es hs) (All-leaves _ es hs))
