-- ===== src/Ui/Tree/Expansion.antt =====
-- The set of expanded paths: what `toggle` does to it, and that a rescan keeps it.
use keylens.Base.{
  ◌≡◌, refl, true, false, not, ◌&&◌, List, [], ◌∷◌, Option, none, some, arith, if◌then◌else◌, ◌∙◌,
  ◌⊎◌,
}
use keylens.Base.Text.{Text, text_eq, text_eq_iff}
use keylens.Conn.Kind.{Kind}
use keylens.Ui.Tree.{
  KeyTree, find, is_branch, is_expanded, toggle, clear_keys, insert_with_kind, set_contains,
  set_insert, set_remove,
}
use keylens.Ui.Tree.Lookup.{insert_all}

set_contains-insert :
    (p q : Text) (s : List Text)
    → set_contains q (set_insert p s) ≡ (if text_eq p q then true else set_contains q s)
unfolding set_insert
set_contains-insert p q s = ground (arith, text_eq_iff p q, text_eq_iff q p)

set_contains-remove :
    (p q : Text) (s : List Text)
    → set_contains q (set_remove p s) ≡ (if text_eq p q then false else set_contains q s)
unfolding set_remove set_contains
set_contains-remove p q [] = ground arith
set_contains-remove p q (r ∷ s) =
    ground (arith, set_contains-remove p q s, text_eq_iff p q, text_eq_iff q r, text_eq_iff p r)

-- `toggle` answers with the new state of a branch and flips the expansion of that path alone; at a
-- path that is no branch it answers `none` and leaves the whole tree as it was. At either, nothing but
-- the set of expanded paths changes.
pub toggle_lem :
    (path : Text) (t : KeyTree) (other : Text)
    → let (answer, t') = toggle path t in
      let branch = is_branch (find path t) in
      (answer ≡ (if branch then some (not (is_expanded path t)) else none))
      × (is_expanded other t' ≡ (
          if branch && text_eq path other then not (is_expanded other t) else is_expanded other t))
      × ((branch ≡ true) ⊎ (t' ≡ t))
      × (t' ≡ record t { expanded = t'.expanded })
unfolding toggle is_expanded
toggle_lem path t other = ground (
  arith,
  set_contains-insert path other t.expanded,
  set_contains-remove path other t.expanded,
  text_eq_iff path other,
)

is_expanded-insert :
    (key : Text) (kd : Option Kind) (t : KeyTree) (p : Text)
    → is_expanded p (insert_with_kind key kd t) ≡ is_expanded p t
unfolding insert_with_kind is_expanded
is_expanded-insert key kd t p = ground arith

is_expanded-insert_all :
    (keys : List (Text × Option Kind)) (t : KeyTree) (p : Text)
    → is_expanded p (insert_all keys t) ≡ is_expanded p t
unfolding insert_all
is_expanded-insert_all [] t p = refl
is_expanded-insert_all ((key, kd) ∷ keys) t p = ground (
  arith,
  is_expanded-insert_all keys (insert_with_kind key kd t) p,
  is_expanded-insert key kd t p,
)

-- A rescan, which drops the keys and inserts others, leaves every path as expanded as it was.
pub is_expanded_rescan :
    (keys : List (Text × Option Kind)) (t : KeyTree) (p : Text)
    → is_expanded p (insert_all keys (clear_keys t)) ≡ is_expanded p t
is_expanded_rescan keys t p =
    is_expanded-insert_all keys (clear_keys t) p ∙ unfold is_expanded clear_keys in refl
