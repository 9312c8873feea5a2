-- ===== src/Ui/Examples.antt =====
-- The key tree and the formats on concrete keys, texts and numbers.
use keylens.Base.{
  ◌⊎◌, ℕ, ◌≡◌, refl, true, not, List, [], ◌∷◌, Option, none, some, arith, map, All, Any, ◌&&◌,
  if◌then◌else◌, ◌||◌, ◌≤◌, ◌-◌, ◌+◌, ◌^◌,
}
use keylens.Base.Text.{Text, codes, compare_text, text_eq}
use keylens.Base.Split.{split}
use keylens.Base.Int.{pos, negsuc}
use keylens.Conn.Kind.{Kind, string}
use keylens.Ui.Tree.{
  KeyTree, new, insert_with_kind, descend, entry, get, find, find_from, contains, children,
  set_contains, toggle, is_branch, is_expanded, set_insert, len,
}
use keylens.Ui.Tree.Counts.{IsValid, new-IsValid, insert_with_kind-IsValid}
use keylens.Ui.Tree.Lookup.{
  insert_all, scanned, insert_all-IsValid, contains-insert_all, len-insert_all, new_keys,
}
use keylens.Ui.Tree.Expansion.{toggle_lem}
use keylens.Ui.Tree.Rows.{
  Row, rows, walk, height, folded, fold, extend, branches, leaves, emit, expand_all,
  collect_branches, set_extend,
}
use keylens.Ui.Tree.Rows.Sound.{RowFits, rows_sound}
use keylens.Ui.Tree.Rows.Fuel.{walk_fuel}
use keylens.Ui.Tree.Rows.Complete.{ShowsKey, rows-expand_all_complete}
use keylens.Ui.Pane.{PaneState, unavailable}
use keylens.Base.Decimal.{to_string, signed_to_string, digits}
use keylens.Ui.Format.{count, grouped, ttl, ttl_parts, secs, single_line}

abbrev scan : List (Text × Option Kind)
scan =
    (codes "a:b:c", some string)
    ∷ (codes "a:b", none)
    ∷ (codes "x", none)
    ∷ (codes "a:b:c", none)
    ∷ []

abbrev filled : KeyTree
filled = insert_all scan new

filled-IsValid : IsValid filled
filled-IsValid = insert_all-IsValid scan new new-IsValid

no_empty_segment : get [] (children filled.root) ≡ none
unfolding insert_all new insert_with_kind contains find find_from split descend entry get
    compare_text
no_empty_segment = refl

has_key : contains (codes "a:b:c") filled ≡ true
unfolding insert_all new insert_with_kind contains find find_from split descend entry get
    compare_text
has_key = refl

-- Keys that begin with the separator: their rows carry the paths of other keys.
empty_segment_paths :
    map
      (λ (r : Row). r.path)
      (rows (expand_all (insert_all ((codes ":a", none) ∷ (codes ":b", none) ∷ []) new)))
    ≡ [] ∷ codes "a" ∷ codes "b" ∷ []
unfolding insert_all new insert_with_kind contains find find_from split descend entry get
    compare_text rows walk height folded fold extend branches leaves emit expand_all
    collect_branches set_extend set_insert set_contains
empty_segment_paths = refl

contains-insert_all_example :
    contains (codes "x") filled ≡ (scanned (codes "x") scan || contains (codes "x") new)
contains-insert_all_example = contains-insert_all scan new (codes "x") new-IsValid

rows-expand_all_complete_example : Any (ShowsKey (codes "a:b:c")) (rows (expand_all filled))
rows-expand_all_complete_example =
    rows-expand_all_complete (codes "a:b:c") filled filled-IsValid no_empty_segment has_key

rows_sound_example : All (RowFits filled) (rows filled)
rows_sound_example = rows_sound filled filled-IsValid no_empty_segment

insert_with_kind-IsValid_example : IsValid (insert_with_kind (codes "a:d") none filled)
insert_with_kind-IsValid_example = insert_with_kind-IsValid (codes "a:d") none filled filled-IsValid

len-insert_all_example : len filled ≡ len new + new_keys scan (λ other. contains other new)
len-insert_all_example = len-insert_all scan new new-IsValid

root_height : height filled.root ≤ 4
unfolding insert_all new insert_with_kind contains find find_from split descend entry get
    compare_text height
root_height = omega arith

root_height_more : height filled.root ≤ 9
root_height_more = omega (arith, root_height)

walk_fuel_example : walk 4 true [] filled.root [] 0 ≡ walk 9 true [] filled.root [] 0
walk_fuel_example = walk_fuel 4 9 true [] filled.root [] 0 root_height root_height_more

toggle_lem_example :
    let (answer, t) = toggle (codes "a") filled in
    let branch = is_branch (find (codes "a") filled) in
    (answer ≡ (if branch then some (not (is_expanded (codes "a") filled)) else none))
    × (is_expanded (codes "x") t ≡ (
        if branch && text_eq (codes "a") (codes "x")
        then not (is_expanded (codes "x") filled)
        else is_expanded (codes "x") filled))
    × ((branch ≡ true) ⊎ (t ≡ filled))
    × (t ≡ record filled { expanded = t.expanded })
toggle_lem_example = toggle_lem (codes "a") filled (codes "x")

abbrev denied : PaneState ℕ
denied = unavailable (codes "NOPERM")

thousands : count 1048576 ≡ codes "1,048,576"
unfolding count to_string digits grouped
thousands = refl

two_units : ttl (some (pos 90000)) ≡ codes "1m30s"
unfolding ttl ttl_parts to_string digits
two_units = refl

below_zero : ttl (some (negsuc 0)) ≡ codes "-1ms"
unfolding ttl signed_to_string to_string digits
below_zero = refl

saturated : secs (2 ^ 64 - 1) ≡ codes "106751991167d7h"
unfolding secs ttl ttl_parts to_string digits
saturated = refl

one_line : single_line (10 ∷ b'a' ∷ []) ≡ codes " a"
unfolding single_line
one_line = refl
