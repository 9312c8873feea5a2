-- ===== src/Conn/Info/Fields.antt =====
-- When an `INFO` has a field.
use keylens.Base.{
  ◌≡◌, refl, Bool, false, not, ◌&&◌, ◌||◌, List, [], ◌∷◌, Option, none, some, arith, is_some, ◌==◌,
  if◌then◌else◌,
}
use keylens.Base.Text.{Text, is_empty}
use keylens.Base.Lines.{lines, trim}
use keylens.Base.Find.{split_once_char}
use keylens.Conn.Info.{Fields, insert_field, add_split, is_comment, add_line, add_lines, parse_info}

-- A line that gives a field: no comment, and with a colon in it.
abbrev has_colon : Text → Bool
has_colon [] = false
has_colon (c ∷ s) = c == b':' || has_colon s

abbrev begins_comment : Text → Bool
begins_comment [] = false
begins_comment (c ∷ s) = c == b'#'

abbrev pub gives_field : Text → Bool
unfolding trim
gives_field line = not (begins_comment (trim line)) && has_colon (trim line)

abbrev pub any_field : List Text → Bool
unfolding trim
any_field [] = false
any_field (l ∷ ls) = gives_field l || any_field ls

empty-insert_field : (k v : Text) (fs : Fields) → is_empty (insert_field k v fs) ≡ false
unfolding insert_field
empty-insert_field k v [] = refl
empty-insert_field k v ((l, w) ∷ r) = ground arith

some-split_once_char : (s : Text) → is_some (split_once_char b':' s) ≡ has_colon s
unfolding split_once_char
some-split_once_char [] = refl
some-split_once_char (c ∷ s) = ground (arith, some-split_once_char s)

empty-add_split :
    (o : Option (Text × Text)) (fs : Fields)
    → is_empty (add_split o fs) ≡ (is_empty fs && not (is_some o))
unfolding add_split
empty-add_split none fs = ground arith
empty-add_split (some (k, v)) fs = ground (arith, empty-insert_field k v fs)

empty-trimmed :
    (l : Text) (fs : Fields)
    → is_empty (if is_empty l || is_comment l then fs else add_split (split_once_char b':' l) fs)
      ≡ (is_empty fs && not (not (begins_comment l) && has_colon l))
empty-trimmed [] fs = ground arith
empty-trimmed (c ∷ s) fs =
    ground (arith, empty-add_split (split_once_char b':' (c ∷ s)) fs, some-split_once_char (c ∷ s))

empty-add_line :
    (line : Text) (fs : Fields)
    → is_empty (add_line line fs) ≡ (is_empty fs && not (gives_field line))
unfolding add_line
empty-add_line line fs = empty-trimmed (trim line) fs

empty-add_lines :
    (ls : List Text) (fs : Fields)
    → is_empty (add_lines ls fs) ≡ (is_empty fs && not (any_field ls))
unfolding add_lines
empty-add_lines [] fs = ground arith
empty-add_lines (l ∷ ls) fs =
    ground (arith, empty-add_lines ls (add_line l fs), empty-add_line l fs)

pub empty-parse_info :
    (raw : Text) → is_empty (parse_info raw).info_fields ≡ not (any_field (lines raw))
unfolding parse_info
empty-parse_info raw = empty-add_lines (lines raw) []
