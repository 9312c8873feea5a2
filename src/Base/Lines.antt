-- ===== src/Base/Lines.antt =====
-- `trim`, `lines`, `split_whitespace` and the case of ASCII letters, of Rust's `str`.
use keylens.Base.{
  ℕ, ◌+◌, ◌-◌, Bool, true, false, ◌&&◌, ◌||◌, List, [], ◌∷◌, leb, ◌==◌, if◌then◌else◌, map,
}
use keylens.Base.Text.{Text}

-- `char::is_whitespace`: the code points with the property White_Space.
unfoldable pub is_whitespace : ℕ → Bool
is_whitespace c =
    (leb 9 c && leb c 13)
    || c == 32
    || c == 133
    || c == 160
    || c == 5760
    || (leb 8192 c && leb c 8202)
    || c == 8232
    || c == 8233
    || c == 8239
    || c == 8287
    || c == 12288

unfoldable pub trim_start : Text → Text
unfolding is_whitespace
trim_start [] = []
trim_start (c ∷ s) = let rest = trim_start s in if is_whitespace c then rest else c ∷ s

abbrev keep_unless_blank : Bool → ℕ → Text → Text
keep_unless_blank true c [] = []
keep_unless_blank blank c s = c ∷ s

unfoldable pub trim_end : Text → Text
unfolding is_whitespace
trim_end [] = []
trim_end (c ∷ s) = keep_unless_blank (is_whitespace c) c (trim_end s)

-- `str::trim`
unfoldable pub trim : Text → Text
unfolding trim_start trim_end
trim s = trim_end (trim_start s)

abbrev pub push_char : ℕ → List Text → List Text
push_char c [] = (c ∷ []) ∷ []
push_char c (l ∷ ls) = (c ∷ l) ∷ ls

abbrev starts_line : Text → Bool
starts_line [] = false
starts_line (c ∷ s) = c == 10

-- `str::lines`: `\n` and `\r\n` end a line, and the last line needs no end.
unfoldable pub lines : Text → List Text
lines [] = []
lines (c ∷ s) =
    let rest = lines s in
    if c == 10 then [] ∷ rest else if c == 13 && starts_line s then rest else push_char c rest

-- `char::is_ascii_whitespace`
abbrev is_ascii_whitespace : ℕ → Bool
is_ascii_whitespace c = c == 32 || c == 9 || c == 10 || c == 12 || c == 13

abbrev word_start : Bool → ℕ → List Text → List Text
word_start true c ws = (c ∷ []) ∷ ws
word_start false c ws = push_char c ws

abbrev blank_next : Text → Bool
blank_next [] = true
blank_next (c ∷ s) = is_ascii_whitespace c

-- `str::split_ascii_whitespace`: the pieces between whitespace that are not empty.
unfoldable pub split_ascii_whitespace : Text → List Text
split_ascii_whitespace [] = []
split_ascii_whitespace (c ∷ s) =
    let rest = split_ascii_whitespace s in
    if is_ascii_whitespace c then rest else word_start (blank_next s) c rest

abbrev lower_char : ℕ → ℕ
lower_char c = if leb b'A' c && leb c b'Z' then c + 32 else c

abbrev upper_char : ℕ → ℕ
upper_char c = if leb b'a' c && leb c b'z' then c - 32 else c

-- `to_ascii_lowercase` and `to_ascii_uppercase`
unfoldable pub to_lowercase : Text → Text
to_lowercase s = map lower_char s

unfoldable pub to_uppercase : Text → Text
to_uppercase s = map upper_char s
