-- ===== src/Conn/Url.antt =====
-- crates/keylens-conn/src/url.rs: connection URLs with the password masked.
pub mod Redaction
use keylens.Base.{
  ℕ, Bool, ◌||◌, List, [], ◌∷◌, ◌++◌, Option, none, some, if◌then◌else◌, take, drop, ◌>>=◌,
}
use keylens.Base.Text.{Text, codes}
use keylens.Base.Find.{strip_prefix, split_once, split_once_char, rfind, contains_char}

abbrev pub scheme_mark : Text
scheme_mark = codes "://"

-- `username.contains(['/', '?', '#'])`
unfoldable pub has_delimiter : Text → Bool
unfolding contains_char
has_delimiter s = contains_char b'/' s || contains_char b'?' s || contains_char b'#' s

-- `redact_authority`
unfoldable pub redact_authority : Text → Option Text
redact_authority remainder = do
  at ← rfind b'@' remainder
  let credentials = take at remainder
  let rest = drop at remainder
  host ← strip_prefix (codes "@") rest
  (username, password) ← split_once_char b':' credentials
  if has_delimiter username
      then some (codes "***@" ++ host)
      else some (username ++ (codes ":***@" ++ host))

abbrev or_unchanged : Option Text → Text → Text
or_unchanged (some masked) url = masked
or_unchanged none url = url

abbrev with_scheme : Text → Option Text → Option Text
with_scheme scheme none = none
with_scheme scheme (some masked) = some (scheme ++ (scheme_mark ++ masked))

-- The `match` of `redact_url`, on what `split_once("://")` gives.
abbrev redact_split : Text → Option (Text × Text) → Text
redact_split url (some (scheme, remainder)) =
    or_unchanged (with_scheme scheme (redact_authority remainder)) url
redact_split url none = or_unchanged (redact_authority url) url

-- `redact_url`
unfoldable pub redact_url : Text → Text
redact_url url = redact_split url (split_once scheme_mark url)
