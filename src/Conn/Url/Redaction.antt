-- ===== src/Conn/Url/Redaction.antt =====
-- What `redact_url` hides, and what it leaves as it is.
use keylens.Base.{
  ◌≡◌, refl, Bool, true, false, [], ◌∷◌, ◌++◌, append_assoc, none, some, arith, if◌then◌else◌,
  Bool-cases, Option-cases, inl, inr, subst, All-right,
}
use keylens.Base.Text.{Text, codes, Lacks}
use keylens.Base.Find.{
  split_once, rfind_last, rfind-Lacks, split_once_char_first, split_once_char-Lacks,
  take-length_append, drop-length_append, split_once_at, strip_prefix-append, split_once_sound,
  split_once-append,
}
use keylens.Conn.Url.{
  scheme_mark, has_delimiter, redact_authority, redact_url, with_scheme, or_unchanged,
}

-- What is shown of `user:password@host`: the password never, the user only if it can be read.
abbrev pub masked : Text → Text → Text
masked user host =
    if has_delimiter user then codes "***@" ++ host else user ++ (codes ":***@" ++ host)

if_some {ℓ} :
    {A : Type ℓ} (b : Bool) (x y : A) → (if b then some x else some y) ≡ some (if b then x else y)
if_some true x y = refl
if_some false x y = refl

redact_authority_credentials :
    (user password host : Text)
    → Lacks b':' user
    → Lacks b'@' host
    → redact_authority ((user ++ b':' ∷ password) ++ b'@' ∷ host) ≡ some (masked user host)
unfolding redact_authority
redact_authority_credentials user password host lu lh =
    let credentials = user ++ b':' ∷ password in
    rw
      (
        rfind_last b'@' credentials host lh,
        take-length_append,
        drop-length_append,
        strip_prefix-append (codes "@") host,
        split_once_char_first b':' user password lu,
      )
      (if_some (has_delimiter user) (codes "***@" ++ host) (user ++ (codes ":***@" ++ host)))

-- Without a password there is nothing to mask.
redact_authority_user :
    (user host : Text)
    → Lacks b':' user
    → Lacks b'@' host
    → redact_authority (user ++ b'@' ∷ host) ≡ none
unfolding redact_authority
redact_authority_user user host lu lh = rw (
  rfind_last b'@' user host lh,
  take-length_append,
  drop-length_append,
  strip_prefix-append (codes "@") host,
  split_once_char-Lacks b':' user lu,
)

redact_authority_plain : (s : Text) → Lacks b'@' s → redact_authority s ≡ none
unfolding redact_authority
redact_authority_plain s l = rw (rfind-Lacks b'@' s l)

-- The scheme, its mark and what follows.
abbrev pub url_of : Text → Text → Text
url_of scheme remainder = scheme ++ (scheme_mark ++ remainder)

redact_url_scheme :
    (scheme remainder : Text)
    → Lacks b':' scheme
    → redact_url (url_of scheme remainder)
      ≡ or_unchanged (with_scheme scheme (redact_authority remainder)) (url_of scheme remainder)
unfolding redact_url
redact_url_scheme scheme remainder l =
    rw (split_once_at b':' (codes "//") scheme remainder l, redact_url)

-- A URL with a scheme and credentials is shown with the scheme, the user and the host alone, where
-- scheme and user hold no `:` and the host no `@`. The password may hold any character, `@`, `:` and
-- `/` included: the result does not depend on it. A user that holds a path delimiter is not shown
-- either.
pub redact_url_credentials :
    (scheme user password host : Text)
    → Lacks b':' scheme
    → Lacks b':' user
    → Lacks b'@' host
    → redact_url (url_of scheme ((user ++ b':' ∷ password) ++ b'@' ∷ host))
      ≡ url_of scheme (masked user host)
redact_url_credentials scheme user password host ls lu lh = rw (
  redact_url_scheme scheme ((user ++ b':' ∷ password) ++ b'@' ∷ host) ls,
  redact_authority_credentials user password host lu lh,
)

-- A URL with no `@` is shown as it is.
pub redact_url_plain : (url : Text) → Lacks b'@' url → redact_url url ≡ url
unfolding redact_url
redact_url_plain url l = elim (Option-cases (split_once scheme_mark url)) [
  | inl e ↦ rw (e, redact_authority_plain url l)
  | inr ((scheme, remainder), e) ↦
      let spelt = split_once_sound scheme_mark url scheme remainder e in
      let behind = All-right _ scheme (scheme_mark ++ remainder) (subst (Lacks b'@') spelt l) in
      rw (e, redact_authority_plain remainder (All-right _ scheme_mark remainder behind))
]

-- A user without a password is no secret: with a scheme and a user without `:` and a host without
-- `@`, the URL is shown as it is.
pub redact_url_user :
    (scheme user host : Text)
    → Lacks b':' scheme
    → Lacks b':' user
    → Lacks b'@' host
    → redact_url (url_of scheme (user ++ b'@' ∷ host)) ≡ url_of scheme (user ++ b'@' ∷ host)
redact_url_user scheme user host ls lu lh =
    rw (redact_url_scheme scheme (user ++ b'@' ∷ host) ls, redact_authority_user user host lu lh)

-- For a URL with a scheme and credentials, scheme and user without `:` and the host without `@`,
-- redacting twice, as the browser and the application do one after the other, is redacting once.
pub redact_url_twice :
    (scheme user password host : Text)
    → Lacks b':' scheme
    → Lacks b':' user
    → Lacks b'@' host
    → let url = url_of scheme ((user ++ b':' ∷ password) ++ b'@' ∷ host) in
      redact_url (redact_url url) ≡ redact_url url
redact_url_twice scheme user password host ls lu lh =
    let again =
      rw append_assoc at (redact_url_credentials scheme user (codes "***") host ls lu lh) in
    rw (redact_url_credentials scheme user password host ls lu lh)
      (elim (Bool-cases (has_delimiter user)) [
        | inl e ↦ rw e (redact_url_user scheme (codes "***") host ls (omega arith) lh)
        | inr e ↦ rw (e, again, e)
      ])

skip_colon :
    (before rest : Text)
    → Lacks b'/' before
    → split_once scheme_mark (before ++ (scheme_mark ++ rest)) ≡ some (before, rest)
    → split_once scheme_mark (b':' ∷ (before ++ (scheme_mark ++ rest))) ≡ some (b':' ∷ before, rest)
unfolding split_once
skip_colon [] rest l h = ground arith
skip_colon (c ∷ cs) rest l h = ground arith

-- The mark inside a password that no scheme stands before: the first split is there.
scheme_split :
    (user before rest : Text)
    → Lacks b':' user
    → Lacks b':' before
    → Lacks b'/' before
    → split_once scheme_mark (user ++ b':' ∷ (before ++ (scheme_mark ++ rest)))
      ≡ some (user ++ b':' ∷ before, rest)
scheme_split user before rest lu lb ls =
    split_once-append b':' (codes "//") user (b':' ∷ (before ++ (scheme_mark ++ rest)))
      (b':' ∷ before) rest lu
      (skip_colon before rest ls (split_once_at b':' (codes "//") before rest lb))

-- Without a scheme, a password that holds `://` is split there, and what stands before is not looked
-- at again: if the user holds no `:`, the password neither `:` nor `/` before the mark and no `:`
-- behind it, and the host no `@`, the URL is shown whole, password included.
pub redact_url_leaks :
    (user before after host : Text)
    → Lacks b':' user
    → Lacks b':' before
    → Lacks b'/' before
    → Lacks b':' after
    → Lacks b'@' host
    → let url = user ++ b':' ∷ (before ++ (scheme_mark ++ (after ++ b'@' ∷ host))) in
      redact_url url ≡ url
unfolding redact_url
redact_url_leaks user before after host lu lb ls la lh = rw (
  scheme_split user before (after ++ b'@' ∷ host) lu lb ls,
  redact_authority_user after host la lh,
)
