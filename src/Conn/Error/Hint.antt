-- ===== src/Conn/Error/Hint.antt =====
-- What the hints of crates/keylens-conn/src/error.rs show of a url.
use keylens.Base.{ℕ, arith, ◌≡◌, refl, ap, ◌∙◌, Bool, true, ◌||◌, ◌++◌, ◌∷◌, if◌then◌else◌}
use keylens.Base.Text.{Text, codes, Lacks}
use keylens.Base.Decimal.{to_string}
use keylens.Base.Lines.{to_lowercase}
use keylens.Conn.Url.{redact_url}
use keylens.Conn.Url.Redaction.{url_of, masked, redact_url_credentials}
use keylens.Conn.Error.{
  ClientError, connect_error, likely_needs_tls, connect_timeout, contains, classify_connect,
  timeout_error, looks_like_plaintext_to_tls, is_plaintext_scheme, to_tls_url, is_protocol_or_parse,
  plaintext_hint,
}

-- The plaintext schemes, and the TLS scheme that is suggested for each.
pub data Scheme : Type 0 where
  direct sentinel sharded : Scheme

abbrev pub plain_name : Scheme → Text
plain_name direct = codes "redis"
plain_name sentinel = codes "redis-sentinel"
plain_name sharded = codes "redis-cluster"

abbrev pub tls_name : Scheme → Text
tls_name direct = codes "rediss"
tls_name sentinel = codes "rediss-sentinel"
tls_name sharded = codes "rediss-cluster"

to_tls_url-plain :
    (s : Scheme) (rest : Text) → to_tls_url (url_of (plain_name s) rest) ≡ url_of (tls_name s) rest
unfolding to_tls_url
to_tls_url-plain direct rest = refl
to_tls_url-plain sentinel rest = refl
to_tls_url-plain sharded rest = refl

is_plaintext-plain :
    (s : Scheme) (rest : Text) → is_plaintext_scheme (url_of (plain_name s) rest) ≡ true
unfolding is_plaintext_scheme
is_plaintext-plain direct rest = refl
is_plaintext-plain sentinel rest = refl
is_plaintext-plain sharded rest = refl

tls_name-Lacks : (s : Scheme) → Lacks b':' (tls_name s)
tls_name-Lacks direct = omega arith
tls_name-Lacks sentinel = omega arith
tls_name-Lacks sharded = omega arith

-- What a failure's kind or words say of a server that answers in no RESP.
abbrev pub speaks_no_resp : ClientError → Bool
speaks_no_resp e =
    is_protocol_or_parse e.error_kind
    || contains (to_lowercase e.details) (codes "expected string")
    || contains (to_lowercase e.details) (codes "protocol error")

module _ (s : Scheme) (user password host : Text) (lu : Lacks b':' user)
    (lh : Lacks b'@' host) where
  abbrev pub plain_url : Text
  plain_url = url_of (plain_name s) ((user ++ b':' ∷ password) ++ b'@' ∷ host)

  suggestion : redact_url (to_tls_url plain_url) ≡ url_of (tls_name s) (masked user host)
  suggestion =
      ap redact_url (to_tls_url-plain s ((user ++ b':' ∷ password) ++ b'@' ∷ host))
      ∙ redact_url_credentials (tls_name s) user password host (tls_name-Lacks s) lu lh

  abbrev credentials : Text
  credentials = (user ++ b':' ∷ password) ++ b'@' ∷ host

  abbrev pub deadline : ℕ → Text
  deadline after =
      codes "connection failed: the handshake did not finish within "
      ++ (to_string after ++ codes "s.")

  classified :
      (source : ClientError)
      → classify_connect plain_url source ≡ (
          if speaks_no_resp source
          then likely_needs_tls (url_of (tls_name s) (masked user host)) source
          else connect_error source)
  unfolding classify_connect looks_like_plaintext_to_tls
  classified source = rw (is_plaintext-plain s credentials) (
      ap (λ u. if speaks_no_resp source then likely_needs_tls u source else connect_error source)
        suggestion)

  timed_out :
      (after : ℕ)
      → timeout_error plain_url after
        ≡ connect_timeout
            (deadline after ++ plaintext_hint (url_of (tls_name s) (masked user host)))
  unfolding timeout_error
  timed_out after =
      rw (is_plaintext-plain s credentials)
        (ap (λ u. connect_timeout (deadline after ++ plaintext_hint u)) suggestion)

  -- A plaintext url with credentials, in any of its three schemes, where the user holds no `:` and the
  -- host no `@`: a handshake that timed out, and a failed connect whose error says by its kind or its
  -- words that the server answers in no RESP, suggest the same url with the TLS scheme and the password
  -- masked; any other failed connect is the connect error as it came, with no suggestion. None of them
  -- depends on the password.
  pub hints_hide_password :
      (source : ClientError) (after : ℕ)
      → (classify_connect plain_url source ≡ (
          if speaks_no_resp source
          then likely_needs_tls (url_of (tls_name s) (masked user host)) source
          else connect_error source))
        × (timeout_error plain_url after
            ≡ connect_timeout
                (deadline after ++ plaintext_hint (url_of (tls_name s) (masked user host))))
  hints_hide_password source after = (classified source, timed_out after)
