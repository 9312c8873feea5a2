-- ===== src/Conn/Error.antt =====
-- crates/keylens-conn/src/error.rs: the errors of the connection crate, and the hint that a port
-- wants TLS. An error of the client is what the code reads of it: its kind and its details.
pub mod Hint
use keylens.Base.{
  ℕ, Bool, false, ◌&&◌, ◌||◌, List, [], ◌∷◌, ◌++◌, Option, none, some, if◌then◌else◌, is_some,
}
use keylens.Base.Text.{Text, codes}
use keylens.Base.Decimal.{to_string}
use keylens.Base.Lines.{to_lowercase}
use keylens.Base.Find.{strip_prefix}
use keylens.Conn.Url.{redact_url}

-- `fred::error::ErrorKind`: the two kinds that are named, and the others.
pub data ErrorKind : Type 0 where
  protocol parse other_kind : ErrorKind

-- `fred::error::Error`
pub record ClientError : Type 0 where
  pub error_kind : ErrorKind
  pub details : Text

-- `enum ConnError`
pub data ConnError : Type 0 where
  url_error : Text → ConnError
  connect_error : ClientError → ConnError
  likely_needs_tls : Text → ClientError → ConnError
  connect_timeout : Text → ConnError
  command_error : Text → ClientError → ConnError
  reply_error : Text → Text → ConnError
  range_error : Text → ℕ → Text → ConnError
  unsafe_command : Text → ConnError

-- `Result<T>`
pub data Result (A : Type 0) : Type 0 where
  ok : A → Result A
  err : ConnError → Result A

-- `s.contains(part)`
unfoldable pub contains : Text → Text → Bool
unfolding strip_prefix
contains [] part = is_some (strip_prefix part [])
contains (c ∷ s) part = is_some (strip_prefix part (c ∷ s)) || contains s part

abbrev starts_with : Text → Text → Bool
starts_with s prefix = is_some (strip_prefix prefix s)

-- `is_plaintext_scheme`
unfoldable is_plaintext_scheme : Text → Bool
unfolding strip_prefix
is_plaintext_scheme url =
    starts_with url (codes "redis://")
    || starts_with url (codes "redis-sentinel://")
    || starts_with url (codes "redis-cluster://")

abbrev is_protocol_or_parse : ErrorKind → Bool
is_protocol_or_parse protocol = Bool.true
is_protocol_or_parse parse = Bool.true
is_protocol_or_parse other_kind = false

-- `looks_like_plaintext_to_tls`
unfoldable looks_like_plaintext_to_tls : Text → ClientError → Bool
unfolding is_plaintext_scheme contains to_lowercase
looks_like_plaintext_to_tls url source =
    let msg = to_lowercase source.details in
    is_plaintext_scheme url
    && (is_protocol_or_parse source.error_kind
        || contains msg (codes "expected string")
        || contains msg (codes "protocol error"))

-- The loop of `to_tls_url` over the pairs of schemes.
abbrev pub rewritten : Text → Option Text → Text → Text
rewritten tls (some rest) otherwise = tls ++ rest
rewritten tls none otherwise = otherwise

-- `to_tls_url`
unfoldable to_tls_url : Text → Text
unfolding strip_prefix
to_tls_url url = rewritten (codes "rediss://") (strip_prefix (codes "redis://") url) (
    rewritten (codes "rediss-sentinel://") (strip_prefix (codes "redis-sentinel://") url)
      (rewritten (codes "rediss-cluster://") (strip_prefix (codes "redis-cluster://") url) url))

-- `classify_connect`
unfoldable pub classify_connect : Text → ClientError → ConnError
unfolding looks_like_plaintext_to_tls to_tls_url
classify_connect url source =
    if looks_like_plaintext_to_tls url source
    then likely_needs_tls (redact_url (to_tls_url url)) source
    else connect_error source

-- The two texts that `connect_timeout` writes below its first sentence, the first of them around
-- the url that it suggests.
abbrev pub plaintext_hint : Text → Text
plaintext_hint suggestion =
    10
    ∷ 10
    ∷ (codes
          "The usual cause is a TLS-only port reached over plaintext — it accepts the connection, then closes it."
        ++ (10 ∷ codes "Try `rediss://`:"
            ++ (10 ∷ 10 ∷ codes "    "
                ++ (suggestion
                    ++ (10
                        ∷ 10
                        ∷ codes
                            "Managed hosts — DigitalOcean, Upstash, Aiven, ElastiCache with encryption in transit — are TLS-only.")))))

abbrev pub tls_hint : Text
tls_hint =
    10 ∷ 10 ∷ codes "The scheme is already TLS, so check, in order:"
    ++ (10
          ∷ 10
          ∷ codes
              "  1. Your IP is allowed. Managed hosts block by default — DigitalOcean calls this"
        ++ (10 ∷ codes "     \"Trusted Sources\", AWS uses security groups."
            ++ (10
                  ∷ codes
                      "  2. The password is url-encoded. A `@`, `/`, `:` or `#` in the password will corrupt"
                ++ (10 ∷ codes "     the url unless percent-encoded."
                    ++ (10 ∷ codes "  3. The host and port are right, and the server is reachable:"
                        ++ (10 ∷ codes "     `redis-cli --tls -u '<your-url>' PING`"
                            ++ (10 ∷ 10 ∷ codes "For the full handshake trace:"
                                ++ (10
                                    ∷ codes
                                        "  KEYLENS_LOG=debug KEYLENS_LOG_FILE=/tmp/keylens.log keylens --url ... probe"))))))))

-- `connect_timeout`, with the deadline in seconds.
unfoldable pub timeout_error : Text → ℕ → ConnError
unfolding is_plaintext_scheme to_tls_url
timeout_error url after = connect_timeout (
    (codes "connection failed: the handshake did not finish within "
      ++ (to_string after ++ codes "s."))
    ++ (if is_plaintext_scheme url then plaintext_hint (redact_url (to_tls_url url)) else tls_hint))
