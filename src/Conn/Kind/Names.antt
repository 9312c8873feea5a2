-- ===== src/Conn/Kind/Names.antt =====
-- The names of key types read back.
use keylens.Base.{◌≡◌, refl, ◌⊎◌, arith}
use keylens.Base.Text.{Text, codes, compare_text, text_eq_iff}
use keylens.Conn.Kind.{Kind, string, other, parse_kind, kind_label}

parse_kind-label : (k : Kind) → parse_kind (kind_label k) ≡ k
unfolding parse_kind compare_text
parse_kind-label string = refl
parse_kind-label k = refl

label-parse_kind : (s : Text) → (kind_label (parse_kind s) ≡ s) ⊎ (parse_kind s ≡ other)
unfolding parse_kind
label-parse_kind s = ground (
  arith,
  text_eq_iff s (codes "string"),
  text_eq_iff s (codes "hash"),
  text_eq_iff s (codes "list"),
  text_eq_iff s (codes "set"),
  text_eq_iff s (codes "zset"),
  text_eq_iff s (codes "stream"),
  text_eq_iff s (codes "none"),
)

-- A type's label parses to the type, and a name parses to a type that it labels, or to `other`.
pub parse_kind_labels :
    (k : Kind) (s : Text)
    → (parse_kind (kind_label k) ≡ k) × ((kind_label (parse_kind s) ≡ s) ⊎ (parse_kind s ≡ other))
parse_kind_labels k s = (parse_kind-label k, label-parse_kind s)
