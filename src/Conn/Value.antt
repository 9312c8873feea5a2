-- ===== src/Conn/Value.antt =====
-- The replies and arguments of the Redis client, and `display_string` of
-- crates/keylens-conn/src/value.rs. The client is a package: its conversions of values are a
-- parameter.
use keylens.Base.{
  ℕ, ◌+◌, ◌≡◌, List, [], ◌∷◌, ◌++◌, Option, none, some, length, take, ltb, if◌then◌else◌,
}
use keylens.Base.Text.{Text, codes}
use keylens.Base.Int.{ℤ}
use keylens.Base.Decimal.{to_string}
use keylens.Conn.Reply.{F64}

-- The client's `Value`: arrays, maps with the text of each key where it has one, texts, integers,
-- nulls and the other variants.
mutual
  pub data Value : Type 0 where
    array : Values → Value
    map_value : Entries → Value
    text : Text → Value
    integer : ℤ → Value
    null : Value
    other_value : Text → Value

  pub data Values : Type 0 where
    nil : Values
    cons : Value → Values → Values

  pub data Entries : Type 0 where
    no_entry : Entries
    entry : Option Text → Value → Entries → Entries

abbrev pub to_list : Values → List Value
to_list nil = []
to_list (cons v vs) = v ∷ to_list vs

abbrev pub of_list : List Value → Values
of_list [] = nil
of_list (v ∷ vs) = cons v (of_list vs)

-- What the program relies on of the client: how it converts a value, `from_utf8_lossy` of the
-- standard library, and `{:?}`. A text that was made a value is read back as itself.
pub record Client : Type 0 where
  pub as_string : Value → Option Text
  pub as_i64 : Value → Option ℤ
  pub as_u64 : Value → Option ℕ
  pub as_f64 : Value → Option F64
  pub as_bytes : Value → Option (List ℕ)
  pub from_utf8_lossy : List ℕ → Text
  pub debug : Value → Text
  pub as_string-text : (t : Text) → as_string (text t) ≡ some t

-- A number as a value.
abbrev pub number : ℕ → Value
number n = integer (ℤ.pos n)

abbrev pub char_bytes : ℕ → ℕ
char_bytes c = if ltb c 0x80 then 1 else if ltb c 0x800 then 2 else if ltb c 0x10000 then 3 else 4

-- `len` of Rust's `str`: the bytes of its code points in UTF-8.
unfoldable pub byte_length : Text → ℕ
byte_length [] = 0
byte_length (c ∷ s) = char_bytes c + byte_length s

-- `as_chunks::<2>().0`: the whole pairs; an odd element at the end is dropped.
abbrev pub chunks {ℓ} : {A : Type ℓ} → List A → List (A × A)
chunks [] = []
chunks (a ∷ []) = []
chunks (a ∷ b ∷ r) = (a, b) ∷ chunks r

-- `filter_map`
abbrev pub keep_some {ℓ} : {A : Type ℓ} → Option A → List A → List A
keep_some none rest = rest
keep_some (some a) rest = a ∷ rest

abbrev pub filter_map {ℓ κ} : {A : Type ℓ} {B : Type κ} → (A → Option B) → List A → List B
filter_map f [] = []
filter_map f (a ∷ r) = keep_some (f a) (filter_map f r)

module _ (client : Client) where
  open client use {as_string, as_bytes, from_utf8_lossy, debug}

  abbrev display_bytes : Option (List ℕ) → Value → Text
  display_bytes (some b) v =
      codes "<" ++ (to_string (length b) ++ (codes " bytes> " ++ take 200 (from_utf8_lossy b)))
  display_bytes none v = debug v

  abbrev display_as : Option Text → Value → Text
  display_as (some s) v = s
  display_as none v = display_bytes (as_bytes v) v

  -- `display_string`
  unfoldable pub display_string : Value → Text
  display_string v = display_as (as_string v) v

  -- `args.first().and_then(Value::as_string)`
  abbrev pub first_text : List Value → Option Text
  first_text [] = none
  first_text (v ∷ vs) = as_string v
