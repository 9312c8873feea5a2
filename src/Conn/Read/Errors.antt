-- ===== src/Conn/Read/Errors.antt =====
-- The errors of the decoders of crates/keylens-conn/src/value.rs name a reply of a wrong shape.
use keylens.Conn.Kind.{Kind, string, hash, list, set, zset, stream, no_kind, other}
use keylens.Conn.Value.{Value, array, nil, cons, Client}
use keylens.Conn.Error.{Result, ok, err}
use keylens.Conn.Command.Allowed.{NotRefused}
use keylens.Conn.Program.{Fits}
use keylens.Conn.Decode.{scan_items, decode_hash, decode_set, decode_value, try}

-- A result that is no refusal.
abbrev pub Fine : {A : Type 0} → Result A → Type 0
Fine r = Fits (λ c. Unit) NotRefused r

pub try-Fine :
    {A B : Type 0} (r : Result A) (f : A → Result B)
    → Fine r
    → ((a : A) → Fine (f a))
    → Fine (try r f)
try-Fine (ok a) f h k = k a
try-Fine (err e) f h k = h

module _ (client : Client) where
  items-Fine :
      (cursor items : Value) → Fine (scan_items client (array (cons cursor (cons items nil))))
  unfolding scan_items
  items-Fine cursor (array items) = tt
  items-Fine cursor v = tt

  scan_items-Fine : (v : Value) → Fine (scan_items client v)
  unfolding scan_items
  scan_items-Fine (array nil) = tt
  scan_items-Fine (array (cons cursor nil)) = tt
  scan_items-Fine (array (cons cursor (cons items nil))) = items-Fine cursor items
  scan_items-Fine (array (cons cursor (cons items (cons v vs)))) = tt
  scan_items-Fine v = tt

  pub decode_hash-Fine : (v : Value) → Fine (decode_hash client v)
  unfolding decode_hash
  decode_hash-Fine v = try-Fine (scan_items client v) _ (scan_items-Fine v) (λ items. tt)

  pub decode_set-Fine : (v : Value) → Fine (decode_set client v)
  unfolding decode_set
  decode_set-Fine v = try-Fine (scan_items client v) _ (scan_items-Fine v) (λ items. tt)

  pub decode_value-Fine : (k : Kind) (v : Value) → Fine (decode_value client k v)
  unfolding decode_value
  decode_value-Fine string v = tt
  decode_value-Fine hash v = decode_hash-Fine v
  decode_value-Fine list v = tt
  decode_value-Fine set v = decode_set-Fine v
  decode_value-Fine zset v = tt
  decode_value-Fine stream v = tt
  decode_value-Fine no_kind v = tt
  decode_value-Fine other v = tt
