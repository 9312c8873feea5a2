-- ===== src/Ui/Format.antt =====
-- crates/keylens-ui/src/format.rs: numbers, durations and texts for display. Not here: `bytes`
-- and `pretty_json`, which call other packages, and the graphs, which divide floats.
pub mod Numbers
use keylens.Base.{
  ℕ, zero, suc, ◌+◌, ◌-◌, ◌*◌, ◌/◌, ◌%◌, ◌^◌, compare, Ordering, ◌≡◌, refl, Bool, true, false, ◌&&◌,
  ◌||◌, not, List, [], ◌∷◌, ◌++◌, Option, none, some, ltb, leb, ◌==◌, if◌then◌else◌, length, take,
}
use keylens.Base.Decimal.{to_string, digits, signed_to_string}
use keylens.Base.Text.{Text, codes, is_empty}
use keylens.Base.Int.{ℤ, pos, negsuc}

-- The loop of `count` over the characters from the `i`-th of `len`, which the list holds:
-- `len - i` is its length.
unfoldable pub grouped : Bool → Text → Text
grouped first [] = []
grouped first (c ∷ s) =
    let rest = grouped false s in
    if not first && (length (c ∷ s) % 3 == 0) then b',' ∷ c ∷ rest else c ∷ rest

-- `count`
unfoldable pub count : ℕ → Text
unfolding grouped
count n = grouped true (to_string n)

-- The pieces that `ttl` writes, for a number of seconds.
unfoldable pub ttl_parts : ℕ → Text
ttl_parts secs =
    let d = secs / 86400 in
    let h = (secs % 86400) / 3600 in
    let m = (secs % 3600) / 60 in
    let s = secs % 60 in
    (if ltb 0 d then to_string d ++ codes "d" else [])
    ++ ((if ltb 0 h then to_string h ++ codes "h" else [])
        ++ ((if ltb 0 m && d == 0 then to_string m ++ codes "m" else [])
            ++ (if ltb 0 s && d == 0 && h == 0 then to_string s ++ codes "s" else [])))

abbrev or_seconds : Text → ℕ → Text
or_seconds [] secs = to_string secs ++ codes "s"
or_seconds (c ∷ out) secs = c ∷ out

-- `ttl`
unfoldable pub ttl : Option ℤ → Text
unfolding ttl_parts
ttl none = codes "-"
ttl (some (negsuc n)) = signed_to_string (negsuc n) ++ codes "ms"
ttl (some (pos ms)) =
    if ltb ms 1000
    then to_string ms ++ codes "ms"
    else or_seconds (ttl_parts (ms / 1000)) (ms / 1000)

abbrev i64_max : ℕ
i64_max = 2 ^ 63 - 1

-- `secs`: `try_from` and `checked_mul` both answer none above `i64::MAX`.
unfoldable pub secs : ℕ → Text
secs n = ttl (some (pos (if leb n i64_max && leb (n * 1000) i64_max then n * 1000 else i64_max)))

-- `truncate`
unfoldable pub truncate : Text → ℕ → Text
truncate s max = if leb (length s) max then s else take (max - 1) s ++ codes "…"

-- `single_line`
unfoldable pub single_line : Text → Text
single_line [] = []
single_line (c ∷ s) = (if c == 10 || c == 13 then b' ' else c) ∷ single_line s
