-- ===== src/Worker/Typing.antt =====
-- The types of the keys of a batch.
use keylens.Base.{
  ℕ, zero, suc, ◌≤◌, ◌≡◌, refl, sym, ap, ◌∙◌, false, List, [], ◌∷◌, ◌++◌, Option, none, some, arith,
  map, length, take, true, Bool-cases, inl, inr, drop, if◌then◌else◌,
}
use keylens.Base.Text.{Text, codes}
use keylens.Conn.Kind.{Kind, kind_eq, parse_kind}
use keylens.Conn.Value.{Value, Client, text, display_string}
use keylens.Conn.Error.{Result, ok}
use keylens.Conn.Capability.{has, scan_type_filter}
use keylens.Conn.Program.{Command, Reply, answered, refused, run, run-bind, run-attempt}
use keylens.Conn.Command.{Conn, pipeline, first_unsafe, read_only_command, ok_value, named}
use keylens.Conn.Command.Batch.{outcome, run-pipeline}
use keylens.Worker.{
  Worker, type_cmd, type_chunks, type_keys, typed_from, typed_by_server, type_or_ask, kind_of,
  is_wanted, max_typed,
}

module _ {ℓ} {A : Type ℓ} where
  take-drop : (n : ℕ) (xs : List A) → take n xs ++ drop n xs ≡ xs
  take-drop zero xs = refl
  take-drop (suc n) [] = refl
  take-drop (suc n) (x ∷ xs) = ap (λ r. x ∷ r) (take-drop n xs)

  length-drop-le : (n : ℕ) (xs : List A) → length (drop n xs) ≤ length xs
  length-drop-le zero xs = omega arith
  length-drop-le (suc n) [] = omega arith
  length-drop-le (suc n) (x ∷ xs) = omega (arith, length-drop-le n xs)

kind_eq-same : (k l : Kind) → kind_eq k l ≡ true → k ≡ l
kind_eq-same k l h = ground arith

module _ (client : Client) (server : Command → Reply) (conn : Conn) where
  types-allowed : (keys : List Text) → first_unsafe client (map type_cmd keys) ≡ none
  unfolding first_unsafe read_only_command
  types-allowed [] = refl
  types-allowed (key ∷ keys) = types-allowed keys

  -- What the server gives to the type of each key, asked by itself.
  abbrev types_alone : List Text → List (Result Value)
  types_alone keys = map (outcome client server) (map type_cmd keys)

  types_alone-append :
      (xs ys : List Text) → types_alone (xs ++ ys) ≡ types_alone xs ++ types_alone ys
  types_alone-append [] ys = refl
  types_alone-append (x ∷ xs) ys =
      ap (λ r. outcome client server (type_cmd x) ∷ r) (types_alone-append xs ys)

  run-type_chunks :
      (fuel : ℕ) (keys : List Text)
      → length keys ≤ fuel
      → run server (type_chunks client fuel conn keys) ≡ ok (types_alone keys)
  unfolding type_chunks
  run-type_chunks zero [] h = refl
  run-type_chunks zero (k ∷ ks) h = absurd (omega arith)
  run-type_chunks (suc fuel) [] h = refl
  run-type_chunks (suc fuel) (k ∷ ks) h =
      let keys : List Text = k ∷ ks in
      let first : List Command = map type_cmd (take max_typed keys) in
      run-attempt server (pipeline client conn first) _
      ∙ rw (run-pipeline client server conn first (types-allowed (take max_typed keys))) (
          run-bind server (type_chunks client fuel conn (drop max_typed keys)) _
          ∙ rw (run-type_chunks fuel (drop max_typed keys) (omega (arith, length-drop-le 999 ks))) (
              ap ok (
                sym (types_alone-append (take max_typed keys) (drop max_typed keys))
                ∙ ap types_alone (take-drop max_typed keys))))

  -- The type that the server gives one key, asked by itself.
  abbrev pub type_of : Reply → Option Kind
  type_of (answered v) = some (parse_kind (display_string client v))
  type_of (refused e) = none

  abbrev pub kind_alone : Text → Option Kind
  kind_alone key = type_of (server (codes "TYPE", text key ∷ []))

  abbrev pub Wanted : Option Kind → Option Kind → Type 0
  Wanted none k = Unit
  Wanted (some wanted) k = k ≡ some wanted

  -- The typed keys that a scan for `requested`, or for every type, is to give for these keys: in
  -- their order, each with its own type, and without those of which the type is not the one wanted.
  pub data Picked (requested : Option Kind) : List Text → List (Text × Option Kind) → Type 0 where
    none_left : Picked requested [] []
    kept :
        (key : Text) {keys : List Text} {typed : List (Text × Option Kind)}
        → Wanted requested (kind_alone key)
        → Picked requested keys typed
        → Picked requested (key ∷ keys) ((key, kind_alone key) ∷ typed)
    left_out :
        (key : Text) {keys : List Text} {typed : List (Text × Option Kind)}
        → ¬ Wanted requested (kind_alone key)
        → Picked requested keys typed
        → Picked requested (key ∷ keys) typed

  type_of-named :
      (r : Reply) → kind_of client (ok_value (some (named client (codes "TYPE") r))) ≡ type_of r
  type_of-named (answered v) = refl
  type_of-named (refused e) = refl

  kept_kind-Wanted :
      (requested k : Option Kind) → is_wanted client requested k ≡ true → Wanted requested k
  kept_kind-Wanted none k h = tt
  kept_kind-Wanted (some wanted) none h = ground arith
  kept_kind-Wanted (some wanted) (some k) h = ap some (kind_eq-same k wanted h)

  left_kind-Wanted :
      (requested k : Option Kind) → is_wanted client requested k ≡ false → ¬ Wanted requested k
  left_kind-Wanted none k h = λ w. ground arith
  left_kind-Wanted (some wanted) none h = λ e. ground arith
  left_kind-Wanted (some wanted) (some k) h = λ e. ground arith

  pick :
      (requested : Option Kind) (key : Text) {keys : List Text} {typed : List (Text × Option Kind)}
      → Picked requested keys typed
      → Picked requested (key ∷ keys) (
          if is_wanted client requested (kind_alone key)
          then (key, kind_alone key) ∷ typed
          else typed)
  pick requested key p = elim (Bool-cases (is_wanted client requested (kind_alone key))) [
    | inl e ↦ rw e (kept key (kept_kind-Wanted requested (kind_alone key) e) p)
    | inr e ↦ rw e (left_out key (left_kind-Wanted requested (kind_alone key) e) p)
  ]

  typed_from-Picked :
      (requested : Option Kind) (keys : List Text)
      → Picked requested keys (typed_from client requested keys (types_alone keys))
  unfolding typed_from
  typed_from-Picked requested [] = none_left
  typed_from-Picked requested (key ∷ keys) =
      rw (type_of-named (server (codes "TYPE", text key ∷ [])))
        (pick requested key (typed_from-Picked requested keys))

  not_by_server : (k : Option Kind) → typed_by_server client k false ≡ none
  not_by_server none = refl
  not_by_server (some k) = refl

  run-type_or_ask :
      (w : Worker) (keys : List Text)
      → run server (type_or_ask client none conn w keys)
        ≡ ok (typed_from client w.kind keys (types_alone keys))
  unfolding typed_from
  run-type_or_ask w [] = refl
  run-type_or_ask w (key ∷ keys) =
      run-bind server (type_chunks client (length (key ∷ keys)) conn (key ∷ keys)) _
      ∙ rw (run-type_chunks (length (key ∷ keys)) (key ∷ keys) (omega arith)) refl

  -- On a server without the type filter whose data stays, any number of keys is typed, in chunks,
  -- with the types that asking for each key by itself gives: the typed keys come in the order of the
  -- keys, each with its own type, and exactly those are left out of which the type is not the one
  -- that the scan asks for; a scan for every type leaves out none.
  pub run-type_keys :
      (w : Worker) (keys : List Text)
      → has conn.capabilities scan_type_filter ≡ false
      → (typed : List (Text × Option Kind)) × (run server (type_keys client conn w keys) ≡ ok typed)
        × Picked w.kind keys typed
  unfolding type_keys
  run-type_keys w keys h = (
    typed_from client w.kind keys (types_alone keys),
    ap (λ b. run server (type_or_ask client (typed_by_server client w.kind b) conn w keys)) h
        ∙ ap (λ k. run server (type_or_ask client k conn w keys)) (not_by_server w.kind)
        ∙ run-type_or_ask w keys,
    typed_from-Picked w.kind keys,
  )
