-- ===== src/BullMq/Fields.antt =====
-- crates/lenses/keylens-bullmq/src/job.rs: a job from the fields of its hash, and `job` of lens.rs.
-- The JSON parser is a package: what it makes of a text is a parameter.
pub mod Capped
use keylens.Base.{
  ℕ, zero, suc, ◌+◌, ◌*◌, ◌%◌, ◌^◌, Bool, true, false, not, ◌&&◌, List, [], ◌∷◌, ◌++◌, Option, none,
  some, if◌then◌else◌, leb, ltb, map, is_some, ◌>>=◌,
}
use keylens.Base.Text.{Text, codes, text_eq, is_empty, or_empty}
use keylens.Base.Lines.{trim}
use keylens.Base.Decimal.{to_string, signed, parse_u32}
use keylens.Base.Int.{ℤ}
use keylens.Conn.Value.{Value, array, Values, to_list, text, Client, byte_length, char_bytes}
use keylens.Conn.Program.{Program, done}
use keylens.Conn.Program as Program
use keylens.Conn.Command.{cmd}
use keylens.BullMq.Keys.{QueueKeys, job_key}
use keylens.BullMq.Job.{Job}

-- `MAX_FIELD_BYTES`
abbrev pub max_field_bytes : ℕ
max_field_bytes = 64 * 1024

abbrev pub field_marker : Text
field_marker = 10 ∷ 10 ∷ codes "... truncated ..."

-- The loop of `cap_field`, with `used` bytes written.
unfoldable pub fitting : ℕ → Text → Text
fitting used [] = []
fitting used (c ∷ s) =
    let rest = fitting (used + char_bytes c) s in
    if ltb max_field_bytes (used + char_bytes c) then [] else c ∷ rest

-- `cap_field`
unfoldable pub cap_field : Text → Text
unfolding fitting byte_length
cap_field s = if leb (byte_length s) max_field_bytes then s else fitting 0 s ++ field_marker

-- `Job::attempts_label`
abbrev attempts_of : Text → Option ℕ → Text
attempts_of made none = made
attempts_of made (some most) = made ++ (codes "/" ++ to_string most)

unfoldable pub attempts_label : Job → Text
unfolding to_string
attempts_label j = attempts_of (to_string j.attempts_made) j.attempts_allowed

-- `JOB_FIELDS`
abbrev pub job_fields : List Text
job_fields =
    codes "name"
    ∷ codes "data"
    ∷ codes "opts"
    ∷ codes "atm"
    ∷ codes "attemptsMade"
    ∷ codes "stacktrace"
    ∷ codes "failedReason"
    ∷ codes "returnvalue"
    ∷ codes "progress"
    ∷ codes "timestamp"
    ∷ codes "processedOn"
    ∷ codes "finishedOn"
    ∷ codes "delay"
    ∷ codes "priority"
    ∷ codes "parentKey"
    ∷ []

abbrev filled : Option Text → Option Text
unfolding cap_field
filled none = none
filled (some s) = if is_empty s then none else some (cap_field s)

-- The value beside a field's name, in values aligned to a list of names.
unfoldable pub aligned : List Text → List (Option Text) → Text → Option Text
aligned (f ∷ fs) (v ∷ vs) name = if text_eq f name then v else aligned fs vs name
aligned _ _ name = none

-- `get` of `from_fields`
unfoldable pub get_job_field : List (Option Text) → Text → Option Text
unfolding aligned cap_field
get_job_field values name = filled (aligned job_fields values name)

-- What the program relies on of the JSON parser: the list of texts that a text spells, and the
-- number under `attempts` in the object that it spells.
pub record Json : Type 0 where
  pub texts_of : Text → Option (List Text)
  pub attempts_in : Text → Option ℕ

abbrev pub traces : Option (List Text) → Text → List Text
traces (some ts) raw = ts
traces none raw = raw ∷ []

abbrev first_some : Option Text → Option Text → Option Text
first_some (some a) b = some a
first_some none b = b

abbrev or_0 : Option ℕ → ℕ
or_0 none = 0
or_0 (some n) = n

module _ (json : Json) where
  open json use {texts_of, attempts_in}

  -- `parse_stacktrace`
  unfoldable pub parse_stacktrace : Text → List Text
  unfolding trim
  parse_stacktrace raw = if is_empty (trim raw) then [] else traces (texts_of raw) raw

  abbrev as_u32 : Option ℕ → Option ℕ
  as_u32 none = none
  as_u32 (some n) = some (n % 2 ^ 32)

  -- `attempts_from_opts`: the number is cast to 32 bits.
  unfoldable pub attempts_from_opts : Text → Option ℕ
  attempts_from_opts opts = as_u32 (attempts_in opts)

  -- `from_fields`
  unfoldable pub from_fields : Text → List (Option Text) → Job
  unfolding get_job_field parse_stacktrace attempts_from_opts parse_u32
  from_fields id values =
      let get = λ (name : Text). get_job_field values name in
      let number = λ (name : Text). (get name >>= signed) in
      record {
        id = id;
        name = or_empty (get (codes "name"));
        data_json = or_empty (get (codes "data"));
        opts = or_empty (get (codes "opts"));
        attempts_made =
            or_0 (first_some (get (codes "atm")) (get (codes "attemptsMade")) >>= parse_u32);
        attempts_allowed = attempts_from_opts (or_empty (get (codes "opts")));
        stacktrace = parse_stacktrace (or_empty (get (codes "stacktrace")));
        failed_reason = or_empty (get (codes "failedReason"));
        return_value = or_empty (get (codes "returnvalue"));
        progress = or_empty (get (codes "progress"));
        timestamp = number (codes "timestamp");
        processed_on = number (codes "processedOn");
        finished_on = number (codes "finishedOn");
        delay = number (codes "delay");
        priority = number (codes "priority");
        parent_key = or_empty (get (codes "parentKey"));
      }

  abbrev all_none : List (Option Text) → Bool
  all_none [] = true
  all_none (v ∷ vs) = not (is_some v) && all_none vs

  module _ (client : Client) where
    abbrev job_of : Text → Value → Option Job
    unfolding from_fields
    job_of id (array values) =
        let fields = map client.as_string (to_list values) in
        if all_none fields then none else some (from_fields id fields)
    job_of id _ = none

    -- `BullMqLens::job`
    unfoldable pub job : Text → Text → Text → Program (Option Job)
    unfolding cmd from_fields
    job prefix queue id =
        Program.◌>>=◌
          (cmd client (codes "HMGET")
            (text (job_key (record { prefix = prefix; name = queue }) id) ∷ map text job_fields))
          (λ reply. done (job_of id reply))
