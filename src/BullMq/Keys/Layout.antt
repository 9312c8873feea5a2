-- ===== src/BullMq/Keys/Layout.antt =====
-- The keys of a queue's states: distinct, and of the types that the table of suffixes gives.
use keylens.Base.{
  ◌≡◌, ◌≢◌, refl, ap, ◌∙◌, sym, List, [], ◌∷◌, ◌++◌, Option, none, some, if◌then◌else◌, arith,
}
use keylens.Base.Text.{Text, codes, text_eq, compare_text}
use keylens.BullMq.Keys.{
  State, waiting, active, prioritized, delayed, waiting_children, completed, failed, suffix,
  count_cmd, queue_keys, all_states, QueueKeys, key, base, state_key, colon,
}

-- The type that a table gives to a suffix.
abbrev pub type_in : List (Text × Text) → Text → Option Text
type_in [] s = none
type_in ((t, kind) ∷ r) s = if text_eq t s then some kind else type_in r s

-- The state that a suffix names, among those of a list.
abbrev state_in : List State → Text → Option State
state_in [] x = none
state_in (s ∷ r) x = if text_eq (suffix s) x then some s else state_in r x

state_in-suffix : (s : State) → state_in all_states (suffix s) ≡ some s
unfolding compare_text
state_in-suffix waiting = refl
state_in-suffix active = refl
state_in-suffix prioritized = refl
state_in-suffix delayed = refl
state_in-suffix waiting_children = refl
state_in-suffix completed = refl
state_in-suffix failed = refl

cancel_left : (a b c : Text) → a ++ b ≡ a ++ c → b ≡ c
cancel_left [] b c h = h
cancel_left (x ∷ a) b c h = cancel_left a b c (ground arith)

suffix_injective : (s t : State) → suffix s ≡ suffix t → s ≡ t
suffix_injective s t h =
    let read = sym (state_in-suffix s) ∙ ap (state_in all_states) h ∙ state_in-suffix t in
    ground (arith, read)

-- The command that counts a state fits the type that the table of suffixes gives its key: `LLEN` a
-- list, and `ZCARD` a sorted set.
pub state_types :
    (s : State)
    → type_in queue_keys (suffix s)
      ≡ some (if text_eq (count_cmd s) (codes "LLEN") then codes "list" else codes "zset")
unfolding compare_text
state_types waiting = refl
state_types active = refl
state_types prioritized = refl
state_types delayed = refl
state_types waiting_children = refl
state_types completed = refl
state_types failed = refl

-- Two states of a queue never share a key.
pub state_keys_distinct : (q : QueueKeys) (s t : State) → s ≢ t → state_key q s ≢ state_key q t
unfolding state_key key
state_keys_distinct q s t apart h = apart (
    suffix_injective s t (
      cancel_left colon (suffix s) (suffix t)
        (cancel_left (base q) (colon ++ suffix s) (colon ++ suffix t) h)))
