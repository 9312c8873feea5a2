-- ===== src/BullMq/Keys/RoundTrip.antt =====
-- The keys that `QueueKeys` builds are read back by `queue_name_from_meta_key`, and the version of
-- a library by `parse_meta_version`.
use keylens.Base.{
  ℕ, ◌≡◌, refl, sym, ap, ◌∙◌, false, not, ◌&&◌, [], ◌∷◌, ◌++◌, append_assoc, none, some,
  if◌then◌else◌, arith, ◌↔◌, Bool-cases, Option-cases, inl, inr, ◌≢◌, length, length-append,
}
use keylens.Base.Text.{Text, codes, is_empty, text_eq, text_eq_iff, text_eq_refl, Lacks}
use keylens.Base.Find.{strip_prefix-append, strip_prefix, strip_prefix_sound, rsplit_once_char_last}
use keylens.BullMq.Keys.{
  colon, base, key, meta_key, strip_suffix, queue_name_from_meta_key, parse_meta_version,
}

not_behind : (x : ℕ) (s end : Text) → x ∷ (s ++ end) ≢ end
not_behind x s end h = let same = ap length h in absurd (omega (arith, same, length-append s end))

shorter_end : (x : ℕ) (s end : Text) → text_eq (x ∷ (s ++ end)) end ≡ false
shorter_end x s end = elim (Bool-cases (text_eq (x ∷ (s ++ end)) end)) [
  | inr e ↦ e
  | inl e ↦ absurd (not_behind x s end ((text_eq_iff (x ∷ (s ++ end)) end).0 e))
]

strip_suffix-append : (s end : Text) → strip_suffix end (s ++ end) ≡ some s
unfolding strip_suffix
strip_suffix-append [] [] = refl
strip_suffix-append [] (e ∷ end) = rw (text_eq_refl (e ∷ end)) refl
strip_suffix-append (x ∷ s) end = rw (shorter_end x s end, strip_suffix-append s end) refl

strip_suffix_sound : (end s r : Text) → strip_suffix end s ≡ some r → s ≡ r ++ end
unfolding strip_suffix
strip_suffix_sound [] [] r h = ground arith
strip_suffix_sound (e ∷ end) [] r h = ground arith
strip_suffix_sound end (x ∷ s) r h = elim (Bool-cases (text_eq (x ∷ s) end)) [
  | inl e ↦ ground (arith, text_eq_iff (x ∷ s) end)
  | inr e ↦ elim (Option-cases (strip_suffix end s)) [
    | inl f ↦ ground arith
    | inr (r', f) ↦ ground (arith, strip_suffix_sound end s r' f)
  ]
]

meta_key_parts :
    (prefix name : Text)
    → meta_key (record { prefix = prefix; name = name })
      ≡ (prefix ++ colon) ++ (name ++ codes ":meta")
unfolding meta_key key base
meta_key_parts prefix name = simp append_assoc

not_empty : (name : Text) → name ≢ [] → is_empty name ≡ false
not_empty [] h = absurd (h refl)
not_empty (x ∷ name) h = refl

queue_name_complete :
    (prefix k name : Text)
    → k ≡ meta_key (record { prefix = prefix; name = name })
    → name ≢ []
    → queue_name_from_meta_key prefix k ≡ some name
unfolding queue_name_from_meta_key
queue_name_complete prefix k name e h =
    rw
      (
        e,
        meta_key_parts prefix name,
        strip_prefix-append (prefix ++ colon) (name ++ codes ":meta"),
        strip_suffix-append name (codes ":meta"),
        not_empty name h,
      )
      refl

if_not_empty : (a b : Text) → (if is_empty a then none else some a) ≡ some b → (a ≡ b) × (a ≢ [])
if_not_empty [] b h = ground arith
if_not_empty (x ∷ a) b h = ground arith

queue_name_sound :
    (prefix k name : Text)
    → queue_name_from_meta_key prefix k ≡ some name
    → (k ≡ meta_key (record { prefix = prefix; name = name })) × (name ≢ [])
unfolding queue_name_from_meta_key
queue_name_sound prefix k name h = elim (Option-cases (strip_prefix (prefix ++ colon) k)) [
  | inl e ↦ ground arith
  | inr (rest, e) ↦ elim (Option-cases (strip_suffix (codes ":meta") rest)) [
    | inl f ↦ ground arith
    | inr (name', f) ↦
        let read = if_not_empty name' name (ground (arith, e, f, h)) in
        (
          strip_prefix_sound (prefix ++ colon) k rest e
              ∙ ap (λ r. (prefix ++ colon) ++ r) (strip_suffix_sound (codes ":meta") rest name' f)
              ∙ ap (λ n. (prefix ++ colon) ++ (n ++ codes ":meta")) read.0
              ∙ sym (meta_key_parts prefix name),
          λ none_left. read.1 (read.0 ∙ none_left),
        )
  ]
]

-- The key of a queue's meta hash, and no other key, gives the queue's name back, which may hold
-- colons: it is read under `prefix` exactly from the keys that `QueueKeys` builds there for a name
-- that is not empty.
pub queue_name_round_trip :
    (prefix k name : Text)
    → (queue_name_from_meta_key prefix k ≡ some name)
      ↔ ((k ≡ meta_key (record { prefix = prefix; name = name })) × (name ≢ []))
queue_name_round_trip prefix k name =
    (queue_name_sound prefix k name, λ h. queue_name_complete prefix k name h.0 h.1)

-- The version of a library is read back from its label: the version has no colon, the library's
-- name may have some, and neither is empty.
pub parse_meta_version_lem :
    (lib ver : Text)
    → Lacks b':' ver
    → parse_meta_version (lib ++ b':' ∷ ver)
      ≡ (if not (is_empty lib) && not (is_empty ver) then some (lib, ver) else none)
unfolding parse_meta_version
parse_meta_version_lem lib ver l = rw (rsplit_once_char_last b':' lib ver l) refl
