-- ===== src/Ui/Tree/Lookup.antt =====
-- What the key tree contains after an insertion: the tree read as a set of keys.
use keylens.Base.{
  ℕ, ◌+◌, ◌≡◌, ◌≢◌, refl, sym, ap, ◌∙◌, Bool, true, false, not, ◌&&◌, ◌||◌, List, [], ◌∷◌, Option,
  some, arith, if◌then◌else◌, Bool-cases, inl, inr,
}
use mathlib.Core.Path.{fun_ext}
use keylens.Base.Text.{Text, text_eq, text_eq_iff, is_empty}
use keylens.Base.Split.{split, split-injective}
use keylens.Conn.Kind.{Kind}
use keylens.Ui.Tree.{
  separator, Node, node, get, entry, count_key, descend, find_from, holds_key, KeyTree, contains,
  find, insert_with_kind, len,
}
use keylens.Ui.Tree.Shape.{IsCounted, or_default, get-entry_self, get-entry_ne}
use keylens.Ui.Tree.Counts.{
  IsValid, find_from-or_default, get-IsCounted, insert_with_kind-IsValid, len-insert_with_kind,
}

find_from-descend_self :
    (ss : List Text) (kd : Option Kind) (nd : Node)
    → IsCounted nd
    → holds_key (find_from ss (descend ss kd (count_key nd))) ≡ true
unfolding descend IsCounted
find_from-descend_self [] kd (node cs k kd' n) h = unfold find_from in refl
find_from-descend_self (s ∷ ss) kd (node cs k kd' n) h =
    let f = λ (c : Node). descend ss kd (count_key c) in
    let found =
      find_from-or_default s ss (entry s f cs) k kd' (n + 1)
      ∙ ap (λ o. holds_key (find_from ss (or_default o))) (get-entry_self s f cs h.1) in
    found ∙ find_from-descend_self ss kd (or_default (get s cs)) (get-IsCounted s cs h.2)

find_from-descend_ne :
    (ss us : List Text) (kd : Option Kind) (nd : Node)
    → IsCounted nd
    → ss ≢ us
    → holds_key (find_from us (descend ss kd (count_key nd))) ≡ holds_key (find_from us nd)
unfolding descend IsCounted
find_from-descend_ne [] [] kd (node cs k kd' n) h ne = absurd (ne refl)
find_from-descend_ne [] (u ∷ us) kd (node cs k kd' n) h ne = unfold find_from in refl
find_from-descend_ne (s ∷ ss) [] kd (node cs k kd' n) h ne = unfold find_from in refl
find_from-descend_ne (s ∷ ss) (u ∷ us) kd (node cs k kd' n) h ne =
    let f = λ (c : Node). descend ss kd (count_key c) in
    let read = λ (o : Option Node). holds_key (find_from us (or_default o)) in
    let to = find_from-or_default u us (entry s f cs) k kd' (n + 1) in
    let from = sym (find_from-or_default u us cs k kd' n) in
    elim (Bool-cases (text_eq u s)) [
      | inr other ↦ to ∙ ap read (get-entry_ne s u f cs other) ∙ from
      | inl same ↦
          let e : u ≡ s = (text_eq_iff u s).0 same in
          let hit : read (get u (entry s f cs)) ≡ read (some (f (or_default (get s cs)))) =
            ap (λ w. read (get w (entry s f cs))) e ∙ ap read (get-entry_self s f cs h.1) in
          let step =
            find_from-descend_ne ss us kd (or_default (get s cs)) (get-IsCounted s cs h.2)
              (λ p. ne (cc)) in
          to ∙ hit ∙ step ∙ ap (λ w. read (get w cs)) (sym e) ∙ from
    ]

contains-insert_self :
    (key : Text) (kd : Option Kind) (t : KeyTree)
    → IsValid t
    → is_empty key ≡ false
    → contains key (insert_with_kind key kd t) ≡ true
unfolding insert_with_kind
contains-insert_self key kd t v full = elim (Bool-cases (contains key t)) [
  | inl old ↦ rw (full, old, insert_with_kind) old
  | inr fresh ↦
      rw (full, fresh)
        (unfold contains find in find_from-descend_self (split separator key) kd t.root v.counted)
]

contains-insert_ne :
    (key : Text) (kd : Option Kind) (t : KeyTree) (other : Text)
    → IsValid t
    → key ≢ other
    → contains other (insert_with_kind key kd t) ≡ contains other t
unfolding insert_with_kind
contains-insert_ne key kd t other v ne = elim (Bool-cases (is_empty key)) [
  | inl blank ↦ rw blank
  | inr full ↦ elim (Bool-cases (contains key t)) [
    | inl old ↦ rw (full, old)
    | inr fresh ↦
        rw (full, fresh)
          (unfold contains find in
            find_from-descend_ne (split separator key) (split separator other) kd t.root v.counted
              (λ e. ne (split-injective separator key other e)))
  ]
]

-- After an insertion the tree contains what it contained before and, unless it is the empty text,
-- the inserted key; nothing else.
pub contains-insert_with_kind :
    (key : Text) (kd : Option Kind) (t : KeyTree) (other : Text)
    → IsValid t
    → contains other (insert_with_kind key kd t)
      ≡ (not (is_empty key) && text_eq key other || contains other t)
unfolding insert_with_kind
contains-insert_with_kind [] kd t other v = refl
contains-insert_with_kind (c ∷ cs) kd t other v = ground (
  arith,
  text_eq_iff (c ∷ cs) other,
  contains-insert_self (c ∷ cs) kd t v refl,
  contains-insert_ne (c ∷ cs) kd t other v,
)

-- The keys of a scan, inserted one after the other (`for (key, kind) in keys`).
unfoldable pub insert_all : List (Text × Option Kind) → KeyTree → KeyTree
insert_all [] t = t
insert_all ((key, kd) ∷ keys) t = insert_all keys (insert_with_kind key kd t)

-- The keys of a scan as a set: the empty text is no key.
abbrev pub scanned : Text → List (Text × Option Kind) → Bool
scanned other [] = false
scanned other ((key, kd) ∷ keys) = not (is_empty key) && text_eq key other || scanned other keys

pub insert_all-IsValid :
    (keys : List (Text × Option Kind)) (t : KeyTree) → IsValid t → IsValid (insert_all keys t)
unfolding insert_all
insert_all-IsValid [] t v = v
insert_all-IsValid ((key, kd) ∷ keys) t v =
    insert_all-IsValid keys (insert_with_kind key kd t) (insert_with_kind-IsValid key kd t v)

-- A tree filled from a scan contains what it contained before and the keys of the scan, in whatever
-- order and however often `SCAN` returned them.
pub contains-insert_all :
    (keys : List (Text × Option Kind)) (t : KeyTree) (other : Text)
    → IsValid t
    → contains other (insert_all keys t) ≡ (scanned other keys || contains other t)
unfolding insert_all
contains-insert_all [] t other v = refl
contains-insert_all ((key, kd) ∷ keys) t other v = ground (
  arith,
  contains-insert_all keys (insert_with_kind key kd t) other (insert_with_kind-IsValid key kd t v),
  contains-insert_with_kind key kd t other v,
)

insert_known :
    (key : Text) (kd : Option Kind) (t : KeyTree)
    → contains key t ≡ true
    → insert_with_kind key kd t ≡ t
unfolding insert_with_kind
insert_known key kd t h = ground arith

-- Inserting a key again, with whatever kind, changes nothing.
pub insert_with_kind_again :
    (key : Text) (kd kd' : Option Kind) (t : KeyTree)
    → IsValid t
    → insert_with_kind key kd' (insert_with_kind key kd t) ≡ insert_with_kind key kd t
insert_with_kind_again [] kd kd' t v = unfold insert_with_kind in refl
insert_with_kind_again (c ∷ cs) kd kd' t v =
    insert_known (c ∷ cs) kd' _ (contains-insert_self (c ∷ cs) kd t v refl)

-- How many keys of a scan are new to a set of keys, each counted once.
abbrev pub new_keys : List (Text × Option Kind) → (Text → Bool) → ℕ
new_keys [] known = 0
new_keys ((key, kd) ∷ keys) known =
    (if is_empty key || known key then 0 else 1)
    + new_keys keys (λ other. not (is_empty key) && text_eq key other || known other)

-- The total counts every distinct key once, however often `SCAN` returned it.
pub len-insert_all :
    (keys : List (Text × Option Kind)) (t : KeyTree)
    → IsValid t
    → len (insert_all keys t) ≡ len t + new_keys keys (λ other. contains other t)
unfolding insert_all
len-insert_all [] t v = omega arith
len-insert_all ((key, kd) ∷ keys) t v =
    let t' = insert_with_kind key kd t in
    let ih = len-insert_all keys t' (insert_with_kind-IsValid key kd t v) in
    let same = ap (new_keys keys) (fun_ext (λ other. contains-insert_with_kind key kd t other v)) in
    ground (arith, ih, same, len-insert_with_kind key kd t)
