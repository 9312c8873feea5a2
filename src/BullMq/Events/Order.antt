-- ===== src/BullMq/Events/Order.antt =====
-- The buckets of a series in order, and `Series::record` as an insertion into them.
use keylens.Base.{
  ℕ, ◌≡◌, refl, true, List, [], ◌∷◌, none, some, arith, if◌then◌else◌, All, Option-cases,
  Bool-cases, subst, sym, inl, inr,
}
use keylens.Base.Int.{ℤ, ◌<ℤ◌, leb_ℤ, ltb_ℤ, eq_ℤ}
use keylens.BullMq.Events.{EventKind, Bucket, empty_bucket, rposition_le, place, bump, modify}

-- The seconds of the buckets strictly increase.
abbrev pub IsAscending : List Bucket → Type 0
IsAscending [] = Unit
IsAscending (b ∷ bs) = All (λ c. b.second <ℤ c.second) bs × IsAscending bs

-- The buckets with one event added: the step of `record` between the guard and the `while` loop.
unfoldable pub touched : EventKind → ℤ → List Bucket → List Bucket
unfolding rposition_le place
touched k s bs = let (cs, i) = place s (rposition_le s bs) bs in modify i (bump k) cs

-- The same as an ordered insertion, without indices.
unfoldable pub ordered_touch : EventKind → ℤ → List Bucket → List Bucket
ordered_touch k s [] = bump k (empty_bucket s) ∷ []
ordered_touch k s (b ∷ bs) =
    if ltb_ℤ b.second s
    then b ∷ ordered_touch k s bs
    else if eq_ℤ b.second s
    then bump k b ∷ bs
    else bump k (empty_bucket s) ∷ b ∷ bs

rposition_none :
    (s : ℤ) (b : Bucket) (bs : List Bucket)
    → All (λ c. b.second <ℤ c.second) bs
    → leb_ℤ s b.second ≡ true
    → rposition_le s bs ≡ none
unfolding rposition_le
rposition_none s b [] h l = refl
rposition_none s b (c ∷ bs) h l = ground (arith, rposition_none s b bs h.1 l)

-- Where no bucket is at or before the second, it goes in front.
front :
    (k : EventKind) (s : ℤ) (bs : List Bucket)
    → rposition_le s bs ≡ none
    → ordered_touch k s bs ≡ bump k (empty_bucket s) ∷ bs
unfolding rposition_le ordered_touch
front k s [] h = refl
front k s (c ∷ bs) h = ground arith

touched_step :
    (k : EventKind) (s : ℤ) (b : Bucket) (bs : List Bucket) (i : ℕ)
    → rposition_le s bs ≡ some i
    → touched k s (b ∷ bs) ≡ b ∷ touched k s bs
unfolding touched
touched_step k s b bs i h = ground arith

touched_among :
    (k : EventKind) (s : ℤ) (b : Bucket) (bs : List Bucket) (i : ℕ)
    → All (λ c. b.second <ℤ c.second) bs
    → rposition_le s bs ≡ some i
    → touched k s bs ≡ ordered_touch k s bs
    → touched k s (b ∷ bs) ≡ ordered_touch k s (b ∷ bs)
unfolding ordered_touch
touched_among k s b bs i h e ih = ground (arith, touched_step k s b bs i e, rposition_none s b bs h)

touched_last :
    (k : EventKind) (s : ℤ) (b : Bucket) (bs : List Bucket)
    → rposition_le s bs ≡ none
    → touched k s (b ∷ bs) ≡ ordered_touch k s (b ∷ bs)
unfolding touched ordered_touch
touched_last k s b bs e = ground (arith, front k s bs e)

-- The indices of `record` compute the ordered insertion.
pub touched-eq-ordered_touch :
    (k : EventKind) (s : ℤ) (bs : List Bucket)
    → IsAscending bs
    → touched k s bs ≡ ordered_touch k s bs
touched-eq-ordered_touch k s [] h = unfold touched ordered_touch in refl
touched-eq-ordered_touch k s (b ∷ bs) h = elim (Option-cases (rposition_le s bs)) [
  | inr (i, e) ↦ touched_among k s b bs i h.0 e (touched-eq-ordered_touch k s bs h.1)
  | inl e ↦ touched_last k s b bs e
]

pub bump-second : (k : EventKind) (b : Bucket) → (bump k b).second ≡ b.second
unfolding bump
bump-second k b = ground arith

-- Insertion keeps the order.
All-ordered_touch :
    (P : ℤ → Type 0) (k : EventKind) (s : ℤ) (bs : List Bucket)
    → P s
    → All (λ c. P c.second) bs
    → All (λ c. P c.second) (ordered_touch k s bs)
unfolding ordered_touch
All-ordered_touch P k s [] p h = (rw bump-second p, tt)
All-ordered_touch P k s (b ∷ bs) p h = elim (Bool-cases (ltb_ℤ b.second s)) [
  | inl e ↦ rw e (h.0, All-ordered_touch P k s bs p h.1)
  | inr e ↦ elim (Bool-cases (eq_ℤ b.second s)) [
    | inl f ↦ rw (e, f) (rw bump-second h.0, h.1)
    | inr f ↦ rw (e, f) (rw bump-second p, h)
  ]
]

pub All-lt_trans :
    (s t : ℤ) (bs : List Bucket)
    → s <ℤ t
    → All (λ c. t <ℤ c.second) bs
    → All (λ c. s <ℤ c.second) bs
All-lt_trans s t [] l h = tt
All-lt_trans s t (b ∷ bs) l h = (omega arith, All-lt_trans s t bs l h.1)

after_bump :
    (k : EventKind) (b : Bucket) (bs : List Bucket)
    → All (λ c. b.second <ℤ c.second) bs
    → All (λ c. (bump k b).second <ℤ c.second) bs
after_bump k b bs h = subst (λ u. All (λ c. u <ℤ c.second) bs) (sym (bump-second k b)) h

pub ordered_touch-IsAscending :
    (k : EventKind) (s : ℤ) (bs : List Bucket) → IsAscending bs → IsAscending (ordered_touch k s bs)
unfolding ordered_touch
ordered_touch-IsAscending k s [] h = (tt, tt)
ordered_touch-IsAscending k s (b ∷ bs) h = elim (Bool-cases (ltb_ℤ b.second s)) [
  | inl e ↦ rw e (
    All-ordered_touch (λ u. b.second <ℤ u) k s bs (ground arith) h.0,
    ordered_touch-IsAscending k s bs h.1,
  )
  | inr e ↦ elim (Bool-cases (eq_ℤ b.second s)) [
    | inl f ↦ rw (e, f) (after_bump k b bs h.0, h.1)
    | inr f ↦
        rw (e, f)
          (
            after_bump k (empty_bucket s) (b ∷ bs)
                (ground arith, All-lt_trans s b.second bs (ground arith) h.0),
            h,
          )
  ]
]
