-- ===== src/BullMq/Events/Window.antt =====
-- `Series::window` shows each second of the window, and nothing else.
use keylens.Base.{
  ℕ, zero, suc, ◌+◌, ◌<◌, ◌≡◌, refl, sym, ap, ◌∙◌, Bool, true, false, ◌&&◌, List, [], ◌∷◌, some,
  arith, if◌then◌else◌, length, get_elem?, set, replicate, All, Bool-cases, inl, inr, length-set,
  get_elem?-set_self, get_elem?-set_ne, length-replicate, subst,
}
use keylens.Base.Int.{
  ℤ, pos, ◌+ℤ◌, ◌-ℤ◌, ◌<ℤ◌, ◌≤ℤ◌, leb_ℤ, eq_ℤ, eq_ℤ_iff, pos_part, neg_part, to_ℕ, to_ℕ-sub,
  int_laws,
}
use keylens.BullMq.Events.{Bucket, empty_bucket, Series, fill, window}
use keylens.BullMq.Events.Order.{IsAscending}
use keylens.BullMq.Events.History.{bucket_at, IsValid}

abbrev has_bucket : ℤ → List Bucket → Bool
has_bucket q [] = false
has_bucket q (b ∷ bs) = if eq_ℤ b.second q then true else has_bucket q bs

has_bucket_before :
    (q : ℤ) (bs : List Bucket) → All (λ c. q <ℤ c.second) bs → has_bucket q bs ≡ false
has_bucket_before q [] h = refl
has_bucket_before q (b ∷ bs) h = ground (arith, has_bucket_before q bs h.1)

module _ (start now : ℤ) (pick : Bucket → ℕ) where
  -- The write of one bucket.
  abbrev written : Bucket → List ℕ → List ℕ
  written b out =
      if leb_ℤ start b.second && leb_ℤ b.second now
      then set out (to_ℕ (b.second -ℤ start)) (pick b)
      else out

  length-written : (b : Bucket) (out : List ℕ) → length (written b out) ≡ length out
  length-written b out = ground (arith, length-set out (to_ℕ (b.second -ℤ start)) (pick b))

  length-fill : (bs : List Bucket) (out : List ℕ) → length (fill start now pick bs out) ≡ length out
  unfolding fill
  length-fill [] out = refl
  length-fill (b ∷ bs) out = length-fill bs (written b out) ∙ length-written b out

  module _ (q : ℤ) (i : ℕ) (at : pos_part q + neg_part start ≡ pos_part start + neg_part q + i)
      (late : leb_ℤ q now ≡ true) where
    written_here :
        (b : Bucket) (out : List ℕ)
        → i < length out
        → eq_ℤ b.second q ≡ true
        → get_elem? (written b out) i ≡ some (pick b)
    written_here b out l e =
        ground (arith, to_ℕ-sub b.second start, get_elem?-set_self out i (pick b) l)

    written_elsewhere :
        (b : Bucket) (out : List ℕ)
        → eq_ℤ b.second q ≡ false
        → get_elem? (written b out) i ≡ get_elem? out i
    written_elsewhere b out e = ground (
      arith,
      to_ℕ-sub b.second start,
      get_elem?-set_ne out {i = to_ℕ (b.second -ℤ start)} {j = i} (pick b),
    )

    get_elem?-fill :
        (bs : List Bucket) (out : List ℕ)
        → IsAscending bs
        → i < length out
        → get_elem? (fill start now pick bs out) i
          ≡ (if has_bucket q bs then some (pick (bucket_at q bs)) else get_elem? out i)
    unfolding fill
    get_elem?-fill [] out h l = refl
    get_elem?-fill (b ∷ bs) out h l =
        let ih = get_elem?-fill bs (written b out) h.1 (rw (length-written b out) l) in
        elim (Bool-cases (eq_ℤ b.second q)) [
          | inl e ↦
              let none_after =
                has_bucket_before q bs
                  (subst (λ u. All (λ c. u <ℤ c.second) bs) ((eq_ℤ_iff b.second q).0 e) h.0) in
              rw e (ih ∙ rw none_after (written_here b out l e))
          | inr e ↦ rw e (
              ih
              ∙ ap (λ x. if has_bucket q bs then some (pick (bucket_at q bs)) else x)
                  (written_elsewhere b out e))
        ]

get_elem?-replicate : (n i : ℕ) (v : ℕ) → i < n → get_elem? (replicate n v) i ≡ some v
get_elem?-replicate zero i v h = absurd (omega arith)
get_elem?-replicate (suc n) zero v h = refl
get_elem?-replicate (suc n) (suc i) v h = get_elem?-replicate n i v (omega arith)

bucket_at_missing :
    (q : ℤ) (bs : List Bucket) → has_bucket q bs ≡ false → bucket_at q bs ≡ empty_bucket q
bucket_at_missing q [] h = refl
bucket_at_missing q (b ∷ bs) h = ground (arith, bucket_at_missing q bs)

-- The `i`-th second of a window of `width` seconds that ends at `now`.
abbrev pub second_of : ℤ → ℕ → ℕ → ℤ
second_of now width i = now -ℤ pos width +ℤ pos 1 +ℤ pos i

shown :
    (q : ℤ) (i n : ℕ) (pick : Bucket → ℕ) (bs : List Bucket)
    → i < n
    → ((s : ℤ) → pick (empty_bucket s) ≡ 0)
    → (if has_bucket q bs then some (pick (bucket_at q bs)) else get_elem? (replicate n 0) i)
      ≡ some (pick (bucket_at q bs))
shown q i n pick bs h blank = elim (Bool-cases (has_bucket q bs)) [
  | inl e ↦ rw e
  | inr e ↦
      rw e
        (get_elem?-replicate n i 0 h ∙ ap some (sym (ap pick (bucket_at_missing q bs e) ∙ blank q)))
]

not_later : (a b : ℤ) → a ≤ℤ b → leb_ℤ a b ≡ true
not_later a b h = ground arith

-- The window has `width` cells, and each holds the count of its second: 0 where the series keeps no
-- bucket, whatever the counter read, as long as it reads 0 off an empty bucket.
pub window_exact :
    (now : ℤ) (width : ℕ) (pick : Bucket → ℕ) (r : Series)
    → IsValid r
    → ((s : ℤ) → pick (empty_bucket s) ≡ 0)
    → (length (window now width pick r) ≡ width)
      × ((i : ℕ)
          → i < width
          → get_elem? (window now width pick r) i
            ≡ some (pick (bucket_at (second_of now width i) r.buckets)))
unfolding window
window_exact now zero pick r v blank = (refl, λ i h. absurd (omega arith))
window_exact now (suc width) pick r v blank =
    let start = now -ℤ pos (suc width) +ℤ pos 1 in
    let out : List ℕ = replicate (suc width) 0 in
    (
      length-fill start now pick r.buckets out ∙ length-replicate (suc width) 0,
      λ i h.
          let q = start +ℤ pos i in
          get_elem?-fill start now pick q i (omega int_laws) (not_later q now (omega int_laws))
            r.buckets out v.ascending (rw (length-replicate {A = ℕ} (suc width) 0) h)
          ∙ shown q i (suc width) pick r.buckets h blank,
    )
