-- ===== src/Conn/Stream/Stuck.antt =====
-- The consumers that are stuck.
use keylens.Base.{List, [], ◌∷◌, arith, if◌then◌else◌, ltb, All, Bool-cases, inl, inr}
use mathlib.Core.List.{Perm}
use mathlib.Core.List.Perm
use keylens.Base.Int.{◌≤ℤ◌, leb_ℤ}
use keylens.Conn.Reply.{GroupInfo, ConsumerInfo}
use keylens.Conn.Stream.{insert_by_idle, stuck, stuck_consumers}

-- Longest idle first.
abbrev pub IsWorstFirst : List ConsumerInfo → Type 0
IsWorstFirst [] = Unit
IsWorstFirst (c ∷ cs) = All (λ d. d.idle_ms ≤ℤ c.idle_ms) cs × IsWorstFirst cs

All-le :
    (c d : ConsumerInfo) (cs : List ConsumerInfo)
    → c.idle_ms ≤ℤ d.idle_ms
    → All (λ e. e.idle_ms ≤ℤ c.idle_ms) cs
    → All (λ e. e.idle_ms ≤ℤ d.idle_ms) cs
All-le c d [] h a = tt
All-le c d (e ∷ cs) h a = (omega (arith, a.0), All-le c d cs h a.1)

insert-All :
    (c d : ConsumerInfo) (cs : List ConsumerInfo)
    → c.idle_ms ≤ℤ d.idle_ms
    → All (λ e. e.idle_ms ≤ℤ d.idle_ms) cs
    → All (λ e. e.idle_ms ≤ℤ d.idle_ms) (insert_by_idle c cs)
unfolding insert_by_idle
insert-All c d [] h a = (h, tt)
insert-All c d (e ∷ cs) h a = elim (Bool-cases (leb_ℤ e.idle_ms c.idle_ms)) [
  | inl t ↦ rw t (h, a)
  | inr t ↦ rw t (a.0, insert-All c d cs h a.1)
]

insert-IsWorstFirst :
    (c : ConsumerInfo) (cs : List ConsumerInfo)
    → IsWorstFirst cs
    → IsWorstFirst (insert_by_idle c cs)
unfolding insert_by_idle
insert-IsWorstFirst c [] s = (tt, tt)
insert-IsWorstFirst c (d ∷ cs) s = elim (Bool-cases (leb_ℤ d.idle_ms c.idle_ms)) [
  | inl t ↦ let le : d.idle_ms ≤ℤ c.idle_ms = ground arith in rw t ((le, All-le d c cs le s.0), s)
  | inr t ↦
      let le : c.idle_ms ≤ℤ d.idle_ms = ground arith in
      rw t (insert-All c d cs le s.0, insert-IsWorstFirst c cs s.1)
]

insert-perm : (c : ConsumerInfo) (cs : List ConsumerInfo) → Perm (insert_by_idle c cs) (c ∷ cs)
unfolding insert_by_idle
insert-perm c [] = Perm.refl (c ∷ [])
insert-perm c (d ∷ cs) = elim (Bool-cases (leb_ℤ d.idle_ms c.idle_ms)) [
  | inl t ↦ rw t (Perm.refl (c ∷ d ∷ cs))
  | inr t ↦ rw t (Perm.trans (Perm.cons d (insert-perm c cs)) (Perm.swap c d cs))
]

-- The consumers that hold pending entries, in the order of the group.
abbrev pub holding : List ConsumerInfo → List ConsumerInfo
holding [] = []
holding (c ∷ cs) = let rest = holding cs in if ltb 0 c.pending then c ∷ rest else rest

stuck-IsWorstFirst : (cs : List ConsumerInfo) → IsWorstFirst (stuck cs)
unfolding stuck
stuck-IsWorstFirst [] = tt
stuck-IsWorstFirst (c ∷ cs) = elim (Bool-cases (ltb 0 c.pending)) [
  | inl t ↦ rw t (insert-IsWorstFirst c (stuck cs) (stuck-IsWorstFirst cs))
  | inr t ↦ rw t (stuck-IsWorstFirst cs)
]

stuck-perm : (cs : List ConsumerInfo) → Perm (stuck cs) (holding cs)
unfolding stuck
stuck-perm [] = Perm.refl []
stuck-perm (c ∷ cs) = elim (Bool-cases (ltb 0 c.pending)) [
  | inl t ↦ rw t (Perm.trans (insert-perm c (stuck cs)) (Perm.cons c (stuck-perm cs)))
  | inr t ↦ rw t (stuck-perm cs)
]

-- The stuck consumers of a group are those that hold pending entries, each once, longest idle first.
pub stuck_consumers_lem :
    (g : GroupInfo)
    → IsWorstFirst (stuck_consumers g) × Perm (stuck_consumers g) (holding g.consumers)
unfolding stuck_consumers
stuck_consumers_lem g = (stuck-IsWorstFirst g.consumers, stuck-perm g.consumers)
