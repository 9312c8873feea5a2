-- ===== src/Reader/Backoff.antt =====
-- The delays between failed reads.
use keylens.Base.{ℕ, zero, suc, ◌*◌, ◌≤◌, ◌≡◌, refl, min, arith, ◌∙◌, ap, sym}
use keylens.Reader.{retry_delay, retry_base, retry_max}

capped : (f : ℕ) → retry_delay (suc (suc (suc (suc (suc f))))) ≡ retry_max
unfolding retry_delay
capped f = let five : min (suc (suc (suc (suc (suc f))))) 5 ≡ 5 = omega arith in rw five refl

doubled : (f : ℕ) → retry_delay (suc (suc f)) ≡ min (2 * retry_delay (suc f)) retry_max
unfolding retry_delay
doubled zero = refl
doubled (suc zero) = refl
doubled (suc (suc zero)) = refl
doubled (suc (suc (suc zero))) = refl
doubled (suc (suc (suc (suc f)))) =
    capped (suc f) ∙ sym (ap (λ d. min (2 * d) retry_max) (capped f))

at_most : (f : ℕ) → retry_delay f ≤ retry_max
unfolding retry_delay
at_most f = omega arith

-- The first delay is the base; each further failure doubles it, up to the maximum, which no delay
-- exceeds and from which it does not fall again.
pub retry_delay_doubles :
    (f : ℕ)
    → (retry_delay 1 ≡ retry_base)
      × (retry_delay (suc (suc f)) ≡ min (2 * retry_delay (suc f)) retry_max)
      × (retry_delay f ≤ retry_max)
unfolding retry_delay
retry_delay_doubles f = (refl, doubled f, at_most f)
