-- ===== src/Lens.antt =====
-- `Confidence` and `Detection` of crates/keylens-lens/src/lib.rs.
use keylens.Base.{List, Option}
use keylens.Base.Text.{Text}

-- `enum Confidence`
pub data Confidence : Type 0 where
  weak likely certain : Confidence

-- `struct Detection`
pub record Detection : Type 0 where
  pub lens_id : Text
  pub confidence : Confidence
  pub version : Option Text
  pub prefix : Text
  pub summary : Text
  pub targets : List Text
