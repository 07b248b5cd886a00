-- ===== src/Config/Floats.antt =====
-- What the configuration uses of double and std::stod.
use drogon_api_starter.Prelude.{ℕ, String, Bool, Option}

pub record Doubles : Type 1 where
  pub Double : Type 0
  -- a decimal literal, in tenths
  pub tenths : ℕ → Double
  -- `none` where std::stod throws
  pub stod : String → Option Double
  -- the comparisons `<=` and `>`, both false on a NaN
  pub le : Double → Double → Bool
  pub gt : Double → Double → Bool
