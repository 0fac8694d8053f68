-- ===== src/Floats.antt =====
-- Python's `float`, which the source uses and does not implement: a type with the operations that
-- the code calls, and, apart from it, the laws that a theorem may ask of them.
use ninja_validator.Base.{ℕ, Bool, List}

pub record Floats : Type 1 where
  pub Float : Type 0
  pub nought : Float  -- 0.0
  pub unit : Float  -- 1.0
  pub of_int : ℕ → Float  -- `float(n)`
  pub add : Float → Float → Float
  pub sub : Float → Float → Float
  pub mul : Float → Float → Float
  pub div : Float → Float → Float
  pub ratio : ℕ → ℕ → Float  -- `a / b` of two ints, b not 0
  pub sum : List Float → Float  -- the built-in `sum`
  pub to_int : Float → ℕ  -- `int(x)`, x not below 0
  pub is_finite : Float → Bool
  pub lt : Float → Float → Bool
  pub le : Float → Float → Bool
