-- ===== src/Router/Defs.antt =====
-- The floating-point operations that the hook calls, without a law.
use meitte.Base.{ℕ, Bool, true, false, ◌≡◌}

pub record Floats : Type 1 where
  pub Float : Type 0
  pub zero : Float
  pub of_nat : ℕ → Float
  pub add : Float → Float → Float
  pub sub : Float → Float → Float
  pub mul : Float → Float → Float
  pub div : Float → Float → Float
  pub exp : Float → Float
  pub log : Float → Float
  pub minus_infinity : Float
  pub is_finite : Float → Bool
  pub lt : Float → Float → Bool
  pub le : Float → Float → Bool

-- What `<` gives on values that are numbers: it orders them up to ties.
pub record IsOrdered (fl : Floats) : Type 0 where
  pub irrefl : (a : fl.Float) → fl.lt a a ≡ false
  pub asym : (a b : fl.Float) → fl.lt a b ≡ true → fl.lt b a ≡ false
  pub weak : (a b c : fl.Float) → fl.lt a b ≡ false → fl.lt b c ≡ false → fl.lt a c ≡ false

-- A sum with a positive number is not below the other one.
abbrev pub Grows : Floats → Type 0
Grows fl = (a b : fl.Float) → fl.lt fl.zero b ≡ true → fl.lt (fl.add a b) a ≡ false
