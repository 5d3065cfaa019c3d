-- ===== src/Router/Rank.antt =====
-- `rank_top_k`: the best scores, one after another, with ties to the lower index.
use meitte.Base.{ℕ, zero, suc, min, List, [], ◌∷◌, ◌++◌, Option, none, some, if◌then◌else◌, elem}
use meitte.Router.Defs.{Floats}

module _ (fl : Floats) where
  open fl use {Float, lt}

  -- `if (best < 0 || scores[e] > scores[best]) best = e`, for an expert that is not taken.
  unfoldable pub consider : (ℕ → Float) → List ℕ → ℕ → Option ℕ → Option ℕ
  consider scores out e none = if elem e out then none else some e
  consider scores out e (some best) =
      if elem e out then some best else if lt (scores best) (scores e) then some e else some best

  -- The loop over the experts below `n`, from 0 on.
  unfoldable pub best_below : (ℕ → Float) → List ℕ → ℕ → Option ℕ
  unfolding consider
  best_below scores out zero = none
  best_below scores out (suc n) = consider scores out n (best_below scores out n)

  unfoldable pub rank_from : (ℕ → Float) → ℕ → ℕ → List ℕ → List ℕ
  unfolding best_below
  rank_from scores n zero out = out
  rank_from scores n (suc want) out = elim (best_below scores out n) [
    | none ↦ out
    | some best ↦ rank_from scores n want (out ++ best ∷ [])
  ]

  -- `n` is the number of scores.
  unfoldable pub rank_top_k : (ℕ → Float) → ℕ → ℕ → List ℕ
  unfolding rank_from
  rank_top_k scores n k = rank_from scores n (min k n) []
