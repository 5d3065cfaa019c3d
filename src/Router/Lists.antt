-- ===== src/Router/Lists.antt =====
-- `build_spec_lists`: from the scores of a coming layer, the experts to prefetch and those to retain.
use meitte.Base.{ℕ, suc, Bool, ◌&&◌, not, List, [], ◌∷◌, ◌++◌, if◌then◌else◌, ◌==◌, ltb, length}
use meitte.Router.Defs.{Floats}
use meitte.Router.Rank.{rank_top_k}

module _ (fl : Floats) where
  open fl use {Float, of_nat, add, sub, div, exp, lt, le}

  -- The highest score, from the first on.
  unfoldable pub max_score : (ℕ → Float) → List ℕ → Float → Float
  max_score scores [] mx = mx
  max_score scores (e ∷ es) mx = max_score scores es (if lt mx (scores e) then scores e else mx)

  unfoldable pub sum_exp : (ℕ → Float) → Float → List ℕ → Float → Float
  sum_exp scores mx [] sum = sum
  sum_exp scores mx (e ∷ es) sum = sum_exp scores mx es (add sum (exp (sub (scores e) mx)))

  -- `predicted` are the ids before their split; the two lists are what was pushed so far.
  pub record SpecLists : Type 0 where
    pub spec : List ℕ
    pub keep : List ℕ

  -- The drop policy would not read it: `k != 0 && drop_frac > 0 && !(sum > 0 && w[k] / sum >= thr)`.
  unfoldable pub too_cold : Float → Float → Float → Float → ℕ → Bool
  too_cold drop_frac thr sum w k =
      not (k == 0) && lt fl.zero drop_frac && not (lt fl.zero sum && le thr (div w sum))

  -- `resident` has an entry for each expert below `size`: 0 is a miss.
  unfoldable pub push_id : (ℕ → ℕ) → ℕ → ℕ → ℕ → SpecLists → SpecLists
  push_id resident size spec_max e t =
      if ltb e size && not (resident e == 0)
      then record t { keep = t.keep ++ e ∷ [] }
      else if ltb (length t.spec) spec_max
      then record t { spec = t.spec ++ e ∷ [] }
      else t

  unfoldable pub split_ids :
      (ℕ → Float)
      → Float
      → Float
      → Float
      → Float
      → (ℕ → ℕ)
      → ℕ
      → ℕ
      → ℕ
      → List ℕ
      → SpecLists
      → SpecLists
  unfolding push_id too_cold
  split_ids scores mx sum drop_frac thr resident size spec_max k [] t = t
  split_ids scores mx sum drop_frac thr resident size spec_max k (e ∷ es) t =
      split_ids scores mx sum drop_frac thr resident size spec_max (suc k) es (
        if too_cold drop_frac thr sum (exp (sub (scores e) mx)) k
        then t
        else push_id resident size spec_max e t)

  -- The scores of the first id, with which the search for the highest begins.
  abbrev pub first_score : (ℕ → Float) → List ℕ → Float
  first_score scores [] = fl.zero
  first_score scores (e ∷ es) = scores e

  -- `n` scores, a routing of `nu` experts; with fewer scores than that both lists stay empty.
  unfoldable pub build_spec_lists : (ℕ → Float) → ℕ → ℕ → Float → ℕ → (ℕ → ℕ) → ℕ → SpecLists
  unfolding rank_top_k max_score sum_exp split_ids
  build_spec_lists scores n nu drop_frac spec_max resident size =
      let pred = rank_top_k fl scores n nu in
      let mx = max_score scores pred (first_score scores pred) in
      let sum = sum_exp scores mx pred fl.zero in
      let thr = if lt fl.zero drop_frac then div drop_frac (of_nat nu) else fl.zero in
      if ltb (length pred) nu
      then record { spec = []; keep = [] }
      else split_ids scores mx sum drop_frac thr resident size spec_max 0 pred
          (record { spec = []; keep = [] })
