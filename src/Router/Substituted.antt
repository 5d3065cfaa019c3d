-- ===== src/Router/Substituted.antt =====
-- About `apply_substitute`: the outcome of one token, and of the whole batch.
use meitte.Base.{
  ℕ, ◌<◌, ◌≡◌, ◌⊎◌, Bool, true, false, List, [], ◌∷◌, Option, none, ◌==◌, leb, length, elem,
  Distinct, AllBelow, ◌||◌, ℤ, map,
}
use meitte.Cache.{Shape, Cache}
use meitte.Prefetch.Settle.{settle_spec}
use meitte.Cache.Invariant.{Keeps}
use meitte.Router.Defs.{Floats}
use meitte.Router.Rank.{rank_top_k}
use meitte.Router.Substitute.{
  sub_score, score_range, boost_of, boosted, newcomers, Reranked, Routing, Sorted, kept_row,
  resident_code,
}

module _ (fl : Floats) where
  -- The new routing of a token: as many experts as before, each once, at least one of them new, and
  -- one that is not resident has a score that none of those left out exceeds.
  pub record Swapped (v : ℕ → fl.Float) (res : ℕ → ℕ) (ne nu : ℕ) (old new : List ℕ) : Type 0 where
    pub once : Distinct new
    pub below : AllBelow ne new
    pub full : length new ≡ nu
    pub moved : 0 < newcomers old new
    pub better :
        (e b : ℕ)
        → elem e new ≡ true
        → res e ≡ 0
        → b < ne
        → elem b new ≡ false
        → fl.lt (v e) (v b) ≡ false

  -- A token keeps its experts, as its scores are all the same or the raised scores pick the same ones,
  -- or it has a new routing; the counter has the experts that came in.
  abbrev pub Outcome : fl.Float → Bool → (ℕ → ℕ) → ℕ → ℕ → Routing fl → Reranked fl → Type 0
  Outcome lambda log_space res ne nu r y =
      let v : ℕ → fl.Float = λ e. sub_score fl log_space (r.scores e) in
      let boost = boost_of fl lambda (score_range fl v ne) in
      ((y.ids ≡ r.ids)
        × (y.substituted ≡ 0)
        × ((fl.lt fl.zero boost ≡ false)
            ⊎ ((newcomers r.ids (rank_top_k fl (boosted fl v res boost) ne nu) == 0) ≡ true)))
      ⊎ (Swapped v res ne nu r.ids y.ids × (y.substituted ≡ newcomers r.ids y.ids))

  abbrev pub Outcomes :
      fl.Float → Bool → (ℕ → ℕ) → ℕ → ℕ → List (Routing fl) → List (Reranked fl) → Type 0
  Outcomes lambda log_space res ne nu [] [] = Unit {0}
  Outcomes lambda log_space res ne nu [] (y ∷ ys) = ⊥
  Outcomes lambda log_space res ne nu (r ∷ rs) [] = ⊥
  Outcomes lambda log_space res ne nu (r ∷ rs) (y ∷ ys) =
      Outcome lambda log_space res ne nu r y × Outcomes lambda log_space res ne nu rs ys

  -- The substitution declines, or every token has its outcome under the codes of the settled cache.
  abbrev pub Substituted :
      fl.Float
      → Bool
      → Option ℕ
      → Shape
      → ℤ
      → ℕ
      → Sorted fl
      → List (Routing fl)
      → Cache
      → Cache × List (Reranked fl)
      → Type 0
  Substituted lambda adopt o s il nu t rows c a =
      ((a ≡ (c, map (kept_row fl) rows))
        × ((o ≡ none) ⊎ ((nu == 0 || length rows == 0 || leb t.ne nu) ≡ true)))
      ⊎ (Outcomes lambda t.log_space (resident_code s a.0 il) t.ne nu rows a.1
          × (a.0 ≡ settle_spec adopt s c)
          × ((ys : List ℕ) × Keeps s a.0 ys))
