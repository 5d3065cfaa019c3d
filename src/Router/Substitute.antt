-- ===== src/Router/Substitute.antt =====
-- `apply_substitute`: the routing of a layer re-ranked toward the experts that are resident.
use meitte.Base.{
  ℕ, zero, suc, ◌+◌, Bool, ◌&&◌, ◌||◌, not, List, [], ◌∷◌, Option, none, some, if◌then◌else◌, ◌==◌,
  leb, length, ℤ, map, elem, pos, index_below,
}
use meitte.Cache.{Shape, Cache}
use meitte.Cache.Entry.{query_residency}
use meitte.Prefetch.Settle.{settle_spec}
use meitte.Router.Defs.{Floats}
use meitte.Router.Rank.{rank_top_k}
use meitte.Router.Drop.{code_of}

-- How many of the picked experts the routing did not have.
unfoldable pub newcomers : List ℕ → List ℕ → ℕ
newcomers ids [] = 0
newcomers ids (e ∷ es) = (if elem e ids then 0 else 1) + newcomers ids es

-- The code of one expert, as the query for all of them answers it.
unfoldable pub resident_code : Shape → Cache → ℤ → ℕ → ℕ
resident_code s c il e = code_of (query_residency s c il (pos e ∷ []))

module _ (fl : Floats) where
  open fl use {Float, add, sub, mul, log, minus_infinity, is_finite, lt}

  -- One score as it is ranked: behind a softmax its logarithm.
  unfoldable pub sub_score : Bool → Float → Float
  sub_score log_space v = if log_space then if lt fl.zero v then log v else minus_infinity else v

  unfoldable pub widen : Float → Option (Float × Float) → Option (Float × Float)
  widen v o =
      if is_finite v
      then elim o [
        | none ↦ some (v, v)
        | some r ↦ some (if lt v r.0 then v else r.0, if lt r.1 v then v else r.1)
      ]
      else o

  -- The lowest and the highest finite score below `n`; `none` is `any == false`.
  unfoldable pub score_range : (ℕ → Float) → ℕ → Option (Float × Float)
  unfolding widen
  score_range v zero = none
  score_range v (suc n) = widen (v n) (score_range v n)

  unfoldable pub boost_of : Float → Option (Float × Float) → Float
  boost_of lambda none = fl.zero
  boost_of lambda (some r) = mul lambda (sub r.1 r.0)

  -- `sub_scores_` after the residents are raised.
  unfoldable pub boosted : (ℕ → Float) → (ℕ → ℕ) → Float → ℕ → Float
  boosted v res boost e = if not (res e == 0) && is_finite (v e) then add (v e) boost else v e

  -- One token after the substitution, with what it adds to the two counters.
  pub record Reranked : Type 0 where
    pub ids : List ℕ
    pub reranked : ℕ
    pub substituted : ℕ

  unfoldable pub take_pick : ℕ → List ℕ → List ℕ → Reranked
  unfolding newcomers
  take_pick nu ids pick =
      if length pick == nu
      then if newcomers ids pick == 0
        then record { ids = ids; reranked = nu; substituted = 0 }
        else record { ids = pick; reranked = nu; substituted = newcomers ids pick }
      else record { ids = ids; reranked = 0; substituted = 0 }

  -- A token's routing: the row of scores that the graph sorted, and the ids it chose.
  pub record Routing : Type 0 where
    pub scores : ℕ → Float
    pub ids : List ℕ

  unfoldable pub substitute_row : Float → Bool → (ℕ → ℕ) → ℕ → ℕ → Routing → Reranked
  unfolding sub_score score_range boost_of boosted take_pick
  substitute_row lambda log_space res ne nu r =
      let v : ℕ → Float = λ e. sub_score log_space (r.scores e) in
      let boost = boost_of lambda (score_range v ne) in
      if lt fl.zero boost
      then take_pick nu r.ids (rank_top_k fl (boosted v res boost) ne nu)
      else record { ids = r.ids; reranked = 0; substituted = 0 }

  -- The tensor that the ids were sorted from, as the walk over the graph finds it.
  pub record Sorted : Type 0 where
    pub ne : ℕ
    pub log_space : Bool

  unfoldable pub kept_row : Routing → Reranked
  kept_row r = record { ids = r.ids; reranked = 0; substituted = 0 }

  unfoldable pub sub_rows :
      Float → Bool → Shape → ℤ → ℕ → Sorted → List Routing → Cache → Cache × List Reranked
  unfolding substitute_row resident_code
  sub_rows lambda adopt s il nu t rows c =
      let settled = settle_spec adopt s c in
      (
        settled,
        map (λ r. substitute_row lambda t.log_space (resident_code s settled il) t.ne nu r) rows,
      )

  unfoldable pub sub_at :
      Float
      → Bool
      → Shape
      → ℤ
      → ℕ
      → Sorted
      → List Routing
      → Cache
      → Option ℕ
      → Cache × List Reranked
  unfolding sub_rows kept_row
  sub_at lambda adopt s il nu t rows c none = (c, map kept_row rows)
  sub_at lambda adopt s il nu t rows c (some l) =
      if nu == 0 || length rows == 0 || leb t.ne nu
      then (c, map kept_row rows)
      else sub_rows lambda adopt s il nu t rows c

  -- `n_layer` is the hook's own count; `none` is a graph in which the walk finds no tensor of scores of
  -- the type and the rows that it demands.
  unfoldable pub apply_substitute :
      Float
      → Bool
      → ℕ
      → Shape
      → ℤ
      → ℕ
      → Option Sorted
      → List Routing
      → Cache
      → Cache × List Reranked
  unfolding sub_at kept_row
  apply_substitute lambda adopt n_layer s il nu none rows c = (c, map kept_row rows)
  apply_substitute lambda adopt n_layer s il nu (some t) rows c =
      sub_at lambda adopt s il nu t rows c (index_below n_layer il)
