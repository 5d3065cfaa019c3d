-- ===== src/Router/Drop.antt =====
-- `apply_drop`: the routing of one token with its cold, light experts dropped.
use meitte.Base.{
  ℕ, zero, suc, Bool, true, false, ◌&&◌, ◌||◌, not, List, [], ◌∷◌, ◌++◌, if◌then◌else◌, ◌==◌,
  length, ℤ, map,
}
use meitte.Cache.{Shape, Vm, Cache}
use meitte.Cache.Entry.{query_residency}
use meitte.Prefetch.Settle.{settle_spec}
use meitte.Cache.Load.{Reads, Loaded, load_layer}
use meitte.Router.Defs.{Floats}

-- A slot of a routing: its expert, the weight that the expert matmul applies, and the residency code.
pub record Slot (fl : Floats) : Type 0 where
  pub id : ℤ
  pub weight : fl.Float
  pub res : ℕ

-- A slot after the policy; `dropped` is its place in `drop_mask_`.
pub record Edited (fl : Floats) : Type 0 where
  pub id : ℤ
  pub weight : fl.Float
  pub dropped : Bool

-- The first code of an answer; an array that no query has written has 0.
abbrev pub code_of : List ℕ → ℕ
code_of [] = 0
code_of (n ∷ ns) = n

module _ (fl : Floats) where
  open fl use {Float, of_nat, add, mul, div, lt}

  -- The place of the highest weight, the first one among equals: place `k` and the rest of the row.
  unfoldable pub best_slot : ℕ → Float → ℕ → List (Slot fl) → ℕ
  best_slot best high k [] = best
  best_slot best high k (x ∷ xs) =
      best_slot (if lt high x.weight then k else best) (if lt high x.weight then x.weight else high)
        (suc k) xs

  unfoldable pub total_weight : Float → List (Slot fl) → Float
  total_weight sum [] = sum
  total_weight sum (x ∷ xs) = total_weight (add sum x.weight) xs

  -- `k != best && drop_res_[idx] == route_miss && drop_w_[idx] < thr`.
  unfoldable pub is_dropped : ℕ → Float → ℕ → Slot fl → Bool
  is_dropped best thr k x = not (k == best) && x.res == 0 && lt x.weight thr

  unfoldable pub drop_slots : ℕ → ℤ → Float → ℕ → List (Slot fl) → List (Edited fl)
  unfolding is_dropped
  drop_slots best best_id thr k [] = []
  drop_slots best best_id thr k (x ∷ xs) =
      (if is_dropped best thr k x
        then record { id = best_id; weight = fl.zero; dropped = true }
        else record { id = x.id; weight = x.weight; dropped = false })
      ∷ drop_slots best best_id thr (suc k) xs

  unfoldable pub kept_weight : Float → List (Edited fl) → Float
  kept_weight sum [] = sum
  kept_weight sum (x ∷ xs) = kept_weight (if x.dropped then sum else add sum x.weight) xs

  abbrev pub any_dropped : List (Edited fl) → Bool
  any_dropped [] = false
  any_dropped (x ∷ xs) = x.dropped || any_dropped xs

  unfoldable pub scale_kept : Float → List (Edited fl) → List (Edited fl)
  scale_kept g [] = []
  scale_kept g (x ∷ xs) =
      (if x.dropped then x else record x { weight = mul x.weight g }) ∷ scale_kept g xs

  abbrev pub slot_id : List (Slot fl) → ℕ → ℤ → ℤ
  slot_id [] k d = d
  slot_id (x ∷ xs) zero d = x.id
  slot_id (x ∷ xs) (suc k) d = slot_id xs k d

  -- The row of one token; `x` is its first slot.
  unfoldable pub drop_row : Float → Bool → Slot fl → List (Slot fl) → List (Edited fl)
  unfolding best_slot total_weight drop_slots kept_weight scale_kept
  drop_row frac renorm x xs =
      let row = x ∷ xs in
      let best = best_slot 0 x.weight 0 row in
      let total = total_weight fl.zero row in
      let thr = div frac (of_nat (length row)) in
      let edited = drop_slots best (slot_id row best x.id) thr 0 row in
      let kept = kept_weight fl.zero edited in
      if renorm && any_dropped edited && lt fl.zero kept
      then scale_kept (div total kept) edited
      else edited

  -- The routing of one token: at least one expert, each with its weight.
  pub record Row : Type 0 where
    pub first : ℤ × Float
    pub rest : List (ℤ × Float)

  -- `drop_res_` of one slot: the query answers each id on its own.
  unfoldable pub slot_of : Shape → Cache → ℤ → ℤ × Float → Slot fl
  slot_of s c il (z, w) = record {
    id = z;
    weight = w;
    res = code_of (query_residency s c il (z ∷ []));
  }

  unfoldable pub slots_of : Shape → Cache → ℤ → List (ℤ × Float) → List (Slot fl)
  unfolding slot_of
  slots_of s c il [] = []
  slots_of s c il (x ∷ xs) = slot_of s c il x ∷ slots_of s c il xs

  unfoldable pub edit_row : Shape → Cache → ℤ → Float → Bool → Row → List (Edited fl)
  unfolding drop_row slots_of
  edit_row s c il frac renorm r =
      drop_row frac renorm (slot_of s c il r.first) (slots_of s c il r.rest)

  abbrev pub edited_ids : List (Edited fl) → List ℤ
  edited_ids [] = []
  edited_ids (x ∷ xs) = x.id ∷ edited_ids xs

  -- `drop_ids_` after the edits, row after row.
  abbrev pub all_ids : List (List (Edited fl)) → List ℤ
  all_ids [] = []
  all_ids (r ∷ rs) = edited_ids r ++ all_ids rs

  pub record Applied : Type 0 where
    pub rows : List (List (Edited fl))
    pub loaded : Loaded

  -- Speculation is settled first, then the layer is classified, edited and loaded; a load that fails
  -- is fatal. The source is one that does not adopt. The trace, the counters and what follows the load are left out.
  unfoldable pub apply_drop : Vm → Reads → Shape → ℤ → Float → Bool → List Row → Cache → Applied
  unfolding edit_row
  apply_drop vm reads s il frac renorm rows c =
      let settled = settle_spec false s c in
      let edited = map (λ r. edit_row s settled il frac renorm r) rows in
      record { rows = edited; loaded = load_layer vm reads s il (all_ids edited) settled }
