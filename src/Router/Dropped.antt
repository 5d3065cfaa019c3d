-- ===== src/Router/Dropped.antt =====
-- About `drop_row` of `apply_drop`: the search for the heaviest slot and the fate of each slot.
use mathlib.Core.Path.{subst}
use mathlib.Core.Option.{some-injective}
use meitte.Base.{
  ℕ, zero, suc, ◌+◌, ◌≡◌, ◌≢◌, refl, inl, inr, ◌⊎◌, Bool, true, false, ◌&&◌, not, List, [], ◌∷◌,
  some, ◌==◌, length, arith, get_elem?, Bool-cases, ℤ, ap, sym, ◌∙◌,
}
use meitte.Router.Defs.{Floats, IsOrdered}
use meitte.Router.Drop.{
  Slot, Edited, best_slot, is_dropped, drop_slots, scale_kept, slot_id, drop_row, total_weight,
  kept_weight, any_dropped,
}

module _ (fl : Floats) where
  -- What becomes of a slot: it keeps its expert as the test demands, or it was cold and light and not the best one, and
  -- now names the best one's expert with weight zero.
  abbrev pub Fate : ℕ → ℤ → fl.Float → ℕ → Slot fl → Edited fl → Type 0
  Fate best best_id thr k x y =
      ((y.dropped ≡ false) × (y.id ≡ x.id) × (is_dropped fl best thr k x ≡ false))
      ⊎ ((y.dropped ≡ true)
          × (k ≢ best)
          × (x.res ≡ 0)
          × (fl.lt x.weight thr ≡ true)
          × (y.id ≡ best_id)
          × (y.weight ≡ fl.zero))

  -- Slot by slot, from place `k` on.
  abbrev pub Fates : ℕ → ℤ → fl.Float → ℕ → List (Slot fl) → List (Edited fl) → Type 0
  Fates best best_id thr k [] [] = Unit {0}
  Fates best best_id thr k [] (y ∷ ys) = ⊥
  Fates best best_id thr k (x ∷ xs) [] = ⊥
  Fates best best_id thr k (x ∷ xs) (y ∷ ys) =
      Fate best best_id thr k x y × Fates best best_id thr (suc k) xs ys

  both : (a b c : Bool) → (not a && b && c) ≡ true → (a ≡ false) × (b ≡ true) × (c ≡ true)
  both a b c h = ground (arith, h)

  is_dropped-parts :
      (best k : ℕ) (thr : fl.Float) (x : Slot fl)
      → is_dropped fl best thr k x ≡ true
      → (k ≢ best) × (x.res ≡ 0) × (fl.lt x.weight thr ≡ true)
  unfolding is_dropped
  is_dropped-parts best k thr x h =
      let (a, b, c) = both (k == best) (x.res == 0) (fl.lt x.weight thr) h in
      (ground (arith, a), ground (arith, b), c)

  drop_slots-Fates :
      (best : ℕ) (best_id : ℤ) (thr : fl.Float) (k : ℕ) (xs : List (Slot fl))
      → Fates best best_id thr k xs (drop_slots fl best best_id thr k xs)
  unfolding drop_slots
  drop_slots-Fates best best_id thr k [] = tt
  drop_slots-Fates best best_id thr k (x ∷ xs) = (
    elim (Bool-cases (is_dropped fl best thr k x)) [
      | inr kept ↦ rw kept (inl (refl, refl, refl))
      | inl gone ↦
          let (a, b, c) = is_dropped-parts best k thr x gone in
          rw gone (inr (refl, a, b, c, refl, refl))
    ],
    drop_slots-Fates best best_id thr (suc k) xs,
  )

  scale_kept-Fates :
      (g : fl.Float) (best : ℕ) (best_id : ℤ) (thr : fl.Float) (k : ℕ) (xs : List (Slot fl))
      (ys : List (Edited fl))
      → Fates best best_id thr k xs ys
      → Fates best best_id thr k xs (scale_kept fl g ys)
  unfolding scale_kept
  scale_kept-Fates g best best_id thr k [] [] h = h
  scale_kept-Fates g best best_id thr k [] (y ∷ ys) h = h
  scale_kept-Fates g best best_id thr k (x ∷ xs) [] h = h
  scale_kept-Fates g best best_id thr k (x ∷ xs) (y ∷ ys) h = (
    elim h.0 [
      | inl kept ↦ rw kept.0 (inl (refl, kept.1, kept.2))
      | inr gone ↦ rw gone.0 (inr (refl, gone.1, gone.2, gone.3, gone.4, gone.5))
    ],
    scale_kept-Fates g best best_id thr (suc k) xs ys h.1,
  )

  slot_id-get_elem? :
      (xs : List (Slot fl)) (k : ℕ) (d : ℤ) (b : Slot fl)
      → get_elem? xs k ≡ some b
      → slot_id fl xs k d ≡ b.id
  slot_id-get_elem? [] k d b h = absurd (ground (arith, h))
  slot_id-get_elem? (x ∷ xs) zero d b h = ap (λ (z : Slot fl). z.id) (some-injective x b h)
  slot_id-get_elem? (x ∷ xs) (suc k) d b h = slot_id-get_elem? xs k d b h

  -- No slot of the list is heavier than the weight.
  abbrev pub Unbeaten : fl.Float → List (Slot fl) → Type 0
  Unbeaten w xs = (j : ℕ) (z : Slot fl) → get_elem? xs j ≡ some z → fl.lt w z.weight ≡ false

  -- The search over the rest of a row from place `k` on keeps `best`, or finds a heavier slot.
  abbrev Search : ℕ → fl.Float → ℕ → List (Slot fl) → ℕ → Type 0
  Search best high k xs r =
      ((r ≡ best) × Unbeaten high xs)
      ⊎ ((i : ℕ) × (y : Slot fl) × (r ≡ k + i)
          × (get_elem? xs i ≡ some y)
          × Unbeaten y.weight xs
          × (fl.lt y.weight high ≡ false))

  module _ (laws : IsOrdered fl) where
    cons-Unbeaten :
        (w : fl.Float) (x : Slot fl) (xs : List (Slot fl))
        → fl.lt w x.weight ≡ false
        → Unbeaten w xs
        → Unbeaten w (x ∷ xs)
    cons-Unbeaten w x xs a h zero z at =
        ap (λ (s : Slot fl). fl.lt w s.weight) (sym (some-injective x z at)) ∙ a
    cons-Unbeaten w x xs a h (suc j) z at = h j z at

    best_slot-Search :
        (best : ℕ) (high : fl.Float) (k : ℕ) (xs : List (Slot fl))
        → Search best high k xs (best_slot fl best high k xs)
    unfolding best_slot
    best_slot-Search best high k [] = inl (refl, λ j z at. absurd (ground (arith, at)))
    best_slot-Search best high k (x ∷ xs) = elim (Bool-cases (fl.lt high x.weight)) [
      | inl heavier ↦
          let lighter = laws.asym high x.weight heavier in
          rw heavier (elim (best_slot-Search k x.weight (suc k) xs) [
            | inl (same, rest) ↦ inr (
              0,
              x,
              omega (arith, same),
              refl,
              cons-Unbeaten x.weight x xs (laws.irrefl x.weight) rest,
              lighter,
            )
            | inr (i, y, place, at, rest, over) ↦ inr (
              suc i,
              y,
              omega (arith, place),
              at,
              cons-Unbeaten y.weight x xs over rest,
              laws.weak y.weight x.weight high over lighter,
            )
          ])
      | inr kept ↦ rw kept (elim (best_slot-Search best high (suc k) xs) [
        | inl (same, rest) ↦ inl (same, cons-Unbeaten high x xs kept rest)
        | inr (i, y, place, at, rest, over) ↦ inr (
          suc i,
          y,
          omega (arith, place),
          at,
          cons-Unbeaten y.weight x xs (laws.weak y.weight high x.weight over kept) rest,
          over,
        )
      ])
    ]

    best_slot-heaviest :
        (x : Slot fl) (xs : List (Slot fl))
        → (b : Slot fl) × (get_elem? (x ∷ xs) (best_slot fl 0 x.weight 0 (x ∷ xs)) ≡ some b)
          × Unbeaten b.weight (x ∷ xs)
    best_slot-heaviest x xs = elim (best_slot-Search 0 x.weight 0 (x ∷ xs)) [
      | inl (same, rest) ↦ (x, ap (get_elem? (x ∷ xs)) same, rest)
      | inr (i, y, place, at, rest, over) ↦
          (y, ap (get_elem? (x ∷ xs)) (place ∙ omega arith) ∙ at, rest)
    ]

    -- Some slot is the heaviest, and each slot has its fate under that one and the threshold.
    pub drop_row-Fates :
        (frac : fl.Float) (renorm : Bool) (x : Slot fl) (xs : List (Slot fl))
        → (best : ℕ) × (b : Slot fl) × (get_elem? (x ∷ xs) best ≡ some b)
          × Unbeaten b.weight (x ∷ xs)
          × Fates best b.id
              (fl.div frac (fl.of_nat (length (x ∷ xs))))
              0
              (x ∷ xs)
              (drop_row fl frac renorm x xs)
    unfolding drop_row
    drop_row-Fates frac renorm x xs =
        let row = x ∷ xs in
        let best = best_slot fl 0 x.weight 0 row in
        let thr = fl.div frac (fl.of_nat (length row)) in
        let (b, at, rest) = best_slot-heaviest x xs in
        let edited = drop_slots fl best (slot_id fl row best x.id) thr 0 row in
        let fates : Fates best b.id thr 0 row edited =
          subst
            (λ z. Fates best z thr 0 row (drop_slots fl best (slot_id fl row best x.id) thr 0 row))
            (slot_id-get_elem? row best x.id b at)
            (drop_slots-Fates best (slot_id fl row best x.id) thr 0 row) in
        let g = fl.div (total_weight fl fl.zero row) (kept_weight fl fl.zero edited) in
        (
          best,
          b,
          at,
          rest,
          elim (Bool-cases
              (renorm && any_dropped fl edited && fl.lt fl.zero (kept_weight fl fl.zero edited))) [
                | inl scaled ↦ rw scaled (scale_kept-Fates g best b.id thr 0 row edited fates)
                | inr plain ↦ rw plain fates
              ],
        )
