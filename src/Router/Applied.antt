-- ===== src/Router/Applied.antt =====
-- `apply_drop` composed with the cache: the edited rows and the load of what they name.
use meitte.Base.{
  refl, inl, inr, Bool-cases, ℕ, ◌≡◌, ◌≢◌, Bool, true, false, List, [], ◌∷◌, ◌++◌, some, arith,
  Routed, ℤ, AllBelow, Bool-cases, Distinct, Distinct, length, get_elem?, map, ◌==◌, sym, ◌∙◌,
}
use meitte.Cache.{Shape, Vm, Cache, n_entry, entry_id}
use meitte.Cache.Entry.{bound_layer}
use meitte.Prefetch.Settle.{settle_spec}
use meitte.Cache.Load.{Reads}
use meitte.Cache.Invariant.{Keeps, Fits}
use meitte.Cache.Quiesce.{quiesce_spec-Keeps, quiesce_spec-SameRun}
use meitte.Cache.LoadLayer.{load_layer-LoadOk}
use meitte.Prefetch.Kept.{spec_integrate_done-Keeps}
use meitte.Router.Defs.{Floats, IsOrdered}
use meitte.Router.Drop.{Slot, Edited, Row, slot_of, slots_of, edit_row, all_ids, apply_drop}
use meitte.Router.Dropped.{Unbeaten, Fates, drop_row-Fates}

-- What settling leaves before a layer is looked up.
pub settle_spec-Keeps :
    (adopt : Bool) (s : Shape) (c : Cache) (xs : List ℕ)
    → Fits s
    → Keeps s c xs
    → AllBelow (n_entry s) c.spec_done
    → (adopt ≡ true → Distinct c.spec_done)
    → c.cache_max ≢ 0
    → (ys : List ℕ) × Keeps s (settle_spec adopt s c) ys
unfolding settle_spec
settle_spec-Keeps false s c xs fits k b once on =
    let (zs, kz) = quiesce_spec-Keeps s fits c xs k b in
    let off : (c.cache_max == 0) ≡ false = ground (arith, on) in
    rw (off, settle_spec) (xs ++ zs, kz)
settle_spec-Keeps true s c xs fits k b once on =
    let off : (c.cache_max == 0) ≡ false = ground (arith, on) in
    elim (Bool-cases (length c.spec_done == 0)) [
      | inl idle ↦ rw (off, idle, settle_spec) (xs, k)
      | inr some_done ↦
          rw (off, some_done, settle_spec)
            (spec_integrate_done-Keeps s fits true c xs k (once refl) b)
    ]

-- Without adoption the budget is unchanged, and nothing waits to be integrated.
settle_spec_quiesced :
    (s : Shape) (c : Cache)
    → c.cache_max ≢ 0
    → ((settle_spec false s c).cache_max ≡ c.cache_max) × ((settle_spec false s c).spec_done ≡ [])
unfolding settle_spec
settle_spec_quiesced s c on =
    let (g, m, d) = quiesce_spec-SameRun s c in
    let off : (c.cache_max == 0) ≡ false = ground (arith, on) in rw (off, settle_spec) (m, d)

module _ (fl : Floats) where
  -- One row: some slot is the heaviest, and each slot keeps its expert or has gone to that slot's.
  abbrev pub RowFate : fl.Float → List (Slot fl) → List (Edited fl) → Type 0
  RowFate frac row ys =
      (best : ℕ) × (b : Slot fl) × (get_elem? row best ≡ some b)
      × Unbeaten fl b.weight row
      × Fates fl best b.id (fl.div frac (fl.of_nat (length row))) 0 row ys

  abbrev pub RowsFate :
      Shape → Cache → ℤ → fl.Float → List (Row fl) → List (List (Edited fl)) → Type 0
  RowsFate s c il frac [] [] = Unit {0}
  RowsFate s c il frac [] (y ∷ ys) = ⊥
  RowsFate s c il frac (r ∷ rs) [] = ⊥
  RowsFate s c il frac (r ∷ rs) (y ∷ ys) =
      RowFate frac (slot_of fl s c il r.first ∷ slots_of fl s c il r.rest) y
      × RowsFate s c il frac rs ys

  module _ (laws : IsOrdered fl) (vm : Vm) (reads : Reads) (s : Shape) (il : ℤ) (frac : fl.Float)
      (renorm : Bool) where
    pub edit_rows-Fate :
        (c : Cache) (rows : List (Row fl))
        → RowsFate s c il frac rows (map (λ r. edit_row fl s c il frac renorm r) rows)
    edit_rows-Fate c [] = tt
    edit_rows-Fate c (r ∷ rs) = (
      unfold edit_row in
          drop_row-Fates fl laws frac renorm (slot_of fl s c il r.first)
            (slots_of fl s c il r.rest),
      edit_rows-Fate c rs,
    )

    -- The dropping of experts in a layer, on a source that does not adopt, picks in each token's
    -- row a slot whose weight none of the row exceeds, and drops a slot exactly when it is another
    -- one, not resident in the settled cache and lighter than the threshold: it then names the
    -- expert of the picked slot with weight zero, while the others keep their expert; and the load
    -- of the edited routing leaves every expert that it names resident: where comparisons order the
    -- numbers up to ties, for a load that succeeds on a cache that is on, keeps its invariant and
    -- does not load whole layers, where all experts have fewer than 2^64 bytes and the finished
    -- speculative reads are of entries of the cache.
    pub apply_drop-Applied :
        (rows : List (Row fl)) (c : Cache) (xs : List ℕ)
        → Fits s
        → Keeps s c xs
        → AllBelow (n_entry s) c.spec_done
        → c.cache_max ≢ 0
        → s.load_all ≡ false
        → (apply_drop fl vm reads s il frac renorm rows c).loaded.success ≡ true
        → let a = apply_drop fl vm reads s il frac renorm rows c in
          RowsFate s (settle_spec false s c) il frac rows a.rows
          × ((l : ℕ) × (bound_layer s il ≡ some l)
              × Routed s.n_expert
                  (λ e. a.loaded.cache.cvalid (entry_id s l e) ≡ true)
                  (all_ids fl a.rows))
    unfolding apply_drop
    apply_drop-Applied rows c xs fits k b on plain ok =
        let (ys, ky) =
          settle_spec-Keeps false s c xs fits k b (λ e. absurd (ground (arith, e))) on in
        let (m, d) = settle_spec_quiesced s c on in
        let (l, at, (zs, good)) =
          load_layer-LoadOk vm reads s il _ (settle_spec false s c) ys fits ky (rw d tt)
            (λ z. on (sym m ∙ z)) plain ok in
        (edit_rows-Fate (settle_spec false s c) rows, (l, at, good.routed))
