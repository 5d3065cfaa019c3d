-- ===== src/Router/Joined.antt =====
-- `apply_drop` on a source that adopts: the rows are edited under the settled cache, and the load of
-- what they name joins the lanes' reads of the layer.
use mathlib.Core.Path.{subst}
use meitte.Base.{
  ◌<◌, ℕ, ◌≡◌, ◌≢◌, refl, inl, inr, Bool, true, false, List, [], ◌∷◌, some, arith, Routed, ℤ,
  length, map, Bool-cases, sym, ◌∙◌, ◌==◌,
}
use meitte.Cache.{Shape, Vm, Cache, entry_id}
use meitte.Cache.Entry.{bound_layer}
use meitte.Cache.Load.{Reads, Loaded}
use meitte.Cache.LoadLayer.{bound_layer-lt}
use meitte.Cache.Invariant.{Fits}
use meitte.Prefetch.{Spec}
use meitte.Prefetch.Settle.{settle_spec, spec_integrate_done}
use meitte.Prefetch.Steps.{Works, settled}
use meitte.Prefetch.Reached.{SpecStep-Sound}
use meitte.Prefetch.Whole.{Whole, SpecStep-Whole}
use meitte.Prefetch.Join.{begin_join, end_join, join-LoadOk, spec_integrate_done_max, Works-forgot}
use meitte.Router.Defs.{Floats, IsOrdered}
use meitte.Router.Drop.{Edited, Row, all_ids, edit_row}
use meitte.Router.Applied.{RowsFate, edit_rows-Fate}

module _ (fl : Floats) where
  -- `apply_drop` up to the wait of its load: the rows, and the cache with which the wait begins.
  unfoldable pub begin_drop :
      Shape → ℤ → ℕ → fl.Float → Bool → List (Row fl) → Cache → List (List (Edited fl)) × Cache
  unfolding edit_row settle_spec begin_join
  begin_drop s il l frac renorm rows c =
      let settled = settle_spec true s c in
      (map (λ r. edit_row fl s settled il frac renorm r) rows, begin_join l settled)

  -- And from the end of the wait on.
  unfoldable pub end_drop : Vm → Reads → Shape → ℕ → List (List (Edited fl)) → Cache → Loaded
  unfolding end_join
  end_drop vm reads s l rows c = end_join vm reads s l (all_ids fl rows) c

settle_spec-Whole :
    (s : Shape) (v : Spec)
    → Fits s
    → v.quiescing ≡ false
    → v.adopt ≡ true
    → v.forgot ≡ false
    → v.cache.cache_max ≢ 0
    → Whole s v
    → Whole s (record v { cache = settle_spec true s v.cache })
      × ((settle_spec true s v.cache).cache_max ≡ v.cache.cache_max)
unfolding settle_spec
settle_spec-Whole s v fits going adopting sane on h =
    let off : (v.cache.cache_max == 0) ≡ false = ground (arith, on) in
    elim (Bool-cases (length v.cache.spec_done == 0)) [
      | inl idle ↦ rw (off, idle, settle_spec) (h, refl)
      | inr some_done ↦
          rw (off, some_done, settle_spec)
            (
              subst (λ b. Whole s (record v { cache = spec_integrate_done b s v.cache })) adopting
                  (SpecStep-Whole s fits (settled going)
                    (SpecStep-Sound (settled going) sane h.sound) h),
              spec_integrate_done_max true s v.cache,
            )
    ]

module _ (fl : Floats) (laws : IsOrdered fl) (vm : Vm) (reads : Reads) (s : Shape) (il : ℤ) (l : ℕ)
    (frac : fl.Float) (renorm : Bool) where
  named :
      (ids : List ℤ) (v w : Spec)
      → Fits s
      → l < s.n_layer
      → s.load_all ≡ false
      → Whole s v
      → v.quiescing ≡ false
      → v.adopt ≡ true
      → v.forgot ≡ false
      → v.cache.cache_max ≢ 0
      → Works (record v { cache = begin_join l v.cache }) w
      → w.forgot ≡ false
      → (end_join vm reads s l ids w.cache).success ≡ true
      → Routed s.n_expert
          (λ e. (end_join vm reads s l ids w.cache).cache.cvalid (entry_id s l e) ≡ true)
          ids
  named [] v w fits hl plain h going adopting sane on works fine ok = tt
  named (z ∷ zs) v w fits hl plain h going adopting sane on works fine ok =
      (join-LoadOk s fits vm reads l hl plain z zs v w h going adopting sane on works fine
        ok).1.routed

  -- The dropping of experts in a bound layer, on a source that adopts, picks in each token's row a
  -- slot whose weight none of the row exceeds and drops a slot exactly when it is another one, not
  -- resident in the settled cache (this settle only integrates) and lighter than the threshold, so
  -- that it names the expert of the picked slot with weight zero, while the others keep their
  -- expert; and, whatever the lanes do while its load waits, the load that joins their reads leaves
  -- every expert that the edited routing names resident: from a state outside the destructive
  -- quiesce that keeps what holds of speculation together with the cache's invariant, where no
  -- failed read has reset an entry by the end of the wait, where comparisons order the numbers up
  -- to ties, all experts have fewer than 2^64 bytes, the cache is on, the load succeeds and it does
  -- not load whole layers.
  pub end_drop-Resident :
      (rows : List (Row fl)) (v w : Spec)
      → Fits s
      → Whole s v
      → v.quiescing ≡ false
      → v.adopt ≡ true
      → v.cache.cache_max ≢ 0
      → s.load_all ≡ false
      → bound_layer s il ≡ some l
      → let d = begin_drop fl s il l frac renorm rows v.cache in
        Works (record v { cache = d.1 }) w
        → w.forgot ≡ false
        → let r = end_drop fl vm reads s l d.0 w.cache in
          r.success ≡ true
          → RowsFate fl s (settle_spec true s v.cache) il frac rows d.0
            × Routed s.n_expert (λ e. r.cache.cvalid (entry_id s l e) ≡ true) (all_ids fl d.0)
  unfolding begin_drop end_drop
  end_drop-Resident rows v w fits h going adopting on plain bound works fine ok =
      let sane : v.forgot ≡ false = Works-forgot works fine in
      let (k, m) = settle_spec-Whole s v fits going adopting sane on h in
      (
        edit_rows-Fate fl laws vm reads s il frac renorm (settle_spec true s v.cache) rows,
        named _ (record v { cache = settle_spec true s v.cache }) w fits
            (bound_layer-lt s il l bound) plain k going adopting sane (λ e. on (sym m ∙ e)) works
            fine ok,
      )
