-- ===== src/Prefetch/Wait.antt =====
-- The wait of the destructive quiesce ends, and leaves no speculation behind.
use meitte.Base.{ℕ, ◌≡◌, refl, Bool, true, false, List, [], ◌∷◌, ◌∙◌, ap}
use meitte.Cache.{Shape}
use meitte.Prefetch.Defs.{Flying, Spec, queue}
use meitte.Prefetch.Lanes.{land_spec, remove_at}
use meitte.Prefetch.Settle.{harvest_spec}
use meitte.Prefetch.Steps.{landed, worked, harvested, SpecSteps, stay, more}
use meitte.Prefetch.Sound.{Sound}
use meitte.Prefetch.Quiesced.{harvest_spec-zero, harvest_spec-queue}
use meitte.Prefetch.Reached.{SpecSteps-Sound}

-- The lanes end one read after another; `ok` says how each ends.
land_all : (Flying → Bool) → List Flying → Spec → Spec
land_all ok [] v = v
land_all ok (f ∷ fs) v = land_all ok fs (land_spec (ok f) 0 f v)

land_spec-first :
    (b : Bool) (f : Flying) (fs : List Flying) (v : Spec)
    → v.flight ≡ f ∷ fs
    → (land_spec b 0 f v).flight ≡ fs
unfolding land_spec
land_spec-first b f fs v h = ap (λ z. remove_at 0 z) h

land_all-SpecSteps :
    (s : Shape) (ok : Flying → Bool) (fs : List Flying) (u v : Spec)
    → v.flight ≡ fs
    → SpecSteps s u v
    → SpecSteps s u (land_all ok fs v)
unfolding land_all
land_all-SpecSteps s ok [] u v h run = run
land_all-SpecSteps s ok (f ∷ fs) u v h run =
    land_all-SpecSteps s ok fs u (land_spec (ok f) 0 f v) (land_spec-first (ok f) f fs v h)
      (more v (land_spec (ok f) 0 f v) run (worked _ (landed (ok f) 0 f (rw h refl))))

land_spec-fields :
    (b : Bool) (f : Flying) (v : Spec)
    → (b ≡ false → v.adopt ≡ false)
    → v.forgot ≡ false
    → ((land_spec b 0 f v).quiescing ≡ v.quiescing)
      × ((land_spec b 0 f v).adopt ≡ v.adopt)
      × ((land_spec b 0 f v).forgot ≡ false)
unfolding land_spec
land_spec-fields true f v good fine = (refl, refl, fine)
land_spec-fields false f v good fine = (refl, refl, rw (good refl, fine) refl)

land_all-fields :
    (ok : Flying → Bool) (fs : List Flying) (v : Spec)
    → v.flight ≡ fs
    → ((f : Flying) → ok f ≡ false → v.adopt ≡ false)
    → v.forgot ≡ false
    → ((land_all ok fs v).flight ≡ [])
      × ((land_all ok fs v).quiescing ≡ v.quiescing)
      × ((land_all ok fs v).forgot ≡ false)
unfolding land_all
land_all-fields ok [] v h good fine = (h, refl, fine)
land_all-fields ok (f ∷ fs) v h good fine =
    let (q, a, g) = land_spec-fields (ok f) f v (good f) fine in
    let (x, y, z) =
      land_all-fields ok fs (land_spec (ok f) 0 f v) (land_spec-first (ok f) f fs v h)
        (λ e m. a ∙ good e m) g in
    (x, y ∙ q, z)

-- From a state in the wait of the destructive quiesce that keeps what holds of speculation and in
-- which no failed read has reset an entry, however the reads in flight end (well, where the source
-- adopts), there are steps that end the wait and leave no read queued or in flight and no entry
-- with a read left.
pub quiesce-Ends :
    (s : Shape) (v : Spec) (ok : Flying → Bool)
    → Sound s v
    → v.quiescing ≡ true
    → v.forgot ≡ false
    → ((f : Flying) → ok f ≡ false → v.adopt ≡ false)
    → (w : Spec) × SpecSteps s v w
      × (w.quiescing ≡ false)
      × (w.flight ≡ [])
      × (queue w.cache ≡ [])
      × ((id : ℕ) → w.cache.spec_remaining id ≡ 0)
quiesce-Ends s v ok k waiting fine good =
    let u = land_all ok v.flight v in
    let run : SpecSteps s v u = land_all-SpecSteps s ok v.flight v v refl stay in
    let (down, same, kept) = land_all-fields ok v.flight v refl good fine in
    let ku : Sound s u = SpecSteps-Sound run kept k in
    let still : u.quiescing ≡ true = same ∙ waiting in
    (
      record u { cache = harvest_spec s u.cache; quiescing = false; lost = [] },
      more u _ run (harvested still down),
      refl,
      down,
      harvest_spec-queue s u still down ku,
      harvest_spec-zero s u still down ku,
    )
