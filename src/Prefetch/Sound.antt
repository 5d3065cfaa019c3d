-- ===== src/Prefetch/Sound.antt =====
-- What holds of speculation between any two steps.
use meitte.Base.{ℕ, ◌+◌, ◌/◌, ◌<◌, ◌≤◌, ◌≡◌, ◌≢◌, Bool, true, false, List, [], ◌∷◌, elem, length}
use meitte.Cache.{Shape}
use meitte.Prefetch.Defs.{Flying, Spec, queue}
use meitte.Prefetch.Count.{tally, of_entry, of_slice, pending}

-- Every slice of the entry that is present was read.
abbrev pub Filled : Shape → (ℕ → ℕ → Bool) → ℕ → Type 0
Filled s got id = (p : ℕ) → p < 3 → s.nb2 (id / s.n_expert) p ≢ 0 → got id p ≡ true

abbrev pub AllGen : ℕ → List Flying → Type 0
AllGen g [] = Unit {0}
AllGen g (f ∷ fs) = (f.gen ≡ g) × AllGen g fs

abbrev pub BelowGen : ℕ → List Flying → Type 0
BelowGen g [] = Unit {0}
BelowGen g (f ∷ fs) = (f.gen < g) × BelowGen g fs

-- While the eval thread is not waiting: the counters are the reads that are left.
pub record Live (s : Shape) (v : Spec) : Type 0 where
  pub gens : AllGen v.cache.spec_gen v.flight
  pub counted :
      (id : ℕ) → v.cache.spec_remaining id ≡ pending (of_entry id) v + tally (of_entry id) v.lost
  pub covered :
      (id p : ℕ)
      → v.cache.spec_remaining id ≢ 0
      → p < 3
      → s.nb2 (id / s.n_expert) p ≢ 0
      → v.got id p ≡ false
      → 0 < pending (of_slice id p) v + tally (of_slice id p) v.lost

-- While it waits in the destructive quiesce: what is in flight is disowned.
pub record Paused (v : Spec) : Type 0 where
  pub stale : BelowGen v.cache.spec_gen v.flight
  pub empty : queue v.cache ≡ []

pub record Sound (s : Shape) (v : Spec) : Type 0 where
  pub bounded : v.cache.spec_next ≤ length v.cache.spec_jobs
  pub touched : (id : ℕ) → v.cache.spec_remaining id ≢ 0 → elem id v.cache.spec_touched ≡ true
  pub quiet : (id : ℕ) → v.cache.cvalid id ≡ true → pending (of_entry id) v ≡ 0
  pub settled : (id : ℕ) → elem id v.cache.spec_done ≡ true → v.cache.spec_remaining id ≡ 0
  pub whole : (id : ℕ) → elem id v.cache.spec_done ≡ true → Filled s v.got id
  pub filled : (id : ℕ) → v.cache.cvalid id ≡ true → v.cache.cspec id ≡ true → Filled s v.got id
  pub live : v.quiescing ≡ false → Live s v
  pub paused : v.quiescing ≡ true → Paused v
