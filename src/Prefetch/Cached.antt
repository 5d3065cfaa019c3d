-- ===== src/Prefetch/Cached.antt =====
-- Changes of the cache that leave the speculative reads alone: integration, lookup and eviction.
use meitte.Base.{
  ℕ, ◌≡◌, refl, inl, inr, ◌⊎◌, Bool, true, false, ◌&&◌, not, List, [], ◌∷◌, ◌==◌, arith, elem,
  Bool-cases, ◌∙◌,
}
use meitte.Cache.{Shape, Cache}
use meitte.Prefetch.Defs.{Spec, queue}
use meitte.Prefetch.Settle.{eligible, integrate_done_entry, integrate_done, spec_integrate_done}
use meitte.Prefetch.Count.{of_entry, pending}
use meitte.Prefetch.Sound.{Filled, Sound}

pub record SameReads (c d : Cache) : Type 0 where
  pub same_jobs : d.spec_jobs ≡ c.spec_jobs
  pub same_next : d.spec_next ≡ c.spec_next
  pub same_gen : d.spec_gen ≡ c.spec_gen
  pub same_touched : d.spec_touched ≡ c.spec_touched
  pub same_remaining : d.spec_remaining ≡ c.spec_remaining

pub trans-SameReads : {c d e : Cache} → SameReads c d → SameReads d e → SameReads c e
trans-SameReads a b = record {
  same_jobs = b.same_jobs ∙ a.same_jobs;
  same_next = b.same_next ∙ a.same_next;
  same_gen = b.same_gen ∙ a.same_gen;
  same_touched = b.same_touched ∙ a.same_touched;
  same_remaining = b.same_remaining ∙ a.same_remaining;
}

pub refl-SameReads : (c : Cache) → SameReads c c
refl-SameReads c = record {
  same_jobs = refl;
  same_next = refl;
  same_gen = refl;
  same_touched = refl;
  same_remaining = refl;
}

-- Such a change keeps what holds, if no entry with a read left becomes resident and a speculative
-- resident is filled.
pub SameReads-Sound :
    (s : Shape) (v : Spec) (d : Cache)
    → SameReads v.cache d
    → ((id : ℕ) → elem id d.spec_done ≡ true → elem id v.cache.spec_done ≡ true)
    → ((id : ℕ) → d.cvalid id ≡ true → pending (of_entry id) v ≡ 0)
    → ((id : ℕ) → d.cvalid id ≡ true → d.cspec id ≡ true → Filled s v.got id)
    → Sound s v
    → Sound s (record v { cache = d })
SameReads-Sound s v d e done quiet filled k =
    let q : queue d ≡ queue v.cache = rw (e.same_jobs, e.same_next) refl in
    record {
      bounded = rw (e.same_jobs, e.same_next) k.bounded;
      touched = rw (e.same_touched, e.same_remaining) k.touched;
      quiet = λ id h. rw q (quiet id h);
      settled = λ id h. rw e.same_remaining (k.settled id (done id h));
      whole = λ id h. k.whole id (done id h);
      filled = filled;
      live = λ h.
          let l = k.live h in
          record {
            gens = rw e.same_gen l.gens;
            counted = λ id. rw (e.same_remaining, q) (l.counted id);
            covered = λ id p a b c g. rw q (l.covered id p (rw e.same_remaining at a) b c g);
          };
      paused =
          λ h. let p = k.paused h in record { stale = rw e.same_gen p.stale; empty = q ∙ p.empty };
    }

-- What integration adds.
pub record Joined (ids : List ℕ) (c d : Cache) : Type 0 where
  pub same : SameReads c d
  pub same_done : d.spec_done ≡ c.spec_done
  pub valid : (i : ℕ) → d.cvalid i ≡ true → (c.cvalid i ≡ true) ⊎ (elem i ids ≡ true)
  pub spec : (i : ℕ) → d.cspec i ≡ true → (c.cspec i ≡ true) ⊎ (elem i ids ≡ true)

integrate_done_entry-Joined :
    (adopt : Bool) (s : Shape) (id : ℕ) (ids : List ℕ) (c d : Cache)
    → Joined ids (integrate_done_entry adopt s id c) d
    → Joined (id ∷ ids) c d
unfolding integrate_done_entry
integrate_done_entry-Joined adopt s id ids c d j = record {
  same =
      trans-SameReads
        (record {
          same_jobs = refl;
          same_next = refl;
          same_gen = refl;
          same_touched = refl;
          same_remaining = refl;
        })
        j.same;
  same_done = j.same_done;
  valid = λ i h. ground (arith, j.valid i h);
  spec = λ i h. ground (arith, j.spec i h);
}

integrate_done-Joined :
    (adopt : Bool) (s : Shape) (ids : List ℕ) (c : Cache)
    → Joined ids c (integrate_done adopt s ids c)
unfolding integrate_done
integrate_done-Joined adopt s [] c = record {
  same = refl-SameReads c;
  same_done = refl;
  valid = λ i h. inl h;
  spec = λ i h. inl h;
}
integrate_done-Joined adopt s (id ∷ ids) c =
    integrate_done_entry-Joined adopt s id ids c _
      (integrate_done-Joined adopt s ids (integrate_done_entry adopt s id c))

pub eligible-elem :
    (c : Cache) (ids : List ℕ) (i : ℕ)
    → elem i (eligible c ids) ≡ true
    → (elem i ids ≡ true) × (c.cvalid i ≡ false) × (c.spec_remaining i ≡ 0)
unfolding eligible
eligible-elem c [] i h = absurd (ground (arith, h))
eligible-elem c (id ∷ ids) i h = elim (Bool-cases (not (c.cvalid id) && c.spec_remaining id == 0)) [
  | inl it ↦ elim (Bool-cases (id == i)) [
    | inl same ↦ let eq : id ≡ i = ground arith in rw (← eq) (ground (arith, it))
    | inr other ↦ ground (arith, it, h, other, eligible-elem c ids i)
  ]
  | inr skipped ↦ ground (arith, skipped, h, eligible-elem c ids i)
]

pub spec_integrate_done-fields :
    (adopt : Bool) (s : Shape) (c : Cache)
    → ((spec_integrate_done adopt s c).spec_done ≡ [])
      × ((spec_integrate_done adopt s c).spec_jobs ≡ c.spec_jobs)
unfolding spec_integrate_done
spec_integrate_done-fields adopt s c =
    let j = integrate_done-Joined adopt s (eligible c c.spec_done) (record c { spec_done = [] }) in
    (j.same_done, j.same.same_jobs)

pub spec_integrate_done-Sound :
    (s : Shape) (v : Spec)
    → v.quiescing ≡ false
    → Sound s v
    → Sound s (record v { cache = spec_integrate_done v.adopt s v.cache })
unfolding spec_integrate_done
spec_integrate_done-Sound s v going k =
    let ids = eligible v.cache v.cache.spec_done in
    let j = integrate_done-Joined v.adopt s ids (record v.cache { spec_done = [] }) in
    SameReads-Sound s v (spec_integrate_done v.adopt s v.cache)
      (trans-SameReads
        (record {
          same_jobs = refl;
          same_next = refl;
          same_gen = refl;
          same_touched = refl;
          same_remaining = refl;
        })
        j.same)
      (λ id h. absurd (ground (arith, rw j.same_done at h)))
      (λ id h. elim (j.valid id h) [
        | inl before ↦ k.quiet id before
        | inr new ↦
            omega
              (arith, (k.live going).counted id, (eligible-elem v.cache v.cache.spec_done id new).2)
      ])
      (λ id h g. elim (j.valid id h) [
        | inr new ↦ k.whole id (eligible-elem v.cache v.cache.spec_done id new).0
        | inl before ↦ elim (j.spec id g) [
          | inr new ↦ k.whole id (eligible-elem v.cache v.cache.spec_done id new).0
          | inl guessed ↦ k.filled id before guessed
        ]
      ])
      k
