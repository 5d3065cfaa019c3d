-- ===== src/Prefetch/Quiesced.antt =====
-- The destructive quiesce and the adoption of a layer keep what holds of speculation.
use meitte.Base.{
  ℕ, ◌+◌, ◌≤◌, ◌≡◌, ◌≢◌, refl, inl, inr, ◌⊎◌, Bool, true, false, List, [], ◌∷◌, ◌++◌, ◌==◌, arith,
  elem, Bool-cases, ap, ◌∙◌, length, length-append, take,
}
use meitte.Cache.{Shape, IoJob, Cache}
use meitte.Cache.Entry.{release_entry_pages}
use meitte.Cache.Speculation.{integrate_entry, integrate_all, release_unfinished, release_all}
use meitte.Prefetch.Defs.{Flying, Spec, queue}
use meitte.Prefetch.Settle.{cancel_spec, harvest_spec, adopt_layer, unsettled, jobs_of_layer}
use meitte.Prefetch.Count.{
  tally, of_entry, of_slice, pending, tally-append, drop-take-append, length-take,
  tally-jobs_of_layer,
}
use meitte.Prefetch.Sound.{AllGen, BelowGen, Sound}

AllGen-BelowGen : (g : ℕ) (fs : List Flying) → AllGen g fs → BelowGen (g + 1) fs
AllGen-BelowGen g [] h = tt
AllGen-BelowGen g (f ∷ fs) h = (omega (arith, h.0), AllGen-BelowGen g fs h.1)

pub cancel_spec-Sound :
    (s : Shape) (v : Spec)
    → v.quiescing ≡ false
    → Sound s v
    → Sound s (record v { cache = cancel_spec v.cache; quiescing = true; lost = [] })
unfolding cancel_spec
cancel_spec-Sound s v going k = record {
  bounded = omega arith;
  touched = k.touched;
  quiet = λ id h. omega (arith, k.quiet id h);
  settled = k.settled;
  whole = k.whole;
  filled = k.filled;
  live = λ h. absurd (ground (arith, h));
  paused = λ h. record {
    stale = AllGen-BelowGen v.cache.spec_gen v.flight (k.live going).gens;
    empty = refl;
  };
}

-- What the harvest of the entries `ids` does: some join, and counters stay or fall to 0.
record Harvested (ids : List ℕ) (c d : Cache) : Type 0 where
  same_jobs : d.spec_jobs ≡ c.spec_jobs
  same_next : d.spec_next ≡ c.spec_next
  same_done : d.spec_done ≡ c.spec_done
  lowered : (i : ℕ) → d.spec_remaining i ≢ 0 → c.spec_remaining i ≢ 0
  valid : (i : ℕ) → d.cvalid i ≡ true → (c.cvalid i ≡ true) ⊎ (elem i ids ≡ true)
  spec : (i : ℕ) → d.cspec i ≡ true → (c.cspec i ≡ true) ⊎ (elem i ids ≡ true)

refl-Harvested : (c : Cache) → Harvested [] c c
refl-Harvested c = record {
  same_jobs = refl;
  same_next = refl;
  same_done = refl;
  lowered = λ i h. h;
  valid = λ i h. inl h;
  spec = λ i h. inl h;
}

integrate_entry-Harvested :
    (s : Shape) (id : ℕ) (c : Cache) → Harvested (id ∷ []) c (integrate_entry s id c)
unfolding integrate_entry
integrate_entry-Harvested s id c = record {
  same_jobs = ground arith;
  same_next = ground arith;
  same_done = ground arith;
  lowered = λ i h. ground (arith, h);
  valid = λ i h. ground (arith, h);
  spec = λ i h. ground (arith, h);
}

then-Harvested :
    (id : ℕ) (ids : List ℕ) (c d e : Cache)
    → Harvested (id ∷ []) c d
    → Harvested ids d e
    → Harvested (id ∷ ids) c e
then-Harvested id ids c d e a b = record {
  same_jobs = b.same_jobs ∙ a.same_jobs;
  same_next = b.same_next ∙ a.same_next;
  same_done = b.same_done ∙ a.same_done;
  lowered = λ i h. a.lowered i (b.lowered i h);
  valid = λ i h. elim (b.valid i h) [
    | inr there ↦ inr (ground (arith, there))
    | inl before ↦ ground (arith, a.valid i before)
  ];
  spec = λ i h. elim (b.spec i h) [
    | inr there ↦ inr (ground (arith, there))
    | inl before ↦ ground (arith, a.spec i before)
  ];
}

integrate_all-Harvested :
    (s : Shape) (ids : List ℕ) (c : Cache) → Harvested ids c (integrate_all s ids c)
unfolding integrate_all
integrate_all-Harvested s [] c = refl-Harvested c
integrate_all-Harvested s (id ∷ ids) c =
    then-Harvested id ids c (integrate_entry s id c) _ (integrate_entry-Harvested s id c)
      (integrate_all-Harvested s ids (integrate_entry s id c))

-- What the release of unfinished entries does: their counters fall to 0.
record Released (ids : List ℕ) (c d : Cache) : Type 0 where
  same_jobs : d.spec_jobs ≡ c.spec_jobs
  same_next : d.spec_next ≡ c.spec_next
  same_done : d.spec_done ≡ c.spec_done
  same_valid : d.cvalid ≡ c.cvalid
  same_spec : d.cspec ≡ c.cspec
  left : (i : ℕ) → d.spec_remaining i ≢ 0 → (c.spec_remaining i ≢ 0) × (elem i ids ≡ false)

release_unfinished-Released :
    (s : Shape) (id : ℕ) (c : Cache) → Released (id ∷ []) c (release_unfinished s id c)
unfolding release_unfinished release_entry_pages
release_unfinished-Released s id c = record {
  same_jobs = ground arith;
  same_next = ground arith;
  same_done = ground arith;
  same_valid = ground arith;
  same_spec = ground arith;
  left = λ i h. ground (arith, h);
}

then-Released :
    (id : ℕ) (ids : List ℕ) (c d e : Cache)
    → Released (id ∷ []) c d
    → Released ids d e
    → Released (id ∷ ids) c e
then-Released id ids c d e a b = record {
  same_jobs = b.same_jobs ∙ a.same_jobs;
  same_next = b.same_next ∙ a.same_next;
  same_done = b.same_done ∙ a.same_done;
  same_valid = b.same_valid ∙ a.same_valid;
  same_spec = b.same_spec ∙ a.same_spec;
  left = λ i h. let (r, p) = b.left i h in let (q, o) = a.left i r in (q, ground (arith, p, o));
}

release_all-Released : (s : Shape) (ids : List ℕ) (c : Cache) → Released ids c (release_all s ids c)
unfolding release_all
release_all-Released s [] c = record {
  same_jobs = refl;
  same_next = refl;
  same_done = refl;
  same_valid = refl;
  same_spec = refl;
  left = λ i h. (h, refl);
}
release_all-Released s (id ∷ ids) c =
    then-Released id ids c (release_unfinished s id c) _ (release_unfinished-Released s id c)
      (release_all-Released s ids (release_unfinished s id c))

-- The wait of the destructive quiesce is over: what is left of the round is taken in or given up,
-- and no entry counts a read.
module _ (s : Shape) (v : Spec) (waiting : v.quiescing ≡ true) (landed : v.flight ≡ [])
    (k : Sound s v) where
  middle : Cache
  middle = integrate_all s v.cache.spec_done (record v.cache { spec_done = []; spec_touched = [] })

  middle-Harvested :
      Harvested v.cache.spec_done (record v.cache { spec_done = []; spec_touched = [] }) middle
  unfolding middle
  middle-Harvested = integrate_all-Harvested s v.cache.spec_done _

  harvested-Released : Released v.cache.spec_touched middle (harvest_spec s v.cache)
  unfolding harvest_spec middle
  harvested-Released = release_all-Released s v.cache.spec_touched middle

  pub harvest_spec-queue : queue (harvest_spec s v.cache) ≡ []
  harvest_spec-queue =
      rw
        (
          harvested-Released.same_jobs ∙ middle-Harvested.same_jobs,
          harvested-Released.same_next ∙ middle-Harvested.same_next,
        )
        ((k.paused waiting).empty)

  pub harvest_spec-fields :
      ((harvest_spec s v.cache).spec_done ≡ [])
      × ((harvest_spec s v.cache).spec_jobs ≡ v.cache.spec_jobs)
  harvest_spec-fields = (
    harvested-Released.same_done ∙ middle-Harvested.same_done,
    harvested-Released.same_jobs ∙ middle-Harvested.same_jobs,
  )

  pub harvest_spec-zero : (id : ℕ) → (harvest_spec s v.cache).spec_remaining id ≡ 0
  harvest_spec-zero id = elim (Bool-cases ((harvest_spec s v.cache).spec_remaining id == 0)) [
    | inl zero_left ↦ ground (arith, zero_left)
    | inr some_left ↦
        let (a, b) = harvested-Released.left id (ground (arith, some_left)) in
        absurd (ground (arith, b, k.touched id (middle-Harvested.lowered id a)))
  ]

  pub harvest_spec-Sound :
      Sound s (record v { cache = harvest_spec s v.cache; quiescing = false; lost = [] })
  harvest_spec-Sound =
      let h = middle-Harvested in
      let r = harvested-Released in
      record {
        bounded = rw (r.same_jobs ∙ h.same_jobs, r.same_next ∙ h.same_next) k.bounded;
        touched = λ id g. absurd (g (harvest_spec-zero id));
        quiet = λ id g. rw (harvest_spec-queue, landed) refl;
        settled = λ id g. absurd (ground (arith, rw (r.same_done ∙ h.same_done) at g));
        whole = λ id g. absurd (ground (arith, rw (r.same_done ∙ h.same_done) at g));
        filled = λ id a b. elim (h.valid id (rw r.same_valid at a)) [
          | inr new ↦ k.whole id new
          | inl before ↦ elim (h.spec id (rw r.same_spec at b)) [
            | inr new ↦ k.whole id new
            | inl guessed ↦ k.filled id before guessed
          ]
        ];
        live = λ g. record {
          gens = rw landed tt;
          counted = λ id. harvest_spec-zero id ∙ rw (harvest_spec-queue, landed) refl;
          covered = λ id p a b c d. absurd (a (harvest_spec-zero id));
        };
        paused = λ g. absurd (ground (arith, g));
      }

unsettled-elem :
    (c : Cache) (ids : List ℕ) (i : ℕ)
    → c.spec_remaining i ≢ 0
    → elem i ids ≡ true
    → elem i (unsettled c ids) ≡ true
unfolding unsettled
unsettled-elem c [] i h g = absurd (ground (arith, g))
unsettled-elem c (id ∷ ids) i h g = elim (Bool-cases (id == i)) [
  | inl same ↦ let eq : id ≡ i = ground arith in ground (arith, eq, h)
  | inr other ↦ ground (arith, h, g, other, unsettled-elem c ids i)
]

pub adopt_layer-queue :
    (il : ℕ) (c : Cache)
    → c.spec_next ≤ length c.spec_jobs
    → queue (adopt_layer il c) ≡ jobs_of_layer true il (queue c) ++ jobs_of_layer false il (queue c)
unfolding adopt_layer
adopt_layer-queue il c h = drop-take-append c.spec_next c.spec_jobs _ h

pub adopt_layer-Sound :
    (s : Shape) (il : ℕ) (v : Spec)
    → v.quiescing ≡ false
    → Sound s v
    → Sound s (record v { cache = adopt_layer il v.cache })
adopt_layer-Sound s il v going k =
    let l = k.live going in
    let same : (t : IoJob → Bool)
        → pending t (record v { cache = adopt_layer il v.cache }) ≡ pending t v =
      λ t. omega (
        arith,
        ap (tally t) (adopt_layer-queue il v.cache k.bounded),
        tally-append t (jobs_of_layer true il (queue v.cache))
            (jobs_of_layer false il (queue v.cache)),
        tally-jobs_of_layer t il (queue v.cache),
      ) in
    unfold adopt_layer in
    record {
      bounded = omega (
        arith,
        length-append (take v.cache.spec_next v.cache.spec_jobs)
            (jobs_of_layer true il (queue v.cache) ++ jobs_of_layer false il (queue v.cache)),
        length-take v.cache.spec_next v.cache.spec_jobs k.bounded,
      );
      touched = λ id h. unsettled-elem v.cache v.cache.spec_touched id h (k.touched id h);
      quiet = λ id h. same (of_entry id) ∙ k.quiet id h;
      settled = k.settled;
      whole = k.whole;
      filled = k.filled;
      live = λ h. record {
        gens = l.gens;
        counted = λ id. omega (arith, l.counted id, same (of_entry id));
        covered = λ id p a b c d. omega (arith, l.covered id p a b c d, same (of_slice id p));
      };
      paused = λ h. absurd (ground (arith, h, going));
    }
