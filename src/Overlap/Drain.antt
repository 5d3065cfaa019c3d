-- ===== src/Overlap/Drain.antt =====
-- The lanes drain a batch: whatever their order, when every job is counted every flag is published.
use mathlib.Core.Path.{subst}
use mathlib.Core.Option.{some-injective}
use meitte.Base.{
  ℕ, ◌+◌, ◌≤◌, ◌<◌, ◌≡◌, refl, inl, inr, ◌⊎◌, Bool, true, false, List, [], ◌∷◌, Option, none, some,
  arith, elem, remove, weight, weight-remove, elem-remove_ne, Bool-cases, ◌==◌, ◌∙◌, ap, sym,
  get_elem?, if◌then◌else◌,
}
use meitte.Cache.{IoJob}
use meitte.Overlap.Defs.{Batch, Overlap}
use meitte.Overlap.Lanes.{
  Run, Step, taken, landed, counted, Steps, stay, more, land_job, publish_flag,
}
use meitte.Overlap.Jobs.{FlagIn, FlagIn-get_elem?}
use meitte.Overlap.Load.{Published}

-- The state in which the eval thread leaves the lanes.
abbrev pub start_run : Overlap → Run
start_run st = record { shared = st; flight = []; told = 0; read = [] }

-- Some job that publishes the flag was read.
abbrev pub WasRead : List IoJob → ℕ → List ℕ → Type 0
WasRead js f read =
    (i : ℕ) × (j : IoJob) × (elem i read ≡ true) × (get_elem? js i ≡ some j) × (j.flag ≡ some f)

-- The flag of job `i`, if it has one, carries the batch's generation.
abbrev Shown : List IoJob → ℕ → (ℕ → ℕ) → ℕ → Type 0
Shown js gen ready i =
    (j : IoJob) (f : ℕ) → get_elem? js i ≡ some j → j.flag ≡ some f → ready f ≡ gen

abbrev pub in_flight : Run → ℕ
in_flight r = weight (λ _. 1) r.flight

-- What the lanes keep of the published batch `b`: every job that was taken is in flight or shown, and
-- the counts agree.
pub record Draining (st : Overlap) (r : Run) : Type 0 where
  pub same_jobs : r.shared.batch.jobs ≡ st.batch.jobs
  pub same_njobs : r.shared.batch.njobs ≡ st.batch.njobs
  pub same_flag_gen : r.shared.batch.flag_gen ≡ st.batch.flag_gen
  pub same_gen : r.shared.async_gen ≡ st.async_gen
  pub same_il : r.shared.cur_il ≡ st.cur_il
  pub same_cache : r.shared.cache ≡ st.cache
  pub tally : r.shared.batch.done_cnt + r.told + in_flight r ≡ r.shared.batch.next_idx
  pub within : r.shared.batch.next_idx ≤ st.batch.njobs
  pub shown :
      (i : ℕ)
      → i < r.shared.batch.next_idx
      → (elem i r.flight ≡ true) ⊎ Shown st.batch.jobs st.batch.flag_gen r.shared.ready i
  pub earned :
      (f : ℕ)
      → r.shared.fatal ≡ false
      → r.shared.ready f ≡ st.batch.flag_gen
      → (st.ready f ≡ st.batch.flag_gen) ⊎ WasRead st.batch.jobs f r.read
  pub flying : (i : ℕ) → elem i r.flight ≡ true → i < r.shared.batch.next_idx
  pub stays : (f : ℕ) → st.ready f ≡ st.batch.flag_gen → r.shared.ready f ≡ st.batch.flag_gen

pub start_run-Draining :
    (st : Overlap) (gen : ℕ) → Published gen st.batch → Draining st (start_run st)
start_run-Draining st gen v = record {
  same_jobs = refl;
  same_njobs = refl;
  same_flag_gen = refl;
  same_gen = refl;
  same_il = refl;
  same_cache = refl;
  tally = omega (arith, v.none_taken, v.none_done);
  within = omega (arith, v.none_taken);
  shown = λ i h. absurd (omega (arith, v.none_taken));
  earned = λ f ok h. inl h;
  flying = λ i h. absurd (ground arith);
  stays = λ f h. h;
}

publish_flag-stays :
    (o : Option ℕ) (gen : ℕ) (ready : ℕ → ℕ) (f : ℕ)
    → ready f ≡ gen
    → publish_flag o gen ready f ≡ gen
publish_flag-stays none gen ready f h = h
publish_flag-stays (some i) gen ready f h = ground arith

-- The landing of job `i` shows it and leaves the others where they were.
Shown-landed :
    (js : List IoJob) (gen : ℕ) (ready : ℕ → ℕ) (flight : List ℕ) (i : ℕ) (j : IoJob)
    → get_elem? js i ≡ some j
    → (q : ℕ) → (elem q flight ≡ true) ⊎ Shown js gen ready q
    → (elem q (remove i flight) ≡ true) ⊎ Shown js gen (publish_flag j.flag gen ready) q
Shown-landed js gen ready flight i j at q (inr s) =
    inr (λ k f a b. publish_flag-stays j.flag gen ready f (s k f a b))
Shown-landed js gen ready flight i j at q (inl here) = elim (Bool-cases (q == i)) [
  | inr other ↦ inl (ground (arith, elem-remove_ne i q flight))
  | inl same ↦
      let eq : q ≡ i = ground arith in
      inr (λ k f a b.
        let own : j ≡ k = some-injective j k (sym at ∙ ap (get_elem? js) (sym eq) ∙ a) in
        rw (own, b) (ground arith))
]

landed_earned :
    (A : Type 0) (js : List IoJob) (gen : ℕ) (ready : ℕ → ℕ) (ok fatal : Bool) (read : List ℕ)
    (i : ℕ) (j : IoJob) (f : ℕ)
    → get_elem? js i ≡ some j
    → (fatal ≡ false → ready f ≡ gen → A ⊎ WasRead js f read)
    → (if ok then fatal else true) ≡ false
    → publish_flag j.flag gen ready f ≡ gen
    → A ⊎ WasRead js f (if ok then i ∷ read else read)
landed_earned A js gen ready false fatal read i j f at h fine now = absurd (ground arith)
landed_earned A js gen ready true fatal read i j f at h fine now = by_flag j.flag refl now
  where
    grow : A ⊎ WasRead js f read → A ⊎ WasRead js f (i ∷ read)
    grow (inl a) = inl a
    grow (inr (q, k, m, n, o)) = inr (q, k, ground arith, n, o)

    by_flag :
        (o : Option ℕ) → j.flag ≡ o → publish_flag o gen ready f ≡ gen → A ⊎ WasRead js f (i ∷ read)
    by_flag none e w = grow (h fine w)
    by_flag (some g) e w = elim (Bool-cases (g == f)) [
      | inl same ↦ let eq : g ≡ f = ground arith in inr (i, j, ground arith, at, e ∙ ap some eq)
      | inr other ↦ grow (h fine (ground arith))
    ]

-- A failed read leaves its mark on the batch and nothing else.
marked-same :
    (ok : Bool) (b : Batch)
    → let d = if ok then b else record b { io_err = true } in
      (d.jobs ≡ b.jobs)
      × (d.njobs ≡ b.njobs)
      × (d.flag_gen ≡ b.flag_gen)
      × (d.done_cnt ≡ b.done_cnt)
      × (d.next_idx ≡ b.next_idx)
marked-same true b = (refl, refl, refl, refl, refl)
marked-same false b = (refl, refl, refl, refl, refl)

pub Step-Draining : (st : Overlap) (r u : Run) → Draining st r → Step r u → Draining st u
unfolding land_job
Step-Draining st r u v (taken i at lt) = record {
  same_jobs = v.same_jobs;
  same_njobs = v.same_njobs;
  same_flag_gen = v.same_flag_gen;
  same_gen = v.same_gen;
  same_il = v.same_il;
  same_cache = v.same_cache;
  tally = omega (arith, v.tally, at);
  within = omega (arith, v.same_njobs, lt);
  shown = λ q h. elim (Bool-cases (i == q)) [
    | inl same ↦ inl (ground arith)
    | inr other ↦ elim (v.shown q (ground (arith, at))) [
      | inl here ↦ inl (ground arith)
      | inr s ↦ inr s
    ]
  ];
  earned = v.earned;
  flying = λ q h. elim (Bool-cases (i == q)) [
    | inl same ↦ ground (arith, at)
    | inr other ↦ omega (arith, at, v.flying q (ground arith))
  ];
  stays = v.stays;
}
Step-Draining st r u v (landed ok i j here at) =
    let (js, nj, fg, dn, nx) = marked-same ok r.shared.batch in
    let at2 : get_elem? st.batch.jobs i ≡ some j =
      ap (λ js. get_elem? js i) (sym v.same_jobs) ∙ at in
    record {
      same_jobs = js ∙ v.same_jobs;
      same_njobs = nj ∙ v.same_njobs;
      same_flag_gen = fg ∙ v.same_flag_gen;
      same_gen = v.same_gen;
      same_il = v.same_il;
      same_cache = v.same_cache;
      tally = omega (arith, v.tally, dn, nx, weight-remove (λ _. 1) i r.flight here);
      within = omega (arith, nx, v.within);
      shown = λ q h. rw v.same_flag_gen (
          Shown-landed st.batch.jobs st.batch.flag_gen r.shared.ready r.flight i j at2 q
            (v.shown q (omega (arith, nx, h))));
      earned = λ f fine h.
          landed_earned _ st.batch.jobs st.batch.flag_gen r.shared.ready ok r.shared.fatal r.read i
            j f at2 (λ a. v.earned f a) fine
            (subst (λ z. publish_flag j.flag z r.shared.ready f ≡ st.batch.flag_gen) v.same_flag_gen
              h);
      flying = λ q h. elim (Bool-cases (q == i)) [
        | inl same ↦ let eq : q ≡ i = ground arith in omega (arith, nx, eq, v.flying i here)
        | inr other ↦ omega (arith, nx, v.flying q (ground (arith, elem-remove_ne i q r.flight)))
      ];
      stays = λ f h.
          rw v.same_flag_gen
            (publish_flag-stays j.flag st.batch.flag_gen r.shared.ready f (v.stays f h));
    }
Step-Draining st r u v (counted n h) = record {
  same_jobs = v.same_jobs;
  same_njobs = v.same_njobs;
  same_flag_gen = v.same_flag_gen;
  same_gen = v.same_gen;
  same_il = v.same_il;
  same_cache = v.same_cache;
  tally = omega (arith, v.tally, h);
  within = v.within;
  shown = v.shown;
  earned = v.earned;
  flying = v.flying;
  stays = v.stays;
}

pub Steps-Draining : (st : Overlap) (r u : Run) → Draining st r → Steps r u → Draining st u
Steps-Draining st r u v stay = v
Steps-Draining st r u v (more w z ws last) = Step-Draining st w u (Steps-Draining st r w v ws) last

no_flight : (i : ℕ) (xs : List ℕ) → weight (λ _. 1) xs ≡ 0 → elem i xs ≡ false
no_flight i [] h = refl
no_flight i (x ∷ xs) h = absurd (omega (arith, h))

-- The jobs were all counted: their flags carry the generation, and so does every flag that did before.
pub drained :
    (st : Overlap) (u : Run) (gen f : ℕ)
    → Published gen st.batch
    → Draining st u
    → u.shared.batch.done_cnt ≡ u.shared.batch.njobs
    → (st.ready f ≡ gen) ⊎ FlagIn f st.batch.jobs
    → u.shared.ready f ≡ gen
drained st u gen f p v all (inl before) = rw (← p.flags) (v.stays f (before ∙ sym p.flags))
drained st u gen f p v all (inr job) =
    let (i, j, lt, at, fl) = FlagIn-get_elem? f st.batch.jobs job in
    elim (v.shown i (omega (arith, v.tally, v.same_njobs, all, lt, p.whole))) [
      | inr s ↦ s j f at fl ∙ p.flags
      | inl here ↦ absurd (
          ground (
            arith,
            here,
            no_flight i u.flight (omega (arith, v.tally, v.within, v.same_njobs, all)),
          ))
    ]
