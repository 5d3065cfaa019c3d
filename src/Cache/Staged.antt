-- ===== src/Cache/Staged.antt =====
-- Staging a layer: every expert that was seen is resident and carries the load's generation, so the
-- eviction that follows cannot take it.
use meitte.Base.{
  ℕ, ◌+◌, ◌<◌, ◌≡◌, refl, ◌≢◌, inl, inr, Bool, true, false, List, [], ◌∷◌, Option, none, arith,
  elem, remove, Bool-cases, ◌==◌, ◌∙◌, ap, update, elem-remove_ne,
}
use meitte.Cache.Defs.{Shape, Vm, Cache, entry_id}
use meitte.Cache.Entry.{
  Touch, refused, hit, miss, touch_entry, count_hit, promote_entry, enter_entry, after_commit,
  commit_projs, projections,
}
use meitte.Cache.Load.{
  Staging, after_touch, stage, promote_again, mark_seen, stage_expert, and_stage,
}
use meitte.Cache.Invariant.{Keeps, Fits}
use meitte.Cache.Touch.{
  order_after, touch_entry-Keeps, promote_entry-Keeps, OnlyOs, commit_projs-OnlyOs,
}

-- What a lookup leaves alone, and the generation that it stamps.
pub record Stamps (c d : Cache) (id : ℕ) : Type 0 where
  pub stamped : d.cstamp ≡ update c.cstamp id c.cgen
  pub same_gen : d.cgen ≡ c.cgen
  pub same_max : d.cache_max ≡ c.cache_max
  pub same_done : d.spec_done ≡ c.spec_done

after_commit-Stamps :
    (s : Shape) (il id : ℕ) (b c : Cache) (r : Cache × Bool)
    → OnlyOs c r.0
    → Stamps b c id
    → Stamps b (after_commit s il id r).0 id
unfolding enter_entry
after_commit-Stamps s il id b c (d, true) h v = record {
  stamped = ap (λ (z : Cache). z.cstamp) h ∙ v.stamped;
  same_gen = ap (λ (z : Cache). z.cgen) h ∙ v.same_gen;
  same_max = ap (λ (z : Cache). z.cache_max) h ∙ v.same_max;
  same_done = ap (λ (z : Cache). z.spec_done) h ∙ v.same_done;
}
after_commit-Stamps s il id b c (d, false) h v = record {
  stamped = ap (λ (z : Cache). z.cstamp) h ∙ v.stamped;
  same_gen = ap (λ (z : Cache). z.cgen) h ∙ v.same_gen;
  same_max = ap (λ (z : Cache). z.cache_max) h ∙ v.same_max;
  same_done = ap (λ (z : Cache). z.spec_done) h ∙ v.same_done;
}

pub touch_entry-Stamps :
    (vm : Vm) (s : Shape) (il e : ℕ) (promote : Bool) (only : Option ℕ) (c : Cache)
    → Stamps c (touch_entry vm s il e promote only c).0 (entry_id s il e)
unfolding touch_entry count_hit promote_entry
touch_entry-Stamps vm s il e promote only c =
    let id = entry_id s il e in
    let looked : Cache = record c {
      clookups = c.clookups + 1;
      cstamp = update c.cstamp id c.cgen;
    } in
    elim (Bool-cases (c.cvalid id)) [
      | inl there ↦ rw there (ground arith)
      | inr absent ↦ rw absent (
          after_commit-Stamps s il id c looked (commit_projs vm s il e only projections looked)
            (commit_projs-OnlyOs vm s il e only projections looked)
            (record { stamped = refl; same_gen = refl; same_max = refl; same_done = refl }))
    ]

-- The staging state with the cache on: `xs` are the resident entries, `ok` says that no step failed.
pub record Staged (s : Shape) (il g m : ℕ) (t : Staging) (ok : Bool) (xs : List ℕ) : Type 0 where
  pub keeps : Keeps s t.cache xs
  pub gen : t.cache.cgen ≡ g
  pub budget : t.cache.cache_max ≡ m
  pub done : t.cache.spec_done ≡ []
  pub present :
      ok ≡ true
      → (e : ℕ) → t.seen e ≡ true
      → (elem (entry_id s il e) xs ≡ true) × (t.cache.cstamp (entry_id s il e) ≡ g)

-- A step of staging: it forgets no expert, and on success it has seen `want`.
pub record Stages (s : Shape) (il g m : ℕ) (t : Staging) (r : Staging × Bool) : Type 0 where
  pub order : List ℕ
  pub staged : Staged s il g m r.0 r.1 order
  pub grows : (e : ℕ) → t.seen e ≡ true → r.0.seen e ≡ true

elem-order_after :
    (t : Touch) (promote : Bool) (id i : ℕ) (xs : List ℕ)
    → elem i xs ≡ true
    → elem i (order_after t promote id xs) ≡ true
elem-order_after refused promote id i xs h = h
elem-order_after hit promote id i xs h = ground (arith, elem-remove_ne id i xs)
elem-order_after miss promote id i xs h = ground arith

-- What staging one expert yields: a step, and the expert is seen.
abbrev pub Saw : Shape → ℕ → ℕ → ℕ → ℕ → Staging → Staging × Bool → Type 0
Saw s il g m e t r = Stages s il g m t r × (r.0.seen e ≡ true)

module _ (s : Shape) (fits : Fits s) (vm : Vm) (il : ℕ) (hl : il < s.n_layer) (g m : ℕ)
    (on : m ≢ 0) where
  -- The expert that was looked up is present, and the others still are.
  kept_present :
      (t : Staging) (xs : List ℕ) (e : ℕ) (d : Cache) (u : Touch)
      → u ≢ refused
      → Staged s il g m t true xs
      → Stamps t.cache d (entry_id s il e)
      → elem (entry_id s il e) (order_after u true (entry_id s il e) xs) ≡ true
      → (i : ℕ) → update t.seen e true i ≡ true
      → (elem (entry_id s il i) (order_after u true (entry_id s il e) xs) ≡ true)
        × (d.cstamp (entry_id s il i) ≡ g)
  kept_present t xs e d u ne v st here i seen = elim (Bool-cases (e == i)) [
    | inl same ↦
        let eq : e ≡ i = ground arith in
        (rw (← eq) here, rw (st.stamped, ← eq) (ground (arith, v.gen)))
    | inr other ↦
        let (was, stamp) = v.present refl i (ground arith) in
        (
          elem-order_after u true (entry_id s il e) (entry_id s il i) xs was,
          rw st.stamped (ground (arith, v.gen)),
        )
  ]

  after_touch-Saw :
      (e : ℕ) (t : Staging) (xs : List ℕ) (r : Cache × Touch)
      → Staged s il g m t true xs
      → Keeps s r.0 (order_after r.1 true (entry_id s il e) xs)
      → Stamps t.cache r.0 (entry_id s il e)
      → Saw s il g m e t (after_touch s il e (mark_seen e t) r)
  after_touch-Saw e t xs (d, refused) v k st = (
    record {
      order = xs;
      staged = record {
        keeps = k;
        gen = st.same_gen ∙ v.gen;
        budget = st.same_max ∙ v.budget;
        done = st.same_done ∙ v.done;
        present = λ ok. cc;
      };
      grows = λ i h. ground arith;
    },
    ground arith,
  )
  after_touch-Saw e t xs (d, hit) v k st = (
    record {
      order = entry_id s il e ∷ remove (entry_id s il e) xs;
      staged = record {
        keeps = k;
        gen = st.same_gen ∙ v.gen;
        budget = st.same_max ∙ v.budget;
        done = st.same_done ∙ v.done;
        present = λ ok. kept_present t xs e d hit (cc) v st (ground arith);
      };
      grows = λ i h. ground arith;
    },
    ground arith,
  )
  after_touch-Saw e t xs (d, miss) v k st = (
    record {
      order = entry_id s il e ∷ xs;
      staged = record {
        keeps = k;
        gen = st.same_gen ∙ v.gen;
        budget = st.same_max ∙ v.budget;
        done = st.same_done ∙ v.done;
        present = λ ok. kept_present t xs e d miss (cc) v st (ground arith);
      };
      grows = λ i h. ground arith;
    },
    ground arith,
  )

  cache_on :
      (t : Staging) (xs : List ℕ) {ok : Bool}
      → Staged s il g m t ok xs
      → (t.cache.cache_max == 0) ≡ false
  cache_on t xs v = ground (arith, v.budget)

  pub stage-Saw :
      (e : ℕ) (t : Staging) (xs : List ℕ)
      → e < s.n_expert
      → Staged s il g m t true xs
      → Saw s il g m e t (stage vm s il e (mark_seen e t))
  unfolding stage
  stage-Saw e t xs he v = rw (cache_on t xs v) (
      after_touch-Saw e t xs (touch_entry vm s il e true none t.cache) v
        (touch_entry-Keeps s fits vm il e hl he true none t.cache xs v.keeps)
        (touch_entry-Stamps vm s il e true none t.cache))

  promote_again-Saw :
      (e : ℕ) (t : Staging) (xs : List ℕ)
      → t.seen e ≡ true
      → Staged s il g m t true xs
      → Saw s il g m e t (promote_again s il e t, true)
  unfolding promote_again promote_entry
  promote_again-Saw e t xs seen v =
      let id = entry_id s il e in
      rw (cache_on t xs v) (
        record {
          order = id ∷ remove id xs;
          staged = record {
            keeps = promote_entry-Keeps s fits t.cache xs v.keeps id (v.present refl e seen).0;
            gen = v.gen;
            budget = v.budget;
            done = v.done;
            present = λ ok i h.
                let (was, stamp) = v.present refl i h in
                (elem-order_after hit true id (entry_id s il i) xs was, stamp);
          };
          grows = λ i h. h;
        },
        seen,
      )

  pub stage_expert-Saw :
      (e : ℕ) (t : Staging) (xs : List ℕ)
      → e < s.n_expert
      → Staged s il g m t true xs
      → Saw s il g m e t (stage_expert vm s il e t)
  unfolding stage_expert
  stage_expert-Saw e t xs he v = elim (Bool-cases (t.seen e)) [
    | inl again ↦ rw again (promote_again-Saw e t xs again v)
    | inr new ↦ rw new (stage-Saw e t xs he v)
  ]

  pub nothing :
      (t : Staging) (xs : List ℕ) → Staged s il g m t true xs → Stages s il g m t (t, true)
  nothing t xs v = record { order = xs; staged = v; grows = λ e h. h }

  -- Two steps, of which the second runs only if the first succeeds.
  pub and_stage-Stages :
      (t : Staging) (r : Staging × Bool) (f : Staging → Staging × Bool)
      → Stages s il g m t r
      → ((u : Staging) (xs : List ℕ) → Staged s il g m u true xs → Stages s il g m u (f u))
      → Stages s il g m t (and_stage r f)
  and_stage-Stages t (u, true) f v h =
      let w = h u v.order v.staged in
      record { order = w.order; staged = w.staged; grows = λ e k. w.grows e (v.grows e k) }
  and_stage-Stages t (u, false) f v h = v
