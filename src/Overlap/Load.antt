-- ===== src/Overlap/Load.antt =====
-- What an overlapped load leaves behind when it returns.
use mathlib.Core.Path.{subst}
use mathlib.Core.Option.{some-injective}
use meitte.Base.{
  ℕ, ◌≡◌, refl, ◌≢◌, inl, inr, ◌⊎◌, Bool, true, false, List, [], ◌∷◌, some, elem, ◌==◌, ◌∙◌, ap, ℤ,
  sym, length, if◌then◌else◌,
}
use meitte.Cache.{Shape, Vm, Cache, entry_id}
use meitte.Cache.Entry.{projections, retain_ids}
use meitte.Cache.Budget.{older_entry, evict_to_budget}
use meitte.Cache.Invariant.{Keeps, Fits}
use meitte.Cache.Evict.{Settled, evict_to_budget-Evicted}
use meitte.Cache.Residency.{Retained, unmoved, retain_ids-Retained}
use meitte.Cache.Touch.{OnlyOs, and_then-OnlyOs, commit_proj_pages-OnlyOs, OnlyOs-Keeps}
use meitte.Cache.LoadLayer.{survives}
use meitte.Overlap.Defs.{Batch, Overlap, flag_of}
use meitte.Overlap.Start.{
  Looked, commit_others, commit_missed, settle_load, finish_second, emit_proj, publish,
}
use meitte.Overlap.Lookup.{Served}
use meitte.Overlap.Jobs.{FlagIn, FlagIn-left, FlagIn-right, emit_proj-FlagIn, emit_projs-FlagIn}

commit_others-OnlyOs :
    (vm : Vm) (s : Shape) (il e p0 : ℕ) (ps : List ℕ) (c : Cache)
    → OnlyOs c (commit_others vm s il e p0 ps c).0
unfolding commit_others
commit_others-OnlyOs vm s il e p0 [] c = refl
commit_others-OnlyOs vm s il e p0 (p ∷ ps) c =
    and_then-OnlyOs c _ (λ d. commit_others vm s il e p0 ps d)
      (commit_proj_pages-OnlyOs vm s il e (p == p0) p c)
      (λ d. commit_others-OnlyOs vm s il e p0 ps d)

pub commit_missed-OnlyOs :
    (vm : Vm) (s : Shape) (il p0 : ℕ) (missed : ℕ → Bool) (es : List ℕ) (c : Cache)
    → OnlyOs c (commit_missed vm s il p0 missed es c).0
unfolding commit_missed
commit_missed-OnlyOs vm s il p0 missed [] c = refl
commit_missed-OnlyOs vm s il p0 missed (e ∷ es) c =
    and_then-OnlyOs c _ (λ d. commit_missed vm s il p0 missed es d) (one (missed e))
      (λ d. commit_missed-OnlyOs vm s il p0 missed es d)
  where
    one :
        (b : Bool) → OnlyOs c (if b then commit_others vm s il e p0 projections c else (c, true)).0
    one true = commit_others-OnlyOs vm s il e p0 projections c
    one false = refl

-- Every present projection of the expert is ready, or a job of the batch publishes its flag.
abbrev pub Covered : Shape → ℕ → Overlap → ℕ → Type 0
Covered s il st e =
    (p : ℕ)
    → elem p projections ≡ true
    → (s.nb2 il p == 0) ≡ false
    → (st.ready (flag_of s p e) ≡ st.async_gen) ⊎ FlagIn (flag_of s p e) st.batch.jobs

-- A batch that no lane has touched.
pub record Published (gen : ℕ) (b : Batch) : Type 0 where
  pub none_taken : b.next_idx ≡ 0
  pub none_done : b.done_cnt ≡ 0
  pub whole : b.njobs ≡ length b.jobs
  pub flags : b.flag_gen ≡ gen

-- What a load promises; `es` is the routed set, and `xs` what the load leaves resident.
pub record AsyncOk (s : Shape) (il gen m : ℕ) (es : List ℕ) (st : Overlap) (xs : List ℕ)
    : Type 0 where
  pub keeps : Keeps s st.cache xs
  pub routed :
      (e : ℕ) → elem e es ≡ true → (st.cache.cvalid (entry_id s il e) ≡ true) × Covered s il st e
  pub settled : Settled older_entry st.cache
  pub same_max : st.cache.cache_max ≡ m
  pub current : st.cur_il ≡ some il
  pub gen_is : st.async_gen ≡ gen
  pub published : Published gen st.batch

module _ (s : Shape) (fits : Fits s) (il g m : ℕ) (on : m ≢ 0) where
  -- What the promotions and the eviction leave.
  pub record Settles (c d : Cache) (xs ys : List ℕ) : Type 0 where
    left : Keeps s d ys
    spared : (i : ℕ) → elem i xs ≡ true → c.cstamp i ≡ g → d.cvalid i ≡ true
    stops : Settled older_entry d
    budget : d.cache_max ≡ c.cache_max

  evict-Settles :
      (c b : Cache) (xs ys : List ℕ)
      → c.cgen ≡ g
      → Retained s c b xs ys
      → (zs : List ℕ) × Settles c (evict_to_budget older_entry s b) xs zs
  evict-Settles c b xs ys hg v =
      let (zs, ev) = evict_to_budget-Evicted s fits older_entry b ys v.keeps in
      (
        zs,
        record {
          left = ev.keeps;
          spared = λ i h st.
              survives s fits il g m on b _ ys zs i ev (v.same_gen ∙ hg) (v.same_entries i ∙ h)
                (ap (λ (f : ℕ → ℕ). f i) v.same_stamps ∙ st);
          stops = ev.settled;
          budget = ev.same_max ∙ v.same_max;
        },
      )

  pub settle_load-Settles :
      (ids : List ℤ) (c : Cache) (xs : List ℕ)
      → c.cgen ≡ g
      → Keeps s c xs
      → (zs : List ℕ) × Settles c (settle_load s il ids c) xs zs
  unfolding settle_load
  settle_load-Settles ids c xs hg k = promoted s.load_all
    where
      promoted :
          (b : Bool)
          → (zs : List ℕ) × Settles c
              (evict_to_budget older_entry s (if b then c else retain_ids s il ids c))
              xs
              zs
      promoted true = let (ys, v) = unmoved s fits c xs k in evict-Settles c c xs ys hg v
      promoted false =
          let (ys, v) = retain_ids-Retained s fits il ids c xs k in
          evict-Settles c (retain_ids s il ids c) xs ys hg v

module _ (s : Shape) (fits : Fits s) (il g gen m : ℕ) (on : m ≢ 0) (ids : List ℤ)
    (es : List ℕ) where
  -- What holds of the load's outcome, also where it fails.
  abbrev pub Outcome : Overlap × Bool → Type 0
  Outcome r =
      ((ys : List ℕ) × Keeps s r.0.cache ys)
      × (r.1 ≡ true → (ys : List ℕ) × AsyncOk s il gen m es r.0 ys)

  covered :
      (l : Looked) (st : Overlap) (xs : List ℕ) (e : ℕ)
      → st.ready ≡ l.ready
      → st.async_gen ≡ gen
      → ((p : ℕ)
          → elem p projections ≡ true
          → (s.nb2 il p == 0) ≡ false
          → l.missed e ≡ true
          → FlagIn (flag_of s p e) st.batch.jobs)
      → Served s il g gen l xs e
      → Covered s il st e
  covered l st xs e rd ag jobs v p m h = elim v.served [
    | inl missed ↦ inr (jobs p m h missed)
    | inr marked ↦ inl (ap (λ (r : ℕ → ℕ). r (flag_of s p e)) rd ∙ marked p m h ∙ sym ag)
  ]

  -- A state that differs from the lookups' in the cache's calls, the settling and the batch.
  pub concluded :
      (l : Looked) (c : Cache) (st : Overlap) (xs ys : List ℕ)
      → st.ready ≡ l.ready
      → st.async_gen ≡ gen
      → st.cur_il ≡ some il
      → Published gen st.batch
      → c.cstamp ≡ l.cache.cstamp
      → c.cache_max ≡ m
      → ((e : ℕ) → elem e es ≡ true → Served s il g gen l xs e)
      → ((p e : ℕ)
          → elem p projections ≡ true
          → elem e es ≡ true
          → (s.nb2 il p == 0) ≡ false
          → l.missed e ≡ true
          → FlagIn (flag_of s p e) st.batch.jobs)
      → Settles s fits il g m on c st.cache xs ys
      → Outcome (st, true)
  concluded l c st xs ys rd ag cur pub_ st_ hm all jobs v = (
    (ys, v.left),
    λ ok. (
      ys,
      record {
        keeps = v.left;
        routed = λ e h.
            let w = all e h in
            (
              v.spared (entry_id s il e) w.here
                  (ap (λ (f : ℕ → ℕ). f (entry_id s il e)) st_ ∙ w.stamp),
              covered l st xs e rd ag (λ p a b c. jobs p e a h b c) w,
            );
        settled = v.stops;
        same_max = v.budget ∙ hm;
        current = cur;
        gen_is = ag;
        published = pub_;
      },
    ),
  )

  pub finish_second-Outcome :
      (p0 : ℕ) (l : Looked) (st : Overlap) (b : Batch) (xs : List ℕ) (r : Cache × Bool)
      → st.ready ≡ l.ready
      → st.async_gen ≡ gen
      → st.cur_il ≡ some il
      → st.batch ≡ publish gen (emit_proj s (λ p. s.lbuf p il) il l.missed es p0) b
      → OnlyOs l.cache r.0
      → l.cache.cgen ≡ g
      → l.cache.cache_max ≡ m
      → Keeps s l.cache xs
      → ((e : ℕ) → elem e es ≡ true → Served s il g gen l xs e)
      → Outcome (finish_second s il ids p0 l es st r)
  finish_second-Outcome p0 l st b xs (c, false) rd ag cur bt os hg hm k all =
      ((xs, OnlyOs-Keeps s l.cache c xs os k), λ ok. cc)
  finish_second-Outcome p0 l st b xs (c, true) rd ag cur bt os hg hm k all =
      let (ys, v) =
        settle_load-Settles s fits il g m on ids c xs (ap (λ (z : Cache). z.cgen) os ∙ hg)
          (OnlyOs-Keeps s l.cache c xs os k) in
      concluded l c _ xs ys rd ag cur
        (record {
          none_taken = ap (λ (z : Batch). z.next_idx) bt;
          none_done = ap (λ (z : Batch). z.done_cnt) bt;
          whole = refl;
          flags = ap (λ (z : Batch). z.flag_gen) bt;
        })
        (ap (λ (z : Cache). z.cstamp) os) (ap (λ (z : Cache). z.cache_max) os ∙ hm) all
        (λ p e a h q ms.
          elim (emit_projs-FlagIn s il l.missed (λ p. s.lbuf p il) e es (some p0) projections p ms h
            a q) [
              | inr later ↦ FlagIn-right _ st.batch.jobs _ later
              | inl first ↦ FlagIn-left _ st.batch.jobs _ (
                  subst (FlagIn (flag_of s p e)) (sym (ap (λ (z : Batch). z.jobs) bt)) (
                    rw (some-injective p0 p first)
                      (emit_proj-FlagIn s il l.missed (λ p. s.lbuf p il) p e es ms h q)))
            ])
        v
