-- ===== src/Prefetch/Ordered.antt =====
-- The entries that wait to be integrated are entries of the cache, each waiting once.
use meitte.Base.{
  ℕ, zero, suc, ◌-◌, ◌<◌, ◌≡◌, refl, inl, inr, Bool, true, false, List, [], ◌∷◌, ◌++◌, Option, none,
  some, ◌==◌, arith, elem, Distinct, Bool-cases, AllBelow, AtSome, take, drop, get_elem?,
}
use meitte.Lru.Neighbours.{snoc-Distinct}
use meitte.Cache.{Shape, IoJob, Cache, n_entry, entry_id}
use meitte.Cache.Entry.{projections}
use meitte.Cache.Touch.{entry_id-lt}
use meitte.Cache.Quiesce.{snoc-AllBelow}
use meitte.Prefetch.Defs.{Flying, Spec, queue}
use meitte.Prefetch.Issue.{spec_job}
use meitte.Prefetch.Slices.{spec_jobs_of}
use meitte.Prefetch.Lanes.{take_spec, remove_at, count_down, account_read, land_spec}
use meitte.Prefetch.Settle.{jobs_of_layer, adopt_layer}
use meitte.Prefetch.Staging.{jobs_of}

-- The entry that the job is for, if any, is below `n`.
abbrev pub ForBelow : ℕ → IoJob → Type 0
ForBelow n j = AtSome (λ id. id < n) j.flag

abbrev pub JobsBelow : ℕ → List IoJob → Type 0
JobsBelow n [] = Unit {0}
JobsBelow n (j ∷ js) = ForBelow n j × JobsBelow n js

abbrev pub FlyingBelow : ℕ → List Flying → Type 0
FlyingBelow n [] = Unit {0}
FlyingBelow n (f ∷ fs) = ForBelow n f.job × FlyingBelow n fs

pub record Ordered (s : Shape) (v : Spec) : Type 0 where
  pub once : Distinct v.cache.spec_done
  pub below : AllBelow (n_entry s) v.cache.spec_done
  pub queued : JobsBelow (n_entry s) v.cache.spec_jobs
  pub flying : FlyingBelow (n_entry s) v.flight

JobsBelow-get_elem? :
    (n i : ℕ) (js : List IoJob) (j : IoJob)
    → JobsBelow n js
    → get_elem? js i ≡ some j
    → ForBelow n j
JobsBelow-get_elem? n zero [] j h at = absurd (ground (arith, at))
JobsBelow-get_elem? n (suc i) [] j h at = absurd (ground (arith, at))
JobsBelow-get_elem? n zero (k ∷ ks) j h at = ground (arith, h, at)
JobsBelow-get_elem? n (suc i) (k ∷ ks) j h at = JobsBelow-get_elem? n i ks j h.1 at

FlyingBelow-get_elem? :
    (n i : ℕ) (fs : List Flying) (f : Flying)
    → FlyingBelow n fs
    → get_elem? fs i ≡ some f
    → ForBelow n f.job
FlyingBelow-get_elem? n zero [] f h at = absurd (ground (arith, at))
FlyingBelow-get_elem? n (suc i) [] f h at = absurd (ground (arith, at))
FlyingBelow-get_elem? n zero (g ∷ gs) f h at = ground (arith, h, at)
FlyingBelow-get_elem? n (suc i) (g ∷ gs) f h at = FlyingBelow-get_elem? n i gs f h.1 at

remove_at-FlyingBelow :
    (n i : ℕ) (fs : List Flying) → FlyingBelow n fs → FlyingBelow n (remove_at i fs)
remove_at-FlyingBelow n zero [] h = tt
remove_at-FlyingBelow n (suc i) [] h = tt
remove_at-FlyingBelow n zero (f ∷ fs) h = h.1
remove_at-FlyingBelow n (suc i) (f ∷ fs) h = (h.0, remove_at-FlyingBelow n i fs h.1)

pub append-JobsBelow :
    (n : ℕ) (xs ys : List IoJob) → JobsBelow n xs → JobsBelow n ys → JobsBelow n (xs ++ ys)
append-JobsBelow n [] ys h g = g
append-JobsBelow n (x ∷ xs) ys h g = (h.0, append-JobsBelow n xs ys h.1 g)

take-JobsBelow : (n i : ℕ) (js : List IoJob) → JobsBelow n js → JobsBelow n (take i js)
take-JobsBelow n zero js h = tt
take-JobsBelow n (suc i) [] h = tt
take-JobsBelow n (suc i) (j ∷ js) h = (h.0, take-JobsBelow n i js h.1)

drop-JobsBelow : (n i : ℕ) (js : List IoJob) → JobsBelow n js → JobsBelow n (drop i js)
drop-JobsBelow n zero js h = h
drop-JobsBelow n (suc i) [] h = tt
drop-JobsBelow n (suc i) (j ∷ js) h = drop-JobsBelow n i js h.1

jobs_of_layer-JobsBelow :
    (n : ℕ) (own : Bool) (il : ℕ) (js : List IoJob)
    → JobsBelow n js
    → JobsBelow n (jobs_of_layer own il js)
jobs_of_layer-JobsBelow n own il [] h = tt
jobs_of_layer-JobsBelow n true il (j ∷ js) h =
    ground (arith, h, jobs_of_layer-JobsBelow n true il js h.1)
jobs_of_layer-JobsBelow n false il (j ∷ js) h =
    ground (arith, h, jobs_of_layer-JobsBelow n false il js h.1)

spec_jobs_of-JobsBelow :
    (s : Shape) (il e : ℕ) (ps : List ℕ)
    → entry_id s il e < n_entry s
    → JobsBelow (n_entry s) (spec_jobs_of s il e ps)
unfolding spec_jobs_of spec_job
spec_jobs_of-JobsBelow s il e [] h = tt
spec_jobs_of-JobsBelow s il e (p ∷ ps) h = elim (Bool-cases (s.nb2 il p == 0)) [
  | inl absent ↦ rw absent (spec_jobs_of-JobsBelow s il e ps h)
  | inr there ↦ rw there (h, spec_jobs_of-JobsBelow s il e ps h)
]

pub jobs_of-JobsBelow :
    (s : Shape) (il : ℕ) (ds : List ℕ)
    → il < s.n_layer
    → ((e : ℕ) → elem e ds ≡ true → e < s.n_expert)
    → JobsBelow (n_entry s) (jobs_of s il ds)
unfolding jobs_of
jobs_of-JobsBelow s il [] hl h = tt
jobs_of-JobsBelow s il (d ∷ ds) hl h =
    append-JobsBelow (n_entry s) (spec_jobs_of s il d projections) (jobs_of s il ds)
      (spec_jobs_of-JobsBelow s il d projections (entry_id-lt s il d hl (h d (ground arith))))
      (jobs_of-JobsBelow s il ds hl (λ e m. h e (ground (arith, m))))

pub adopt_layer-Ordered :
    (s : Shape) (il : ℕ) (v : Spec)
    → Ordered s v
    → Ordered s (record v { cache = adopt_layer il v.cache })
unfolding adopt_layer
adopt_layer-Ordered s il v o =
    let q = drop-JobsBelow (n_entry s) v.cache.spec_next v.cache.spec_jobs o.queued in
    record {
      once = o.once;
      below = o.below;
      queued =
          append-JobsBelow (n_entry s) (take v.cache.spec_next v.cache.spec_jobs) _
            (take-JobsBelow (n_entry s) v.cache.spec_next v.cache.spec_jobs o.queued)
            (append-JobsBelow (n_entry s) _ _
              (jobs_of_layer-JobsBelow (n_entry s) true il (queue v.cache) q)
              (jobs_of_layer-JobsBelow (n_entry s) false il (queue v.cache) q));
      flying = o.flying;
    }

pub take_spec-Ordered :
    (s : Shape) (j : IoJob) (v : Spec)
    → get_elem? v.cache.spec_jobs v.cache.spec_next ≡ some j
    → Ordered s v
    → Ordered s (take_spec j v)
unfolding take_spec
take_spec-Ordered s j v at o = record {
  once = o.once;
  below = o.below;
  queued = o.queued;
  flying =
      (JobsBelow-get_elem? (n_entry s) v.cache.spec_next v.cache.spec_jobs j o.queued at, o.flying);
}

count_down-once :
    (n id : ℕ) (c : Cache)
    → id < n
    → Distinct c.spec_done
    → AllBelow n c.spec_done
    → elem id c.spec_done ≡ false
    → Distinct (count_down id c).spec_done
      × AllBelow n (count_down id c).spec_done
      × ((count_down id c).spec_jobs ≡ c.spec_jobs)
unfolding count_down
count_down-once n id c lt d b m = elim (Bool-cases (c.spec_remaining id - 1 == 0)) [
  | inl last ↦ rw last (snoc-Distinct id c.spec_done m d, snoc-AllBelow n id c.spec_done b lt, refl)
  | inr some_left ↦ rw some_left (d, b, refl)
]

-- The end of a read adds at most its own entry, and only where it was not waiting yet.
account_read-once :
    (n : ℕ) (adopt ok current : Bool) (o : Option ℕ) (c : Cache)
    → ((id : ℕ) → elem id c.spec_done ≡ true → c.spec_remaining id ≡ 0)
    → AtSome (λ id. id < n) o
    → Distinct c.spec_done
    → AllBelow n c.spec_done
    → Distinct (account_read adopt ok current o c).spec_done
      × AllBelow n (account_read adopt ok current o c).spec_done
      × ((account_read adopt ok current o c).spec_jobs ≡ c.spec_jobs)
unfolding account_read
account_read-once n adopt ok current none c h lt d b = (d, b, refl)
account_read-once n true false current (some id) c h lt d b = (d, b, refl)
account_read-once n false false current (some id) c h lt d b = (d, b, refl)
account_read-once n adopt true false (some id) c h lt d b = (d, b, refl)
account_read-once n adopt true true (some id) c h lt d b =
    elim (Bool-cases (c.spec_remaining id == 0)) [
      | inl empty ↦ rw empty (d, b, refl)
      | inr some_left ↦
          rw some_left (count_down-once n id c lt d b (ground (arith, some_left, h id)))
    ]

pub land_spec-Ordered :
    (s : Shape) (ok : Bool) (n : ℕ) (f : Flying) (v : Spec)
    → get_elem? v.flight n ≡ some f
    → ((id : ℕ) → elem id v.cache.spec_done ≡ true → v.cache.spec_remaining id ≡ 0)
    → Ordered s v
    → Ordered s (land_spec ok n f v)
unfolding land_spec
land_spec-Ordered s ok n f v at settled o =
    let (d, b, e) =
      account_read-once (n_entry s) v.adopt ok (f.gen == v.cache.spec_gen) f.job.flag v.cache
        settled (FlyingBelow-get_elem? (n_entry s) n v.flight f o.flying at) o.once o.below in
    record {
      once = d;
      below = b;
      queued = rw e o.queued;
      flying = remove_at-FlyingBelow (n_entry s) n v.flight o.flying;
    }
