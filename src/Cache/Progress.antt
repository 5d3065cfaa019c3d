-- ===== src/Cache/Progress.antt =====
-- A load fails for no reason of its own: it succeeds where the system and the files never refuse.
use meitte.Base.{
  ℕ, zero, suc, ◌+◌, ◌≡◌, refl, Bool, true, false, List, [], ◌∷◌, Option, none, some, arith,
  Bool-cases, inl, inr, ℤ, index_below, if◌then◌else◌, ◌==◌,
}
use meitte.Cache.Defs.{Shape, Vm, OsCall, IoJob, Cache, entry_id}
use meitte.Cache.Entry.{
  projections, and_then, skips, commit_proj_pages, commit_projs, after_commit, touch_entry, Touch,
  refused, hit, miss, bound_layer,
}
use meitte.Cache.Load.{
  Reads, Staging, and_stage, wanted, stage_found, stage_ids, stage_rest, stage, stage_expert,
  mark_seen, stage_all, start_load, read_jobs, finish_load, load_at, load_layer, after_touch,
}

is_refused : Touch → Bool
is_refused refused = true
is_refused hit = false
is_refused miss = false

read_jobs_granted :
    (reads : Reads)
    → ((done : List IoJob) (j : IoJob) → reads done j ≡ true)
    → (done js : List IoJob) → read_jobs reads done js ≡ true
unfolding read_jobs
read_jobs_granted reads gives done [] = refl
read_jobs_granted reads gives done (j ∷ js) =
    ground (arith, gives done j, read_jobs_granted reads gives (j ∷ done) js)

and_stage_granted :
    (r : Staging × Bool) (f : Staging → Staging × Bool)
    → r.1 ≡ true
    → ((t : Staging) → (f t).1 ≡ true)
    → (and_stage r f).1 ≡ true
and_stage_granted (t, true) f h k = k t
and_stage_granted (t, false) f h k = cc

module _ (vm : Vm) (grants : (calls : List OsCall) (a n : ℕ) → vm calls a n ≡ true) (s : Shape)
    (il : ℕ) where
  commit_proj_pages_granted : (e p : ℕ) (c : Cache) → (commit_proj_pages vm s il e p c).1 ≡ true
  unfolding commit_proj_pages
  commit_proj_pages_granted e p c = elim (Bool-cases (s.nb2 il p == 0)) [
    | inl absent ↦ rw absent refl
    | inr present ↦ rw present (grants c.os _ _)
  ]

  and_then_granted :
      (r : Cache × Bool) (f : Cache → Cache × Bool)
      → r.1 ≡ true
      → ((c : Cache) → (f c).1 ≡ true)
      → (and_then r f).1 ≡ true
  and_then_granted (c, true) f h k = k c
  and_then_granted (c, false) f h k = cc

  one_proj_granted :
      (b : Bool) (e p : ℕ) (c : Cache)
      → (if b then (c, true) else commit_proj_pages vm s il e p c).1 ≡ true
  one_proj_granted true e p c = refl
  one_proj_granted false e p c = commit_proj_pages_granted e p c

  commit_projs_granted :
      (e : ℕ) (only : Option ℕ) (ps : List ℕ) (c : Cache)
      → (commit_projs vm s il e only ps c).1 ≡ true
  unfolding commit_projs
  commit_projs_granted e only [] c = refl
  commit_projs_granted e only (p ∷ ps) c =
      and_then_granted _ _ (one_proj_granted (skips only p) e p c)
        (λ d. commit_projs_granted e only ps d)

  after_commit_granted :
      (id : ℕ) (r : Cache × Bool) → r.1 ≡ true → is_refused (after_commit s il id r).1 ≡ false
  unfolding is_refused
  after_commit_granted id (c, true) h = refl
  after_commit_granted id (c, false) h = cc

  touch_entry_granted :
      (e : ℕ) (promote : Bool) (only : Option ℕ) (c : Cache)
      → is_refused (touch_entry vm s il e promote only c).1 ≡ false
  unfolding touch_entry is_refused
  touch_entry_granted e promote only c = elim (Bool-cases (c.cvalid (entry_id s il e))) [
    | inl here ↦ rw (here, touch_entry) refl
    | inr absent ↦
        rw (absent, touch_entry)
          (after_commit_granted (entry_id s il e) _ (commit_projs_granted e only projections _))
  ]

  after_touch_granted :
      (e : ℕ) (t : Staging) (r : Cache × Touch)
      → is_refused r.1 ≡ false
      → (after_touch s il e t r).1 ≡ true
  unfolding is_refused
  after_touch_granted e t (c, refused) h = cc
  after_touch_granted e t (c, hit) h = refl
  after_touch_granted e t (c, miss) h = refl

  stage_granted : (e : ℕ) (t : Staging) → (stage vm s il e t).1 ≡ true
  unfolding stage
  stage_granted e t = elim (Bool-cases (t.cache.cache_max == 0)) [
    | inl off ↦ rw (off, stage) refl
    | inr on ↦ rw (on, stage) (after_touch_granted e t _ (touch_entry_granted e true none t.cache))
  ]

  stage_expert_granted : (e : ℕ) (t : Staging) → (stage_expert vm s il e t).1 ≡ true
  unfolding stage_expert
  stage_expert_granted e t = elim (Bool-cases (t.seen e)) [
    | inl seen ↦ rw (seen, stage_expert) refl
    | inr new ↦ rw (new, stage_expert) (stage_granted e (mark_seen e t))
  ]

  stage_found_granted : (o : Option ℕ) (t : Staging) → (stage_found vm s il o t).1 ≡ true
  stage_found_granted none t = refl
  stage_found_granted (some e) t = stage_expert_granted e t

  stage_ids_granted : (i : ℕ) (zs : List ℤ) (t : Staging) → (stage_ids vm s il i zs t).1 ≡ true
  unfolding stage_ids
  stage_ids_granted i [] t = refl
  stage_ids_granted i (z ∷ zs) t =
      and_stage_granted _ _ (stage_found_granted (index_below s.n_expert (wanted s i z)) t)
        (λ u. stage_ids_granted (i + 1) zs u)

  one_rest_granted :
      (b : Bool) (e : ℕ) (t : Staging)
      → (if b then (t, true) else stage vm s il e (mark_seen e t)).1 ≡ true
  one_rest_granted true e t = refl
  one_rest_granted false e t = stage_granted e (mark_seen e t)

  stage_rest_granted : (e n : ℕ) (t : Staging) → (stage_rest vm s il e n t).1 ≡ true
  unfolding stage_rest
  stage_rest_granted e zero t = refl
  stage_rest_granted e (suc n) t =
      and_stage_granted _ _ (one_rest_granted (t.seen e) e t) (λ u. stage_rest_granted (e + 1) n u)

  sweep_granted :
      (b : Bool) (u : Staging)
      → (if b then stage_rest vm s il 0 s.n_expert u else (u, true)).1 ≡ true
  sweep_granted true u = stage_rest_granted 0 s.n_expert u
  sweep_granted false u = refl

  pub stage_all_granted : (ids : List ℤ) (t : Staging) → (stage_all vm s il ids t).1 ≡ true
  unfolding stage_all
  stage_all_granted ids t =
      and_stage_granted _ _ (stage_ids_granted 0 ids t) (λ u. sweep_granted s.load_all u)

  pub finish_load_granted :
      (reads : Reads)
      → ((done : List IoJob) (j : IoJob) → reads done j ≡ true)
      → (r : Staging × Bool) → r.1 ≡ true
      → (finish_load reads s il r).success ≡ true
  unfolding finish_load
  finish_load_granted reads gives (t, true) h = rw (read_jobs_granted reads gives [] t.jobs) refl
  finish_load_granted reads gives (t, false) h = cc

-- A load of a bound layer with at least one id succeeds, whatever the ids are, in every mode of the
-- cache and with or without load_all, where every commit is granted and every read succeeds.
pub load_layer_succeeds :
    (vm : Vm) (reads : Reads) (s : Shape) (il : ℤ) (l : ℕ) (z : ℤ) (zs : List ℤ) (c : Cache)
    → ((calls : List OsCall) (a n : ℕ) → vm calls a n ≡ true)
    → ((done : List IoJob) (j : IoJob) → reads done j ≡ true)
    → bound_layer s il ≡ some l
    → (load_layer vm reads s il (z ∷ zs) c).success ≡ true
unfolding load_layer load_at
load_layer_succeeds vm reads s il l z zs c grants gives bound = rw bound (
    finish_load_granted vm grants s l reads gives _
      (stage_all_granted vm grants s l (z ∷ zs) (start_load s c)))
