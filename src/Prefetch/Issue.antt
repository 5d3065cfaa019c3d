-- ===== src/Prefetch/Issue.antt =====
-- `prefetch` (the queued path): commit the pages of every candidate, then publish the jobs at once.
use meitte.Base.{
  ℕ, ◌+◌, ◌*◌, Bool, true, false, ◌||◌, not, List, [], ◌∷◌, ◌++◌, none, some, if◌then◌else◌, ◌==◌,
  update, ℤ, index_below, length, take,
}
use meitte.Cache.{Shape, Vm, IoJob, Cache, entry_id}
use meitte.Cache.Entry.{
  projections, slice_address, commit_proj_pages, release_entry_pages, cached_layer,
}
use meitte.Prefetch.Defs.{Spec, reset_got}

-- `spec_stage_`, and `spec_stage_ids_` with `spec_stage_counts_`, beside the cache.
pub record Staged : Type 0 where
  pub cache : Cache
  pub jobs : List IoJob
  pub entries : List (ℕ × ℕ)

-- The experts to read: neither resident nor queued already.
unfoldable pub candidates : Shape → Cache → ℕ → List ℤ → List ℕ
candidates s c il [] = []
candidates s c il (z ∷ zs) =
    let rest = candidates s c il zs in
    elim (index_below s.n_expert z) [
      | none ↦ rest
      | some e ↦
          let id = entry_id s il e in
          if c.cvalid id || not (c.spec_remaining id == 0) then rest else e ∷ rest
    ]

unfoldable pub spec_job : Shape → ℕ → ℕ → ℕ → IoJob
spec_job s il e p = record {
  dst = slice_address s il e p;
  off = s.file_off il p + e * s.nb2 il p;
  nbytes = s.nb2 il p;
  flag = some (entry_id s il e);
  file = s.file_idx il p;
  expert = e;
  layer = il;
  proj = p;
  spec = true;
}

-- An expert's slices being staged: `staged`, `njobs` and `ok`, beside the cache.
pub record Slices : Type 0 where
  pub cache : Cache
  pub jobs : List IoJob
  pub count : ℕ
  pub ok : Bool

-- A refused commit ends the loop over the slices; after a granted one the slice's job is pushed.
abbrev pub after_slice :
    Shape → ℕ → ℕ → ℕ → List IoJob → ℕ → Cache × Bool → (Cache → List IoJob → ℕ → Slices) → Slices
after_slice s il e p js n (c, true) rest = rest c (js ++ spec_job s il e p ∷ []) (n + 1)
after_slice s il e p js n (c, false) rest = record { cache = c; jobs = js; count = n; ok = false }

unfoldable pub stage_slices : Vm → Shape → ℕ → ℕ → List ℕ → Cache → List IoJob → ℕ → Slices
unfolding spec_job
stage_slices vm s il e [] c js n = record { cache = c; jobs = js; count = n; ok = true }
stage_slices vm s il e (p ∷ ps) c js n =
    if s.nb2 il p == 0
    then stage_slices vm s il e ps c js n
    else after_slice s il e p js n (commit_proj_pages vm s il e p c)
        (λ d ks m. stage_slices vm s il e ps d ks m)

-- `staged_ids.push_back(id)` with its count, where the expert has a slice.
unfoldable pub add_staged : Shape → ℕ → ℕ → Slices → List (ℕ × ℕ) → Staged
add_staged s il e r entries =
    let id = entry_id s il e in
    let c = r.cache in
    if r.count == 0 then record { cache = c; jobs = r.jobs; entries = entries } else record {
      cache = record c { rereads = if c.ever_evicted id then c.rereads + 1 else c.rereads };
      jobs = r.jobs;
      entries = entries ++ ((id, r.count) ∷ []);
    }

-- `staged.resize(mark)` with the pages handed back.
unfoldable pub roll_back : Shape → ℕ → ℕ → ℕ → Slices → List (ℕ × ℕ) → Staged
roll_back s il e mark r entries = record {
  cache = release_entry_pages s (entry_id s il e) r.cache;
  jobs = take mark r.jobs;
  entries = entries;
}

-- An expert with a refused slice is rolled back and ends the staging.
unfoldable pub stage_candidates : Vm → Shape → ℕ → List ℕ → Staged → Staged
unfolding stage_slices add_staged roll_back
stage_candidates vm s il [] t = t
stage_candidates vm s il (e ∷ es) t =
    let r = stage_slices vm s il e projections t.cache t.jobs 0 in
    let rest = stage_candidates vm s il es (add_staged s il e r t.entries) in
    if r.ok then rest else roll_back s il e (length t.jobs) r t.entries

unfoldable pub set_remaining : List (ℕ × ℕ) → (ℕ → ℕ) → ℕ → ℕ
set_remaining [] r = r
set_remaining ((id, n) ∷ es) r = set_remaining es (update r id n)

abbrev pub entry_ids : List (ℕ × ℕ) → List ℕ
entry_ids [] = []
entry_ids ((id, n) ∷ es) = id ∷ entry_ids es

-- The part under the lock.
unfoldable pub publish_staged : Staged → Cache
publish_staged t = record t.cache {
  spec_remaining = set_remaining t.entries t.cache.spec_remaining;
  spec_touched = t.cache.spec_touched ++ entry_ids t.entries;
  spec_jobs = t.cache.spec_jobs ++ t.jobs;
}

unfoldable pub stage_layer : Vm → Shape → ℕ → List ℤ → Cache → Staged
stage_layer vm s il ids c =
    stage_candidates vm s il (candidates s c il ids) (record { cache = c; jobs = []; entries = [] })

unfoldable pub issue : Vm → Shape → ℕ → List ℤ → Spec → Spec
issue vm s il ids v =
    let t = stage_layer vm s il ids v.cache in
    record v { cache = publish_staged t; got = reset_got t.entries v.got }

-- `prefetch(il, ids)` on an active source.
unfoldable pub prefetch : Vm → Shape → ℤ → List ℤ → Spec → Spec
unfolding issue
prefetch vm s il ids v = elim (cached_layer s il v.cache) [ none ↦ v | some l ↦ issue vm s l ids v ]
