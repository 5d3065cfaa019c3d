-- ===== src/Cache/Load.antt =====
-- `load_layer`, the serial path (no overlap, no adoption): stage the routed experts, read their
-- slices, then evict cold entries of older generations down to the budget. Times and the dense-weight
-- probe are left out. `reads` answers each read from those made before it.
use meitte.Base.{
  ℕ, ◌+◌, ◌*◌, ◌%◌, ◌^◌, Bool, true, false, List, [], ◌∷◌, ◌++◌, Option, none, some, if◌then◌else◌,
  ◌==◌, leb, ltb, max, update, ℤ, pos, negsuc, index_below,
}
use meitte.Cache.Defs.{Shape, Vm, IoJob, Cache, entry_id, entry_bytes}
use meitte.Cache.Entry.{
  projections, Touch, refused, hit, miss, touch_entry, promote_entry, bound_layer,
}
use meitte.Cache.Speculation.{quiesce_spec}
use meitte.Cache.Budget.{older_entry, evict_to_budget}

abbrev pub Reads : Type 0
Reads = List IoJob → IoJob → Bool

-- The per-load scratch beside the cache: which experts were seen, the jobs, and their count.
pub record Staging : Type 0 where
  pub cache : Cache
  pub seen : ℕ → Bool
  pub jobs : List IoJob
  pub n_unique : ℕ

-- The reads of one expert, one for each projection that is present; `base` is the destination buffer.
unfoldable pub expert_jobs : Shape → (ℕ → ℕ) → ℕ → ℕ → List ℕ → List IoJob
expert_jobs s base il e [] = []
expert_jobs s base il e (p ∷ ps) =
    let slice = s.nb2 il p in
    let rest = expert_jobs s base il e ps in
    if slice == 0
    then rest
    else record {
      dst = base p + e * slice;
      off = s.file_off il p + e * slice;
      nbytes = slice;
      flag = none;
      file = s.file_idx il p;
      expert = e;
      layer = il;
      proj = p;
      spec = false;
    }
      ∷ rest

abbrev pub after_touch : Shape → ℕ → ℕ → Staging → Cache × Touch → Staging × Bool
after_touch s il e t (c, refused) = (record t { cache = c }, false)
after_touch s il e t (c, hit) = (record t { cache = c }, true)
after_touch s il e t (c, miss) = (
  record t { cache = c; jobs = t.jobs ++ expert_jobs s (λ p. s.lbuf p il) il e projections },
  true,
)

-- The lambda `stage`.
unfoldable pub stage : Vm → Shape → ℕ → ℕ → Staging → Staging × Bool
stage vm s il e t =
    if t.cache.cache_max == 0
    then (record t { jobs = t.jobs ++ expert_jobs s s.slot il e projections }, true)
    else after_touch s il e t (touch_entry vm s il e true none t.cache)

-- An expert that comes again is only promoted, with the cache on.
unfoldable pub promote_again : Shape → ℕ → ℕ → Staging → Staging
promote_again s il e t =
    if t.cache.cache_max == 0
    then t
    else record t { cache = promote_entry (entry_id s il e) t.cache }

abbrev pub mark_seen : ℕ → Staging → Staging
mark_seen e t = record t { seen = update t.seen e true; n_unique = t.n_unique + 1 }

unfoldable pub stage_expert : Vm → Shape → ℕ → ℕ → Staging → Staging × Bool
stage_expert vm s il e t =
    if t.seen e then (promote_again s il e t, true) else stage vm s il e (mark_seen e t)

abbrev pub and_stage : Staging × Bool → (Staging → Staging × Bool) → Staging × Bool
and_stage (t, true) f = f t
and_stage (t, false) f = (t, false)

-- `load_all_ ? (i < n_expert_ ? i : -1) : ids[i]`.
abbrev pub wanted : Shape → ℕ → ℤ → ℤ
wanted s i z = if s.load_all then (if ltb i s.n_expert then pos i else negsuc 0) else z

-- The body of the loop over the ids, at an id that names an expert or is skipped.
abbrev pub stage_found : Vm → Shape → ℕ → Option ℕ → Staging → Staging × Bool
stage_found vm s il none t = (t, true)
stage_found vm s il (some e) t = stage_expert vm s il e t

unfoldable pub stage_ids : Vm → Shape → ℕ → ℕ → List ℤ → Staging → Staging × Bool
stage_ids vm s il i [] t = (t, true)
stage_ids vm s il i (z ∷ zs) t =
    and_stage (stage_found vm s il (index_below s.n_expert (wanted s i z)) t)
      (λ u. stage_ids vm s il (i + 1) zs u)

-- `for (e = 0; e < n_expert_; ++e) if (!seen_[e]) …`: `n` experts from `e` on.
unfoldable pub stage_rest : Vm → Shape → ℕ → ℕ → ℕ → Staging → Staging × Bool
stage_rest vm s il e ℕ.zero t = (t, true)
stage_rest vm s il e (ℕ.suc n) t =
    and_stage (if t.seen e then (t, true) else stage vm s il e (mark_seen e t))
      (λ u. stage_rest vm s il (e + 1) n u)

-- `account_demand`: what one pass over the layers demanded. `none` is the initial -1.
unfoldable pub account_demand : Shape → ℕ → ℕ → Cache → Cache
account_demand s il n_unique c =
    let bytes = n_unique * entry_bytes s il in
    let wrapped : Bool = elim c.last_il [ none ↦ false | some last ↦ leb il last ] in
    let old = if wrapped then 0 else c.demand_accum in
    let old_layer = if wrapped then 0 else c.layer_demand_accum in
    record c {
      token_demand = if wrapped then c.demand_accum else c.token_demand;
      layer_demand = if wrapped then c.layer_demand_accum else c.layer_demand;
      last_il = some il;
      demand_accum = old + bytes;
      layer_demand_accum = max old_layer bytes;
    }

-- The reads in order, up to the first that fails.
unfoldable pub read_jobs : Reads → List IoJob → List IoJob → Bool
read_jobs reads done [] = true
read_jobs reads done (j ∷ js) = if reads done j then read_jobs reads (j ∷ done) js else false

-- What `load_layer` leaves: its result, the cache, and whether `fatal_` was raised.
pub record Loaded : Type 0 where
  pub cache : Cache
  pub jobs : List IoJob
  pub success : Bool

abbrev pub fail : Cache → List IoJob → Loaded
fail c js = record { cache = c; jobs = js; success = false }

unfoldable pub start_load : Shape → Cache → Staging
unfolding quiesce_spec
start_load s c =
    let g = record c { cgen = (c.cgen + 1) % 2 ^ 32 } in
    record {
      cache = if c.cache_max == 0 then g else quiesce_spec s g;
      seen = λ _. false;
      jobs = [];
      n_unique = 0;
    }

unfoldable pub stage_all : Vm → Shape → ℕ → List ℤ → Staging → Staging × Bool
stage_all vm s il ids t =
    and_stage (stage_ids vm s il 0 ids t)
      (λ u. if s.load_all then stage_rest vm s il 0 s.n_expert u else (u, true))

unfoldable pub finish_load : Reads → Shape → ℕ → Staging × Bool → Loaded
finish_load reads s il (t, false) = fail t.cache t.jobs
finish_load reads s il (t, true) =
    let c = account_demand s il t.n_unique t.cache in
    if read_jobs reads [] t.jobs
    then record {
      cache = if c.cache_max == 0 then c else evict_to_budget older_entry s c;
      jobs = t.jobs;
      success = true;
    }
    else fail c t.jobs

-- A call that names no bound layer or no expert fails at once.
unfoldable pub load_at : Vm → Reads → Shape → Option ℕ → List ℤ → Cache → Loaded
load_at vm reads s none ids c = fail c []
load_at vm reads s (some l) [] c = fail c []
load_at vm reads s (some l) (z ∷ zs) c =
    finish_load reads s l (stage_all vm s l (z ∷ zs) (start_load s c))

-- `load_layer(il, ids, n_ids)` on an active source.
unfoldable pub load_layer : Vm → Reads → Shape → ℤ → List ℤ → Cache → Loaded
unfolding load_at
load_layer vm reads s il ids c = load_at vm reads s (bound_layer s il) ids c
