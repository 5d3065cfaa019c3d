-- ===== src/Overlap/Start.antt =====
-- `load_layer_async` on a bound layer, from the moment the previous batch has drained, without
-- adoption. Times and the dense-weight probe are left out. The wait for the drain is not a step here.
use meitte.Base.{
  ℕ, zero, suc, ◌+◌, ◌*◌, ◌%◌, ◌^◌, Bool, true, false, not, ◌&&◌, List, [], ◌∷◌, ◌++◌, Option, none,
  some, if◌then◌else◌, ◌==◌, is, update, ℤ, index_below, sort_ids, length,
}
use meitte.Cache.{Shape, Vm, IoJob, Cache}
use meitte.Cache.Entry.{
  projections, Touch, refused, hit, miss, touch_entry, commit_proj_pages, retain_ids, and_then,
}
use meitte.Cache.Speculation.{quiesce_spec}
use meitte.Cache.Load.{wanted, account_demand}
use meitte.Cache.Budget.{older_entry, evict_to_budget}
use meitte.Overlap.Defs.{Batch, Overlap, flag_of}

-- A step that may fail keeps what it has reached.
abbrev pub and_next {ℓ} : {A : Type ℓ} → A × Bool → (A → A × Bool) → A × Bool
and_next (a, true) f = f a
and_next (a, false) f = (a, false)

-- `seen_` and `staged_`.
pub record Routing : Type 0 where
  pub seen : ℕ → Bool
  pub staged : List ℕ

unfoldable pub collect : ℕ → Routing → Routing
collect e r =
    if r.seen e then r else record { seen = update r.seen e true; staged = r.staged ++ e ∷ [] }

abbrev pub collect_found : Option ℕ → Routing → Routing
collect_found none r = r
collect_found (some e) r = collect e r

unfoldable pub collect_ids : Shape → ℕ → List ℤ → Routing → Routing
collect_ids s i [] r = r
collect_ids s i (z ∷ zs) r =
    collect_ids s (i + 1) zs (collect_found (index_below s.n_expert (wanted s i z)) r)

-- `for (e = 0; e < n_expert_; ++e) if (!seen_[e]) …`: `n` experts from `e` on.
unfoldable pub collect_rest : ℕ → ℕ → Routing → Routing
unfolding collect
collect_rest e zero r = r
collect_rest e (suc n) r = collect_rest (e + 1) n (collect e r)

-- `staged_` after the sort.
unfoldable pub routed_set : Shape → List ℤ → List ℕ
unfolding collect_ids collect_rest
routed_set s ids =
    let r = collect_ids s 0 ids (record { seen = λ _. false; staged = [] }) in
    sort_ids (if s.load_all then collect_rest 0 s.n_expert r else r).staged

-- What the lookups change: the cache, the readiness flags, and the mark of a miss by expert.
pub record Looked : Type 0 where
  pub cache : Cache
  pub ready : ℕ → ℕ
  pub missed : ℕ → Bool

-- `mark_ready(p, e)` for every projection that is present.
unfoldable pub mark_projs : Shape → ℕ → ℕ → ℕ → List ℕ → (ℕ → ℕ) → ℕ → ℕ
mark_projs s il gen e [] ready = ready
mark_projs s il gen e (p ∷ ps) ready =
    mark_projs s il gen e ps (if s.nb2 il p == 0 then ready else update ready (flag_of s p e) gen)

abbrev pub after_lookup : Shape → ℕ → ℕ → ℕ → Looked → Cache × Touch → Looked × Bool
after_lookup s il gen e l (c, refused) = (record l { cache = c }, false)
after_lookup s il gen e l (c, hit) =
    (record l { cache = c; ready = mark_projs s il gen e projections l.ready }, true)
after_lookup s il gen e l (c, miss) =
    (record l { cache = c; missed = update l.missed e true }, true)

unfoldable pub lookup_all : Vm → Shape → ℕ → ℕ → Option ℕ → List ℕ → Looked → Looked × Bool
lookup_all vm s il gen only [] l = (l, true)
lookup_all vm s il gen only (e ∷ es) l =
    and_next (after_lookup s il gen e l (touch_entry vm s il e false only l.cache))
      (λ m. lookup_all vm s il gen only es m)

abbrev pub async_job : Shape → ℕ → ℕ → ℕ → ℕ → IoJob
async_job s base il p e = record {
  dst = base + e * s.nb2 il p;
  off = s.file_off il p + e * s.nb2 il p;
  nbytes = s.nb2 il p;
  flag = some (flag_of s p e);
  file = s.file_idx il p;
  expert = e;
  layer = il;
  proj = p;
  spec = false;
}

-- The reads of one projection for the experts that `picked` takes.
unfoldable pub emit_slices : Shape → ℕ → ℕ → ℕ → (ℕ → Bool) → List ℕ → List IoJob
emit_slices s base il p picked [] = []
emit_slices s base il p picked (e ∷ es) =
    let rest = emit_slices s base il p picked es in
    if picked e then async_job s base il p e ∷ rest else rest

unfoldable pub emit_proj : Shape → (ℕ → ℕ) → ℕ → (ℕ → Bool) → List ℕ → ℕ → List IoJob
unfolding emit_slices
emit_proj s base il picked es p =
    if s.nb2 il p == 0 then [] else emit_slices s (base p) il p picked es

-- Projection-major, without the projection that an earlier wave has emitted.
unfoldable pub emit_projs :
    Shape → (ℕ → ℕ) → ℕ → (ℕ → Bool) → List ℕ → Option ℕ → List ℕ → List IoJob
emit_projs s base il picked es sent [] = []
emit_projs s base il picked es sent (p ∷ ps) =
    let rest = emit_projs s base il picked es sent ps in
    if is sent p then rest else emit_proj s base il picked es p ++ rest

-- The first projection that is present.
abbrev pub first_present : Shape → ℕ → List ℕ → Option ℕ
first_present s il [] = none
first_present s il (p ∷ ps) = if s.nb2 il p == 0 then first_present s il ps else some p

-- The projection of the first wave; `none` where everything goes out in one wave.
abbrev pub first_wave : Bool → Shape → ℕ → Option ℕ
first_wave two_wave s il =
    if two_wave && not s.load_all then first_present s il projections else none

-- Wave two commits the pages of the other projections of the experts that missed.
unfoldable pub commit_others : Vm → Shape → ℕ → ℕ → ℕ → List ℕ → Cache → Cache × Bool
commit_others vm s il e p0 [] c = (c, true)
commit_others vm s il e p0 (p ∷ ps) c =
    and_then (if p == p0 then (c, true) else commit_proj_pages vm s il e p c)
      (λ d. commit_others vm s il e p0 ps d)

unfoldable pub commit_missed : Vm → Shape → ℕ → ℕ → (ℕ → Bool) → List ℕ → Cache → Cache × Bool
unfolding commit_others
commit_missed vm s il p0 missed [] c = (c, true)
commit_missed vm s il p0 missed (e ∷ es) c =
    and_then (if missed e then commit_others vm s il e p0 projections c else (c, true))
      (λ d. commit_missed vm s il p0 missed es d)

-- The batch that replaces the drained one.
abbrev pub publish : ℕ → List IoJob → Batch → Batch
publish gen js b = record {
  jobs = js;
  next_idx = 0;
  done_cnt = 0;
  njobs = length js;
  flag_gen = gen;
  batch_gen = b.batch_gen + 1;
  io_err = false;
}

-- Wave two joins the batch in flight.
abbrev pub append_jobs : List IoJob → Batch → Batch
append_jobs js b = record b { jobs = b.jobs ++ js; njobs = length (b.jobs ++ js) }

-- The promotions in id order, the eviction.
unfoldable pub settle_load : Shape → ℕ → List ℤ → Cache → Cache
unfolding retain_ids evict_to_budget
settle_load s il ids c =
    evict_to_budget older_entry s (if s.load_all then c else retain_ids s il ids c)

abbrev pub fail_load : Overlap → Overlap × Bool
fail_load st = (record st { fatal = true }, false)

-- The end of the load, once every commit of wave two was tried.
abbrev pub finish_second :
    Shape → ℕ → List ℤ → ℕ → Looked → List ℕ → Overlap → Cache × Bool → Overlap × Bool
finish_second s il ids p0 l es st (c, false) = fail_load (record st { cache = c })
finish_second s il ids p0 l es st (c, true) = (
  record st {
    cache = settle_load s il ids c;
    batch =
        append_jobs (emit_projs s (λ p. s.lbuf p il) il l.missed es (some p0) projections) st.batch;
  },
  true,
)

-- Wave one is out before the other commits.
abbrev pub publish_first : Shape → ℕ → List ℕ → ℕ → Looked → Overlap → Overlap
publish_first s il es p0 l st = record st {
  cache = l.cache;
  ready = l.ready;
  batch = publish st.async_gen (emit_proj s (λ p. s.lbuf p il) il l.missed es p0) st.batch;
}

-- From the lookups on: one wave, or the first projection's reads before the other commits.
unfoldable pub finish_lookups :
    Vm → Shape → ℕ → List ℤ → List ℕ → Option ℕ → Overlap → Looked × Bool → Overlap × Bool
unfolding commit_missed emit_projs emit_proj
finish_lookups vm s il ids es wave st (l, false) =
    fail_load (record st { cache = l.cache; ready = l.ready })
finish_lookups vm s il ids es none st (l, true) = (
  record st {
    cache = settle_load s il ids l.cache;
    ready = l.ready;
    batch =
        publish st.async_gen (emit_projs s (λ p. s.lbuf p il) il l.missed es none projections)
          st.batch;
  },
  true,
)
finish_lookups vm s il ids es (some p0) st (l, true) =
    finish_second s il ids p0 l es (publish_first s il es p0 l st)
      (commit_missed vm s il p0 l.missed es l.cache)

-- The new generation, with the speculation settled.
unfoldable pub open_load : Shape → ℕ → Overlap → Overlap
unfolding quiesce_spec
open_load s il st =
    let q = if st.cache.cache_max == 0 then st.cache else quiesce_spec s st.cache in
    record st {
      cache = record q { cgen = (q.cgen + 1) % 2 ^ 32 };
      async_gen = (st.async_gen + 1) % 2 ^ 32;
      cur_il = some il;
      batch = record st.batch { jobs = [] };
    }

unfoldable pub load_routed : Vm → Bool → Shape → ℕ → List ℤ → List ℕ → Overlap → Overlap × Bool
unfolding lookup_all finish_lookups
load_routed vm two_wave s il ids es st =
    let c = account_demand s il (length es) st.cache in
    if c.cache_max == 0
    then (
      record st {
        cache = c;
        batch =
            publish st.async_gen (emit_projs s s.slot il (λ _. true) es none projections) st.batch;
      },
      true,
    )
    else finish_lookups vm s il ids es (first_wave two_wave s il) st (
        lookup_all vm s il st.async_gen (first_wave two_wave s il) es
          (record { cache = c; ready = st.ready; missed = λ _. false }))

-- A source that is fatal loads nothing.
unfoldable pub load_layer_async : Vm → Bool → Shape → ℕ → List ℤ → Overlap → Overlap × Bool
unfolding open_load load_routed routed_set
load_layer_async vm two_wave s il ids st =
    if st.fatal
    then (st, false)
    else load_routed vm two_wave s il ids (routed_set s ids) (open_load s il st)
