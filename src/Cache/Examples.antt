-- ===== src/Cache/Examples.antt =====
-- The theorems at the sample cache.
use meitte.Base.{
  ℕ, ◌≡◌, ◌≢◌, refl, true, List, [], ◌∷◌, none, some, arith, add64, sub64, pos, negsuc, ◌<◌, ◌≤◌,
}
use meitte.Cache.Defs.{entry_bytes}
use meitte.Cache.Sample.{tiny, warm, vm, reads, tiny-Fits, warm-Keeps}
use meitte.Lru.{lru_unlink, lru_push_front, lru_push_back}
use meitte.Cache.Entry.{
  touch_entry, evict_entry, retain, release_entry_pages, release_proj, count_hit, promote_entry,
  commit_projs, commit_proj_pages, enter_entry, residency, commit_range, release_range, bound_layer,
  query_residency,
}
use meitte.Cache.Load.{
  load_layer, load_at, start_load, stage_all, stage_ids, stage_expert, stage, expert_jobs,
  promote_again, finish_load, account_demand, read_jobs,
}
use meitte.Cache.Speculation.{
  quiesce_spec, integrate_all, integrate_entry, release_all, release_unfinished,
}
use meitte.Cache.Budget.{
  any_entry, evict_to_budget, evict_loop, evict_choice, set_cache_budget, layers_bytes,
}
use meitte.Cache.Invariant.{Keeps}
use meitte.Cache.Touch.{order_after, touch_entry-Keeps}
use meitte.Cache.Evict.{Evicted, evict_to_budget-Evicted}
use meitte.Cache.Quiesce.{quiesce_spec-Keeps}
use meitte.Cache.Progress.{load_layer_succeeds}
use meitte.Cache.LoadLayer.{LoadOk, load_layer-Keeps, load_layer-LoadOk}
use meitte.Cache.Resize.{Resized, set_cache_budget-Resized}
use meitte.Cache.Pages.{release_range-inside}
use meitte.Cache.Residency.{Retained, retain-Retained}

program : Unit {0}
unfolding load_layer load_at bound_layer start_load quiesce_spec integrate_all integrate_entry
    release_all release_unfinished release_entry_pages release_proj release_range stage_all
    stage_ids stage_expert stage touch_entry count_hit promote_entry commit_projs commit_proj_pages
    commit_range enter_entry expert_jobs promote_again finish_load account_demand read_jobs
    evict_to_budget evict_loop evict_choice evict_entry add64 sub64 lru_unlink lru_push_front
    lru_push_back entry_bytes
program = tt

load_succeeds : (load_layer vm reads tiny (pos 1) (pos 1 ∷ pos 0 ∷ []) warm).success ≡ true
unfolding program
load_succeeds = refl

-- The speculated entry 3 is a hit, entry 2 too, and entry 1 of the other layer goes.
load_run :
    let c = (load_layer vm reads tiny (pos 1) (pos 1 ∷ pos 0 ∷ []) warm).cache in
    (c.chits ≡ 2)
    × (c.spec_useful ≡ 1)
    × (c.evictions ≡ 1)
    × (c.cresident ≡ 2400)
    × (query_residency tiny c (pos 1) (pos 0 ∷ pos 1 ∷ pos 2 ∷ negsuc 0 ∷ []) ≡ 1 ∷ 1 ∷ 0 ∷ 0 ∷ [])
unfolding program query_residency residency
load_run = (refl, refl, refl, refl, refl)

load_layer-Keeps_example :
    (ys : List ℕ) × Keeps tiny (load_layer vm reads tiny (pos 1) (pos 1 ∷ pos 0 ∷ []) warm).cache ys
load_layer-Keeps_example =
    load_layer-Keeps vm reads tiny (pos 1) (pos 1 ∷ pos 0 ∷ []) warm (1 ∷ 2 ∷ []) tiny-Fits
      warm-Keeps (omega arith) (omega arith) refl

load_layer-LoadOk_example :
    (l : ℕ) × (bound_layer tiny (pos 1) ≡ some l)
    × ((ys : List ℕ) × LoadOk tiny l 5 2600
          (pos 1 ∷ pos 0 ∷ [])
          (load_layer vm reads tiny (pos 1) (pos 1 ∷ pos 0 ∷ []) warm).cache
          ys)
load_layer-LoadOk_example =
    load_layer-LoadOk vm reads tiny (pos 1) (pos 1 ∷ pos 0 ∷ []) warm (1 ∷ 2 ∷ []) tiny-Fits
      warm-Keeps (omega arith) (omega arith) refl load_succeeds

touch_entry-Keeps_example :
    let r = touch_entry vm tiny 1 0 true none warm in
    Keeps tiny r.0 (order_after r.1 true 2 (1 ∷ 2 ∷ []))
touch_entry-Keeps_example =
    touch_entry-Keeps tiny tiny-Fits vm 1 0 (omega arith) (omega arith) true none warm (1 ∷ 2 ∷ [])
      warm-Keeps

quiesce_spec-Keeps_example : (zs : List ℕ) × Keeps tiny (quiesce_spec tiny warm) (1 ∷ 2 ∷ zs)
quiesce_spec-Keeps_example =
    quiesce_spec-Keeps tiny tiny-Fits warm (1 ∷ 2 ∷ []) warm-Keeps (omega arith)

evict_to_budget-Evicted_example :
    (ys : List ℕ) × Evicted tiny any_entry warm
      (evict_to_budget any_entry tiny warm)
      (1 ∷ 2 ∷ [])
      ys
evict_to_budget-Evicted_example =
    evict_to_budget-Evicted tiny tiny-Fits any_entry warm (1 ∷ 2 ∷ []) warm-Keeps

set_cache_budget-Resized_example :
    ((set_cache_budget tiny 1400 warm).cache_max ≢ 0)
    × Resized tiny 1400 warm (set_cache_budget tiny 1400 warm) (1 ∷ 2 ∷ [])
unfolding entry_bytes layers_bytes
set_cache_budget-Resized_example =
    set_cache_budget-Resized tiny 1400 warm (1 ∷ 2 ∷ []) tiny-Fits warm-Keeps (omega arith)
      (omega arith) (omega arith)

release_range-inside_example : ¬ ((4600 ≤ 4100) × (4100 < 5200))
unfolding release_range
release_range-inside_example =
    release_range-inside tiny 1 0 1 0 4100 (omega arith) (omega arith) (omega arith) (omega arith)

retain-Retained_example :
    (ys : List ℕ) × Retained tiny warm (retain tiny (pos 1) (pos 0 ∷ []) warm) (1 ∷ 2 ∷ []) ys
retain-Retained_example =
    retain-Retained tiny tiny-Fits (pos 1) (pos 0 ∷ []) warm (1 ∷ 2 ∷ []) warm-Keeps

load_layer_succeeds_example :
    (load_layer vm reads tiny (pos 1) (pos 1 ∷ pos 0 ∷ []) warm).success ≡ true
unfolding bound_layer
load_layer_succeeds_example =
    load_layer_succeeds vm reads tiny (pos 1) 1 (pos 1) (pos 0 ∷ []) warm (λ calls a n. refl)
      (λ done j. refl) refl
