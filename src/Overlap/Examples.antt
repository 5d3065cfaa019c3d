-- ===== src/Overlap/Examples.antt =====
-- A load of two experts of layer 0, one resident and one not, drained by the lanes; the theorems at it.
use meitte.Base.{
  ℕ, ◌+◌, ◌*◌, ◌≡◌, ◌⊎◌, refl, true, false, List, [], ◌∷◌, none, some, arith, Routed, sort_ids,
  insert_id, if◌then◌else◌, ◌==◌, add64, sub64, pos, Bool,
}
use meitte.Cache.{Shape, Vm, Cache, IoJob, entry_bytes, entry_id}
use meitte.Lru.{lru_unlink, lru_push_front, lru_push_back}
use meitte.Cache.Entry.{
  touch_entry, evict_entry, release_entry_pages, release_proj, count_hit, promote_entry, retain_ids,
  retain_id, commit_projs, commit_proj_pages, enter_entry, commit_range, release_range,
}
use meitte.Cache.Load.{account_demand}
use meitte.Cache.Speculation.{
  quiesce_spec, integrate_all, integrate_entry, release_all, release_unfinished,
}
use meitte.Cache.Budget.{older_entry, evict_to_budget, evict_loop, evict_choice}
use meitte.Cache.Evict.{Settled}
use meitte.Cache.Invariant.{Keeps, Fits}
use meitte.Overlap.Defs.{Overlap, flag_of}
use meitte.Overlap.Start.{
  load_layer_async, load_routed, open_load, finish_lookups, lookup_all, mark_projs, routed_set,
  collect_ids, collect_rest, collect, emit_projs, emit_proj, emit_slices, commit_missed,
  commit_others, settle_load, async_job,
}
use meitte.Overlap.Lanes.{
  Run, taken, landed, counted, Steps, stay, more, take_job, land_job, count_job,
}
use meitte.Overlap.Hook.{Texp, resident, blocked, on_expert_ready}
use meitte.Overlap.Load.{Published, Covered}
use meitte.Overlap.Async.{load_layer_async-Keeps, load_layer_async-Covered}
use meitte.Overlap.Drain.{start_run, WasRead}
use meitte.Overlap.Progress.{lanes-Drain}
use meitte.Overlap.Serve.{Told, load_layer_async-Told}
use meitte.Overlap.Earned.{resident-Earned}

abbrev tiny : Shape
tiny = record {
  n_layer = 2;
  n_expert = 2;
  bound = λ l. true;
  nb2 = λ l p. if p == 2 then 0 else 600;
  file_off = λ l p. 3000 * l + 1200 * p;
  file_idx = λ l p. 0;
  lbuf = λ p l. 10000 * p + 4000 * l;
  slot = λ p. 0;
  page = 256;
  load_all = false;
}

-- Entry 1, expert 1 of layer 0, is resident.
abbrev warm : Cache
warm = record {
  links = record { head = some 1; tail = some 1; prev = λ i. none; next = λ i. none };
  cvalid = λ i. i == 1;
  cspec = λ i. false;
  cstamp = λ i. 4;
  ever_evicted = λ i. false;
  cgen = 4;
  cresident = 1200;
  cache_max = 2600;
  chits = 0;
  clookups = 0;
  evictions = 0;
  rereads = 0;
  cache_resizes = 0;
  spec_experts = 0;
  spec_useful = 0;
  spec_remaining = λ i. 0;
  spec_done = 3 ∷ [];
  spec_touched = 3 ∷ [];
  spec_jobs = [];
  spec_next = 0;
  spec_gen = 0;
  demand_accum = 0;
  token_demand = 0;
  layer_demand_accum = 0;
  layer_demand = 0;
  last_il = none;
  os = [];
}

abbrev before : Overlap
before = record {
  cache = warm;
  ready = λ f. 0;
  async_gen = 0;
  cur_il = none;
  batch = record {
    jobs = [];
    next_idx = 0;
    done_cnt = 0;
    njobs = 0;
    flag_gen = 0;
    batch_gen = 0;
    io_err = false;
  };
  fatal = false;
}

abbrev vm : Vm
vm os a n = true

tiny-Fits : Fits tiny
unfolding entry_bytes
tiny-Fits = omega arith

warm-Keeps : Keeps tiny warm (1 ∷ [])
unfolding entry_bytes
warm-Keeps = record {
  holds = record {
    distinct = (refl, tt);
    at_head = refl;
    at_tail = refl;
    prevs = λ i e. ground arith;
    nexts = λ i e. ground arith;
  };
  valid = λ i. ground arith;
  counted = refl;
  below = omega arith;
}

program : Unit {0}
unfolding load_layer_async load_routed open_load finish_lookups lookup_all mark_projs routed_set
    collect_ids collect_rest collect emit_projs emit_proj emit_slices commit_missed commit_others
    settle_load sort_ids insert_id quiesce_spec integrate_all integrate_entry release_all
    release_unfinished release_entry_pages release_proj release_range touch_entry count_hit
    promote_entry commit_projs commit_proj_pages commit_range enter_entry account_demand retain_ids
    retain_id evict_to_budget evict_loop evict_choice evict_entry add64 sub64 lru_unlink
    lru_push_front lru_push_back entry_bytes land_job on_expert_ready
program = tt

-- Two waves; expert 1 is resident and expert 0 is not.
abbrev loaded : Overlap × Bool
loaded = load_layer_async vm true tiny 0 (pos 1 ∷ pos 0 ∷ []) before

loaded_well : loaded.1 ≡ true
unfolding program
loaded_well = refl

loaded_run :
    (loaded.0.batch.njobs ≡ 2)
    × (loaded.0.cache.cresident ≡ 2400)
    × (loaded.0.ready 1 ≡ 1)
    × (loaded.0.ready 0 ≡ 0)
unfolding program
loaded_run = (refl, refl, refl, refl)

abbrev job : ℕ → IoJob
job p = async_job tiny (10000 * p) 0 p 0

-- One lane takes both jobs, one after the other.
abbrev halfway : Run
halfway = take_job 1 (land_job true 0 (job 0) (take_job 0 (start_run loaded.0)))

abbrev finished : Run
finished = count_job 0 (count_job 1 (land_job true 1 (job 1) halfway))

halfway-Steps : Steps (start_run loaded.0) halfway
unfolding program
halfway-Steps =
    more _ _
      (more _ _ (more _ _ stay (taken 0 refl (omega arith))) (landed true 0 (job 0) refl refl))
      (taken 1 refl (omega arith))

finished-Steps : Steps (start_run loaded.0) finished
unfolding program
finished-Steps =
    more _ _ (more _ _ (more _ _ halfway-Steps (landed true 1 (job 1) refl refl)) (counted 1 refl))
      (counted 0 refl)

finished_counts : finished.shared.batch.done_cnt ≡ finished.shared.batch.njobs
unfolding program
finished_counts = refl

-- Two streamed tensors of layer 0.
abbrev texp : Texp
texp = (100, 0) ∷ (200, 1) ∷ []

load_layer_async-Keeps_example :
    (ys : List ℕ) × Keeps tiny
      (load_layer_async vm true tiny 0 (pos 1 ∷ pos 0 ∷ []) before).0.cache
      ys
load_layer_async-Keeps_example =
    load_layer_async-Keeps vm true tiny 0 (pos 1 ∷ pos 0 ∷ []) before (1 ∷ []) tiny-Fits
      (omega arith) warm-Keeps (omega arith) (ground arith)

load_layer_async-Covered_example :
    Routed 2
      (λ e. (loaded.0.cache.cvalid (entry_id tiny 0 e) ≡ true) × Covered tiny 0 loaded.0 e)
      (pos 1 ∷ pos 0 ∷ [])
    × Settled older_entry loaded.0.cache
load_layer_async-Covered_example =
    load_layer_async-Covered vm true tiny 0 (pos 1 ∷ pos 0 ∷ []) before (1 ∷ []) tiny-Fits
      (omega arith) warm-Keeps (omega arith) (ground arith) refl loaded_well

load_layer_async-Told_example :
    Routed 2
      (λ e.
        (finished.shared.cache.cvalid (entry_id tiny 0 e) ≡ true)
        × Told tiny texp 0 finished.shared e)
      (pos 1 ∷ pos 0 ∷ [])
load_layer_async-Told_example =
    load_layer_async-Told vm true tiny 0 (pos 1 ∷ pos 0 ∷ []) before (1 ∷ []) tiny-Fits
      (omega arith) warm-Keeps (omega arith) (ground arith) refl texp finished loaded_well
      finished-Steps finished_counts

loaded-Published : Published 1 loaded.0.batch
unfolding program
loaded-Published = record { none_taken = refl; none_done = refl; whole = refl; flags = refl }

lanes-Drain_example : (v : Run) × Steps halfway v × (v.shared.batch.done_cnt ≡ v.shared.batch.njobs)
lanes-Drain_example = lanes-Drain loaded.0 1 halfway loaded-Published halfway-Steps

halfway_fine : halfway.shared.fatal ≡ false
unfolding program
halfway_fine = refl

-- The first projection of expert 0 is there while the second is being read.
told_first : on_expert_ready tiny texp 100 (pos 0) halfway.shared ≡ (halfway.shared, resident)
unfolding program
told_first = refl

told_second : on_expert_ready tiny texp 200 (pos 0) halfway.shared ≡ (halfway.shared, blocked)
unfolding program
told_second = refl

resident-Earned_example :
    ((open_load tiny 0 before).cache.cvalid (entry_id tiny 0 0) ≡ true)
    ⊎ WasRead loaded.0.batch.jobs (flag_of tiny 0 0) halfway.read
resident-Earned_example =
    resident-Earned vm true tiny 0 (pos 1 ∷ pos 0 ∷ []) before (1 ∷ []) tiny-Fits (omega arith)
      warm-Keeps (omega arith) (ground arith) (λ f. ground arith) texp halfway 100 0 0 loaded_well
      halfway-Steps halfway_fine refl refl (omega arith) told_first
