-- ===== src/Prefetch/Examples.antt =====
-- Two speculative reads of one entry, made, adopted and cancelled; the theorems at them.
use meitte.Base.{
  ℕ, ◌+◌, ◌*◌, ◌≡◌, refl, Bool, true, false, List, [], ◌∷◌, ◌++◌, none, some, arith, if◌then◌else◌,
  ◌==◌, add64, pos, elem, length, ◌⊎◌, ◌≢◌,
}
use meitte.Cache.{Shape, Vm, Cache, IoJob, entry_bytes}
use meitte.Cache.Invariant.{Keeps, Fits}
use meitte.Cache.Entry.{
  projections, release_entry_pages, release_proj, release_range, commit_projs, commit_proj_pages,
  commit_range,
}
use meitte.Lru.{lru_push_front, lru_push_back}
use meitte.Prefetch.{Flying, Spec, queue}
use meitte.Prefetch.Issue.{
  candidates, spec_job, stage_slices, add_staged, roll_back, stage_candidates, set_remaining,
  publish_staged, stage_layer, issue, entry_ids,
}
use meitte.Prefetch.Slices.{Granted}
use meitte.Prefetch.Lanes.{take_spec, land_spec, account_read, count_down}
use meitte.Prefetch.Settle.{
  eligible, integrate_done, integrate_done_entry, spec_integrate_done, cancel_spec, adopt_layer,
  adopted, unsettled,
}
use meitte.Prefetch.Count.{tally, of_entry, pending}
use meitte.Prefetch.Steps.{
  taken, landed, Works, idle, then_work, worked, issued, settled, cancelled, SpecSteps, stay, more,
}
use meitte.Prefetch.Staging.{jobs_of, entries_of, Stopped}
use meitte.Prefetch.Sound.{Filled, Sound}
use meitte.Prefetch.Issued.{issue_whole}
use meitte.Prefetch.Reached.{
  IsIdle, start_spec, start_spec-Sound, SpecSteps-Sound, resident-Quiet, resident-Filled,
}
use meitte.Prefetch.Adoption.{adopt_layer-Joined}
use meitte.Prefetch.Serial.{adopted_next, drain_adopted, drain_adopted-Drained}
use meitte.Prefetch.Wait.{quiesce-Ends}
use meitte.Prefetch.Whole.{SpecSteps-Keeps}

abbrev tiny : Shape
tiny = record {
  n_layer = 2;
  n_expert = 2;
  bound = λ l. true;
  nb2 = λ l p. if p == 2 then 0 else 600;
  file_off = λ l p. 3000 * l + 1200 * p;
  file_idx = λ l p. 0;
  lbuf = λ p l. 10000 * p + 4000 * l;
  slot = λ p. 0;
  page = 256;
  load_all = false;
}

abbrev bare : Cache
bare = record {
  links = record { head = none; tail = none; prev = λ i. none; next = λ i. none };
  cvalid = λ i. false;
  cspec = λ i. false;
  cstamp = λ i. 0;
  ever_evicted = λ i. false;
  cgen = 1;
  cresident = 0;
  cache_max = 9000;
  chits = 0;
  clookups = 0;
  evictions = 0;
  rereads = 0;
  cache_resizes = 0;
  spec_experts = 0;
  spec_useful = 0;
  spec_remaining = λ i. 0;
  spec_done = [];
  spec_touched = [];
  spec_jobs = [];
  spec_next = 0;
  spec_gen = 0;
  demand_accum = 0;
  token_demand = 0;
  layer_demand_accum = 0;
  layer_demand = 0;
  last_il = none;
  os = [];
}

abbrev vm : Vm
vm os a n = true

tiny-Fits : Fits tiny
unfolding entry_bytes
tiny-Fits = omega arith

bare-Keeps : Keeps tiny bare []
bare-Keeps = record {
  holds = record {
    distinct = tt;
    at_head = refl;
    at_tail = refl;
    prevs = λ i e. absurd (ground arith);
    nexts = λ i e. absurd (ground arith);
  };
  valid = λ i. refl;
  counted = refl;
  below = tt;
}

bare-IsIdle : IsIdle bare
bare-IsIdle = record {
  no_jobs = refl;
  none_taken = refl;
  none_left = λ i. refl;
  none_done = refl;
  no_guess = λ i. refl;
}

program : Unit {0}
unfolding candidates spec_job stage_slices roll_back release_entry_pages release_proj release_range
    add_staged stage_candidates set_remaining publish_staged stage_layer issue take_spec land_spec
    account_read count_down eligible integrate_done integrate_done_entry spec_integrate_done
    cancel_spec adopt_layer adopted unsettled commit_projs commit_proj_pages commit_range
    lru_push_front lru_push_back entry_bytes add64
program = tt

abbrev job : ℕ → IoJob
unfolding spec_job
job p = spec_job tiny 0 1 p

abbrev flying : ℕ → Flying
flying p = record { gen = 0; job = job p }

-- Expert 1 of layer 0 is issued: two reads.
abbrev guessed : Bool → Spec
guessed adopt = issue vm tiny 0 (pos 1 ∷ []) (start_spec adopt bare)

guessed_run : (adopt : Bool) → SpecSteps tiny (start_spec adopt bare) (guessed adopt)
unfolding program
guessed_run adopt =
    more _ _ stay (issued vm 0 (pos 1 ∷ []) (omega arith) refl (refl, tt) (refl, tt))

-- Both lanes take one, and the second one to be taken ends first.
abbrev busy : Bool → Spec
busy adopt = take_spec (job 1) (take_spec (job 0) (guessed adopt))

abbrev read_all : Bool → Spec
read_all adopt = land_spec true 0 (flying 0) (land_spec true 0 (flying 1) (busy adopt))

busy_run : (adopt : Bool) → SpecSteps tiny (start_spec adopt bare) (busy adopt)
unfolding program
busy_run adopt =
    more _ _ (more _ _ (guessed_run adopt) (worked _ (taken (job 0) refl)))
      (worked _ (taken (job 1) refl))

read_all_run : (adopt : Bool) → SpecSteps tiny (start_spec adopt bare) (read_all adopt)
unfolding program
read_all_run adopt =
    more _ _ (more _ _ (busy_run adopt) (worked _ (landed true 0 (flying 1) refl)))
      (worked _ (landed true 0 (flying 0) refl))

abbrev joined : Spec
joined = let v = read_all false in record v { cache = spec_integrate_done v.adopt tiny v.cache }

joined_run : SpecSteps tiny (start_spec false bare) joined
unfolding program
joined_run = more _ _ (read_all_run false) (settled refl)

joined_state :
    (joined.cache.cvalid 1 ≡ true)
    × (joined.cache.cspec 1 ≡ true)
    × (joined.forgot ≡ false)
    × (joined.cache.cresident ≡ 1200)
unfolding program
joined_state = (refl, refl, refl, refl)

resident-Quiet_example : pending (of_entry 1) joined ≡ 0
resident-Quiet_example =
    resident-Quiet tiny false bare bare-IsIdle joined joined_run joined_state.2 1 joined_state.0

resident-Filled_example : Filled tiny joined.got 1
resident-Filled_example =
    resident-Filled tiny false bare bare-IsIdle joined joined_run joined_state.2 1 joined_state.0
      joined_state.1

SpecSteps-Keeps_example : (ys : List ℕ) × Keeps tiny joined.cache ys
SpecSteps-Keeps_example =
    SpecSteps-Keeps tiny tiny-Fits false bare [] joined bare-IsIdle bare-Keeps joined_run
      joined_state.2

-- The second slice of the expert is refused: nothing is queued, and the first one's pages go back.
abbrev stingy : Vm
stingy os a n = length os == 0

refused_run :
    let w = (issue stingy tiny 0 (pos 1 ∷ []) (start_spec false bare)).cache in
    (w.spec_jobs ≡ []) × (w.spec_touched ≡ []) × (w.spec_remaining 1 ≡ 0)
unfolding program
refused_run = (refl, refl, refl)

issue_whole_example :
    let w = (guessed false).cache in
    let cs = candidates tiny bare 0 (pos 1 ∷ []) in
    (es : List ℕ) × ((es ≡ cs) ⊎ Stopped vm tiny 0 cs es w.os)
    × ((e p : ℕ)
        → elem e es ≡ true
        → elem p projections ≡ true
        → tiny.nb2 0 p ≢ 0
        → Granted vm tiny 0 e p w.os)
    × (w.spec_jobs ≡ [] ++ jobs_of tiny 0 es)
    × (w.spec_touched ≡ [] ++ entry_ids (entries_of tiny 0 es))
    × ((id : ℕ) → w.spec_remaining id ≡ 0 + tally (of_entry id) (jobs_of tiny 0 es))
unfolding candidates
issue_whole_example = issue_whole vm tiny 0 (pos 1 ∷ []) (start_spec false bare) (refl, tt)

-- The source adopts; the load of layer 0 begins while both reads are in flight.
busy-Sound : Sound tiny (busy true)
unfolding program
busy-Sound = SpecSteps-Sound (busy_run true) refl (start_spec-Sound tiny true bare bare-IsIdle)

abbrev waiting : Spec
waiting = let v = busy true in record v { cache = adopt_layer 0 v.cache }

abbrev waited : Spec
waited = land_spec true 0 (flying 0) (land_spec true 0 (flying 1) waiting)

waited-Works : Works waiting waited
unfolding program
waited-Works =
    then_work _ _ (then_work _ _ idle (landed true 0 (flying 1) refl))
      (landed true 0 (flying 0) refl)

waited_over :
    (i : ℕ)
    → elem i (adopted tiny 0 (busy true).cache (busy true).cache.spec_touched) ≡ true
    → waited.cache.spec_remaining i ≡ 0
unfolding program
waited_over i h = ground (arith, h)

left_two : (busy true).cache.spec_remaining 1 ≡ 2
unfolding program
left_two = refl

kept_all : waited.forgot ≡ false
unfolding program
kept_all = refl

going_on : (busy true).quiescing ≡ false
unfolding program
going_on = refl

adopt_layer-Joined_example :
    ((spec_integrate_done waited.adopt tiny waited.cache).cvalid 1 ≡ true)
    × Filled tiny waited.got 1
adopt_layer-Joined_example =
    adopt_layer-Joined tiny 0 (busy true) waited 1 busy-Sound going_on waited-Works kept_all
      waited_over refl (λ z. absurd (omega (arith, z, left_two)))

-- The eval thread reads the layer's jobs itself.
drain_adopted-Drained_example :
    let w = drain_adopted (λ i. true) 0 (length (queue (guessed true).cache)) (guessed true) in
    Works (guessed true) w × (adopted_next 0 w ≡ none)
unfolding issue
drain_adopted-Drained_example = drain_adopted-Drained (λ i. true) 0 (guessed true) refl

drained_two : (drain_adopted (λ i. true) 0 2 (guessed true)).cache.spec_done ≡ 1 ∷ []
unfolding program drain_adopted
drained_two = refl

-- A cancelled round with both reads in flight.
abbrev cut : Spec
cut = let v = busy false in record v { cache = cancel_spec v.cache; quiescing = true; lost = [] }

cut-Sound : Sound tiny cut
unfolding program
cut-Sound =
    SpecSteps-Sound (more _ _ (busy_run false) (cancelled refl)) refl
      (start_spec-Sound tiny false bare bare-IsIdle)

cut_kept : (cut.forgot ≡ false) × (cut.adopt ≡ false)
unfolding program
cut_kept = (refl, refl)

quiesce-Ends_example :
    (w : Spec) × SpecSteps tiny cut w
    × (w.quiescing ≡ false)
    × (w.flight ≡ [])
    × (queue w.cache ≡ [])
    × ((id : ℕ) → w.cache.spec_remaining id ≡ 0)
quiesce-Ends_example =
    quiesce-Ends tiny cut (λ f. false) cut-Sound refl cut_kept.0 (λ f h. cut_kept.1)

-- Under adoption the entry completes, is issued again before the next settle, and completes again: it
-- waits twice, and joins twice.
abbrev again : Spec
again =
    let v = issue vm tiny 0 (pos 1 ∷ []) (read_all true) in
    land_spec true 0 (flying 0)
      (land_spec true 0 (flying 1) (take_spec (job 1) (take_spec (job 0) v)))

joined_twice :
    (again.cache.spec_done ≡ 1 ∷ 1 ∷ [])
    × ((spec_integrate_done true tiny again.cache).cresident ≡ 2400)
    × ((spec_integrate_done true tiny again.cache).links.next 1 ≡ some 1)
unfolding program
joined_twice = (refl, refl, refl)

-- Under adoption the first read fails, which resets the entry while its second read is queued. It is
-- issued again, and the old read counts for the new round: the entry joins with a read of it queued.
abbrev reset_early : Spec
reset_early =
    let v = land_spec false 0 (flying 0) (take_spec (job 0) (guessed true)) in
    let w = issue vm tiny 0 (pos 1 ∷ []) v in
    let x = land_spec true 0 (flying 1) (take_spec (job 1) w) in
    land_spec true 0 (flying 0) (take_spec (job 0) x)

joined_early :
    ((spec_integrate_done true tiny reset_early.cache).cvalid 1 ≡ true)
    × (queue reset_early.cache ≡ job 1 ∷ [])
unfolding program
joined_early = (refl, refl)
