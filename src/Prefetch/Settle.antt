-- ===== src/Prefetch/Settle.antt =====
-- What the eval thread does with speculation: `spec_integrate_done`, the two halves of the
-- destructive `quiesce_spec` around its wait, and the adoption of a layer's reads.
use meitte.Base.{
  ℕ, ◌+◌, ◌/◌, Bool, true, false, ◌&&◌, not, List, [], ◌∷◌, ◌++◌, if◌then◌else◌, ◌==◌, update,
  add64, take, length, ◌≡◌, refl,
}
use meitte.Lru.{lru_push_back, lru_push_front}
use meitte.Cache.{Shape, IoJob, Cache, entry_weight}
use meitte.Cache.Speculation.{integrate_all, release_all, quiesce_spec}
use meitte.Prefetch.Defs.{queue}

-- The entries of `spec_done_` that the snapshot under the lock keeps.
unfoldable pub eligible : Cache → List ℕ → List ℕ
eligible c [] = []
eligible c (id ∷ ids) =
    let rest = eligible c ids in
    if not (c.cvalid id) && c.spec_remaining id == 0 then id ∷ rest else rest

unfoldable pub integrate_done_entry : Bool → Shape → ℕ → Cache → Cache
integrate_done_entry adopt s id c = record c {
  cvalid = update c.cvalid id true;
  cspec = update c.cspec id true;
  cstamp = update c.cstamp id 0;
  cresident = add64 c.cresident (entry_weight s id);
  links = if adopt then lru_push_front id c.links else lru_push_back id c.links;
  spec_experts = c.spec_experts + 1;
}

unfoldable pub integrate_done : Bool → Shape → List ℕ → Cache → Cache
integrate_done adopt s [] c = c
integrate_done adopt s (id ∷ ids) c = integrate_done adopt s ids (integrate_done_entry adopt s id c)

unfoldable pub spec_integrate_done : Bool → Shape → Cache → Cache
unfolding integrate_done eligible
spec_integrate_done adopt s c =
    integrate_done adopt s (eligible c c.spec_done) (record c { spec_done = [] })

-- `settle_spec()` on an active source: with adoption it integrates what is done and cancels nothing;
-- without, it is the destructive quiesce, which ends with nothing in flight.
unfoldable pub settle_spec : Bool → Shape → Cache → Cache
unfolding spec_integrate_done
settle_spec adopt s c =
    if c.cache_max == 0
    then c
    else if adopt
    then if length c.spec_done == 0 then c else spec_integrate_done adopt s c
    else quiesce_spec s c

-- The destructive quiesce up to its wait: the queue is cleared and reads in flight are disowned.
unfoldable pub cancel_spec : Cache → Cache
cancel_spec c = record c { spec_gen = c.spec_gen + 1; spec_jobs = []; spec_next = 0 }

-- And from the wait on, with nothing in flight.
unfoldable pub harvest_spec : Shape → Cache → Cache
harvest_spec s c =
    release_all s c.spec_touched
      (integrate_all s c.spec_done (record c { spec_done = []; spec_touched = [] }))

-- Where nothing is in flight, the quiesce of the serial load is the two halves.
pub harvest_spec-cancel_spec :
    (s : Shape) (c : Cache) → harvest_spec s (cancel_spec c) ≡ quiesce_spec s c
unfolding harvest_spec cancel_spec quiesce_spec
harvest_spec-cancel_spec s c = refl

-- `std::stable_partition` by the layer.
abbrev pub jobs_of_layer : Bool → ℕ → List IoJob → List IoJob
jobs_of_layer own il [] = []
jobs_of_layer own il (j ∷ js) =
    if j.layer == il
    then (if own then j ∷ jobs_of_layer own il js else jobs_of_layer own il js)
    else (if own then jobs_of_layer own il js else j ∷ jobs_of_layer own il js)

-- The entries of the layer that still wait for reads: `spec_adopt_ids_`.
unfoldable pub adopted : Shape → ℕ → Cache → List ℕ → List ℕ
adopted s il c [] = []
adopted s il c (id ∷ ids) =
    let rest = adopted s il c ids in
    if id / s.n_expert == il && not (c.spec_remaining id == 0) then id ∷ rest else rest

-- `spec_touched_` without the entries that are settled.
unfoldable pub unsettled : Cache → List ℕ → List ℕ
unsettled c [] = []
unsettled c (id ∷ ids) =
    let rest = unsettled c ids in if c.spec_remaining id == 0 then rest else id ∷ rest

-- `quiesce_spec(il)` with adoption, up to its wait: the layer's jobs come first.
unfoldable pub adopt_layer : ℕ → Cache → Cache
unfolding unsettled
adopt_layer il c = record c {
  spec_jobs =
      take c.spec_next c.spec_jobs
      ++ (jobs_of_layer true il (queue c) ++ jobs_of_layer false il (queue c));
  spec_touched = unsettled c c.spec_touched;
}
