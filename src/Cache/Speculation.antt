-- ===== src/Cache/Speculation.antt =====
-- `quiesce_spec()` without adoption (the guessing predictors): queued speculative reads are
-- cancelled, entries that were read whole become resident at the cold end, the others are released.
-- The state is that of the eval thread once no speculative read is in flight.
use meitte.Base.{ℕ, ◌+◌, true, ◌||◌, not, List, [], ◌∷◌, if◌then◌else◌, ◌==◌, update, add64}
use meitte.Lru.{lru_push_back}
use meitte.Cache.Defs.{Shape, Cache, entry_weight}
use meitte.Cache.Entry.{release_entry_pages}

unfoldable pub integrate_entry : Shape → ℕ → Cache → Cache
integrate_entry s id c =
    if not (c.spec_remaining id == 0) || c.cvalid id
    then record c { spec_remaining = update c.spec_remaining id 0 }
    else record c {
      cvalid = update c.cvalid id true;
      cspec = update c.cspec id true;
      cstamp = update c.cstamp id 0;
      cresident = add64 c.cresident (entry_weight s id);
      links = lru_push_back id c.links;
      spec_experts = c.spec_experts + 1;
    }

unfoldable pub integrate_all : Shape → List ℕ → Cache → Cache
integrate_all s [] c = c
integrate_all s (id ∷ ids) c = integrate_all s ids (integrate_entry s id c)

unfoldable pub release_unfinished : Shape → ℕ → Cache → Cache
release_unfinished s id c =
    if c.spec_remaining id == 0
    then c
    else let r = release_entry_pages s id c in
      record r { spec_remaining = update r.spec_remaining id 0 }

unfoldable pub release_all : Shape → List ℕ → Cache → Cache
release_all s [] c = c
release_all s (id ∷ ids) c = release_all s ids (release_unfinished s id c)

unfoldable pub quiesce_spec : Shape → Cache → Cache
quiesce_spec s c =
    let d = record c {
      spec_gen = c.spec_gen + 1;
      spec_jobs = [];
      spec_next = 0;
      spec_done = [];
      spec_touched = [];
    } in
    release_all s c.spec_touched (integrate_all s c.spec_done d)
