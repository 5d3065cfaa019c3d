-- ===== src/Prefetch/Lanes.antt =====
-- `drain_spec`: an idle lane takes a queued speculative read, makes it and accounts for it.
use meitte.Base.{
  ℕ, zero, suc, ◌+◌, ◌-◌, Bool, true, ◌&&◌, List, [], ◌∷◌, ◌++◌, Option, none, some, if◌then◌else◌,
  ◌==◌, update,
}
use meitte.Cache.{IoJob, Cache}
use meitte.Prefetch.Defs.{Flying, Spec, mark_got}

-- The list without its element at a place.
abbrev pub remove_at {ℓ} : {A : Type ℓ} → ℕ → List A → List A
remove_at n [] = []
remove_at zero (x ∷ xs) = xs
remove_at (suc n) (x ∷ xs) = x ∷ remove_at n xs

-- `spec_jobs_[spec_next_++]`, under the lock.
unfoldable pub take_spec : IoJob → Spec → Spec
take_spec j v = record v {
  cache = record v.cache { spec_next = suc v.cache.spec_next };
  flight = record { gen = v.cache.spec_gen; job = j } ∷ v.flight;
}

-- `--spec_remaining_[id]`, and the entry is done when nothing remains.
unfoldable pub count_down : ℕ → Cache → Cache
count_down id c =
    let left = c.spec_remaining id - 1 in
    record c {
      spec_remaining = update c.spec_remaining id left;
      spec_done = if left == 0 then c.spec_done ++ id ∷ [] else c.spec_done;
    }

-- What the end of a read tells its entry: `current` says that no round was cancelled since it was
-- taken.
unfoldable pub account_read : Bool → Bool → Bool → Option ℕ → Cache → Cache
account_read adopt ok current none c = c
account_read adopt ok current (some id) c =
    if ok && current
    then (if c.spec_remaining id == 0 then c else count_down id c)
    else if ok
    then c
    else if adopt
    then record c { spec_remaining = update c.spec_remaining id 0 }
    else c

-- The read at place `n` of those in flight has ended.
unfoldable pub land_spec : Bool → ℕ → Flying → Spec → Spec
land_spec ok n f v =
    let current = f.gen == v.cache.spec_gen in
    record v {
      cache = account_read v.adopt ok current f.job.flag v.cache;
      flight = remove_at n v.flight;
      read_bytes = if ok && current then v.read_bytes + f.job.nbytes else v.read_bytes;
      got = if ok then mark_got f.job.flag f.job.proj v.got else v.got;
      lost = if ok then v.lost else f.job ∷ v.lost;
      forgot = if ok then v.forgot else (if v.adopt then true else v.forgot);
    }
