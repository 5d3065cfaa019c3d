-- ===== src/Overlap/Lanes.antt =====
-- The lanes (`io_drain`) as a step relation: a lane takes the next job, reads its slice and publishes
-- its flag, and counts it. `read_slice` may fail at any job.
use meitte.Base.{
  ℕ, ◌+◌, ◌<◌, ◌≡◌, Bool, true, List, ◌∷◌, Option, none, some, update, get_elem?, elem, remove,
  if◌then◌else◌,
}
use meitte.Cache.{IoJob}
use meitte.Overlap.Defs.{Overlap}

-- The shared state, the jobs that lanes hold a copy of (by index), how many were published but not
-- counted yet, and the jobs whose slice was read.
pub record Run : Type 0 where
  pub shared : Overlap
  pub flight : List ℕ
  pub told : ℕ
  pub read : List ℕ

-- `jobs_[next_idx_++]`.
abbrev pub take_job : ℕ → Run → Run
take_job i r = record r {
  shared = record r.shared { batch = record r.shared.batch { next_idx = i + 1 } };
  flight = i ∷ r.flight;
}

abbrev pub publish_flag : Option ℕ → ℕ → (ℕ → ℕ) → ℕ → ℕ
publish_flag none gen ready = ready
publish_flag (some f) gen ready = update ready f gen

-- The read of job `i` has ended, well or not; a failure is fatal, and the flag is published anyway.
unfoldable pub land_job : Bool → ℕ → IoJob → Run → Run
land_job ok i j r =
    let st = r.shared in
    record r {
      shared = record st {
        ready = publish_flag j.flag st.batch.flag_gen st.ready;
        fatal = if ok then st.fatal else true;
        batch = if ok then st.batch else record st.batch { io_err = true };
      };
      flight = remove i r.flight;
      told = r.told + 1;
      read = if ok then i ∷ r.read else r.read;
    }

-- `++done_cnt_`.
abbrev pub count_job : ℕ → Run → Run
count_job n r = record r {
  shared = record r.shared {
    batch = record r.shared.batch { done_cnt = r.shared.batch.done_cnt + 1 };
  };
  told = n;
}

pub data Step (r : Run) : Run → Type 0 where
  taken : (i : ℕ) → r.shared.batch.next_idx ≡ i → i < r.shared.batch.njobs → Step r (take_job i r)
  landed :
      (ok : Bool) (i : ℕ) (j : IoJob)
      → elem i r.flight ≡ true
      → get_elem? r.shared.batch.jobs i ≡ some j
      → Step r (land_job ok i j r)
  counted : (n : ℕ) → r.told ≡ n + 1 → Step r (count_job n r)

-- Any number of steps, by any lanes in any order.
pub data Steps (r : Run) : Run → Type 0 where
  stay : Steps r r
  more : (u v : Run) → Steps r u → Step u v → Steps r v
