-- ===== src/Prefetch/Defs.antt =====
-- The state that the eval thread and the lanes share for speculative reads.
use meitte.Base.{ℕ, Bool, true, false, List, [], ◌∷◌, drop, update, Option, none, some}
use meitte.Cache.{IoJob, Cache}

-- A read that a lane has taken, with the `spec_gen_` that it saw.
pub record Flying : Type 0 where
  pub gen : ℕ
  pub job : IoJob

-- The queue, `spec_remaining_`, `spec_done_` and `spec_touched_` are fields of the cache. `adopt` is
-- `spec_adopt_`, `flight` the reads that `spec_inflight_` counts, and `quiescing` says that the eval
-- thread waits in `quiesce_spec` for them to end. `got` records the slices read since their entry was
-- last issued, `lost` the reads of this generation that failed, and `forgot` that a failed read has
-- reset an entry: the source has no such fields.
pub record Spec : Type 0 where
  pub cache : Cache
  pub adopt : Bool
  pub quiescing : Bool
  pub flight : List Flying
  pub read_bytes : ℕ
  pub got : ℕ → ℕ → Bool
  pub lost : List IoJob
  pub forgot : Bool

-- The jobs that no lane has taken.
abbrev pub queue : Cache → List IoJob
queue c = drop c.spec_next c.spec_jobs

abbrev pub mark_got : Option ℕ → ℕ → (ℕ → ℕ → Bool) → ℕ → ℕ → Bool
mark_got none p got = got
mark_got (some id) p got = update got id (update (got id) p true)

-- The slices of the entries named have not been read.
abbrev pub reset_got : List (ℕ × ℕ) → (ℕ → ℕ → Bool) → ℕ → ℕ → Bool
reset_got [] got = got
reset_got ((id, n) ∷ es) got = reset_got es (update got id (λ p. false))
