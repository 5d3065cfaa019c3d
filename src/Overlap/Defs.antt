-- ===== src/Overlap/Defs.antt =====
-- The state that the threads of an overlapped load share.
use meitte.Base.{ℕ, ◌+◌, ◌*◌, Bool, List, Option}
use meitte.Cache.{IoJob, Cache, Shape}

-- `jobs_`, `next_idx_`, `done_cnt_`, `batch_njobs_`, `batch_flag_gen_`, `batch_gen_` and `io_err_`.
pub record Batch : Type 0 where
  pub jobs : List IoJob
  pub next_idx : ℕ
  pub done_cnt : ℕ
  pub njobs : ℕ
  pub flag_gen : ℕ
  pub batch_gen : ℕ
  pub io_err : Bool

-- `ready` holds the generation of every readiness flag; `cur_il` is `none` before the first load.
pub record Overlap : Type 0 where
  pub cache : Cache
  pub ready : ℕ → ℕ
  pub async_gen : ℕ
  pub cur_il : Option ℕ
  pub batch : Batch
  pub fatal : Bool

-- The readiness flag of an expert's projection, within the layer in flight.
abbrev pub flag_of : Shape → ℕ → ℕ → ℕ
flag_of s p e = p * s.n_expert + e
