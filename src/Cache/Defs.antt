-- ===== src/Cache/Defs.antt =====
-- The cache's shape and state.
use meitte.Base.{ℕ, ◌+◌, ◌*◌, ◌/◌, Bool, List, Option}
use meitte.Lru.{Links}

-- What `init` fixes: the layers, the byte stride of an expert in each of the three projections (0 for
-- an absent one), where its slices lie in the files, the reserved buffers and the page size.
pub record Shape : Type 0 where
  pub n_layer : ℕ
  pub n_expert : ℕ
  pub bound : ℕ → Bool
  pub nb2 : ℕ → ℕ → ℕ
  pub file_off : ℕ → ℕ → ℕ
  pub file_idx : ℕ → ℕ → ℕ
  pub lbuf : ℕ → ℕ → ℕ
  pub slot : ℕ → ℕ
  pub page : ℕ
  pub load_all : Bool

pub data OsCall : Type 0 where
  vm_commit : ℕ → ℕ → OsCall
  vm_evict : ℕ → ℕ → OsCall

abbrev pub Vm : Type 0
Vm = List OsCall → ℕ → ℕ → Bool

-- One slice to read. `flag` is the readiness cell or the entry to tell, `file` the shard; `spec` marks
-- a speculative read.
pub record IoJob : Type 0 where
  pub dst : ℕ
  pub off : ℕ
  pub nbytes : ℕ
  pub flag : Option ℕ
  pub file : ℕ
  pub expert : ℕ
  pub layer : ℕ
  pub proj : ℕ
  pub spec : Bool

pub record Cache : Type 0 where
  pub links : Links
  pub cvalid : ℕ → Bool
  pub cspec : ℕ → Bool
  pub cstamp : ℕ → ℕ
  pub ever_evicted : ℕ → Bool
  pub cgen : ℕ
  pub cresident : ℕ
  pub cache_max : ℕ
  pub chits : ℕ
  pub clookups : ℕ
  pub evictions : ℕ
  pub rereads : ℕ
  pub cache_resizes : ℕ
  pub spec_experts : ℕ
  pub spec_useful : ℕ
  pub spec_remaining : ℕ → ℕ
  pub spec_done : List ℕ
  pub spec_touched : List ℕ
  pub spec_jobs : List IoJob
  pub spec_next : ℕ
  pub spec_gen : ℕ
  pub demand_accum : ℕ
  pub token_demand : ℕ
  pub layer_demand_accum : ℕ
  pub layer_demand : ℕ
  pub last_il : Option ℕ
  pub os : List OsCall

abbrev pub n_entry : Shape → ℕ
n_entry s = s.n_layer * s.n_expert

abbrev pub entry_id : Shape → ℕ → ℕ → ℕ
entry_id s il e = il * s.n_expert + e

-- `entry_bytes(il)`: absent projections contribute 0.
unfoldable pub entry_bytes : Shape → ℕ → ℕ
entry_bytes s il = s.nb2 il 0 + s.nb2 il 1 + s.nb2 il 2

-- The bytes that an entry accounts for.
abbrev pub entry_weight : Shape → ℕ → ℕ
entry_weight s id = entry_bytes s (id / s.n_expert)
