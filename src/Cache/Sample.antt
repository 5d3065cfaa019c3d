-- ===== src/Cache/Sample.antt =====
-- A cache over two layers of two experts, with two entries resident.
use meitte.Base.{◌+◌, ◌*◌, refl, true, false, [], ◌∷◌, none, some, arith, if◌then◌else◌, ◌==◌}
use meitte.Cache.Defs.{Shape, Vm, Cache, entry_bytes}
use meitte.Cache.Load.{Reads}
use meitte.Cache.Invariant.{Keeps, Fits}

abbrev pub tiny : Shape
tiny = record {
  n_layer = 2;
  n_expert = 2;
  bound = λ l. true;
  nb2 = λ l p. if p == 2 then 0 else 600;
  file_off = λ l p. 3000 * l + 1200 * p;
  file_idx = λ l p. 0;
  lbuf = λ p l. 10000 * p + 4000 * l;
  slot = λ p. 0;
  page = 256;
  load_all = false;
}

-- Entries 1 (hot) and 2 are resident; a speculative read of entry 3 is complete.
abbrev pub warm : Cache
warm = record {
  links = record {
    head = some 1;
    tail = some 2;
    prev = λ i. if i == 2 then some 1 else none;
    next = λ i. if i == 1 then some 2 else none;
  };
  cvalid = λ i. if i == 1 then true else i == 2;
  cspec = λ i. false;
  cstamp = λ i. 4;
  ever_evicted = λ i. false;
  cgen = 4;
  cresident = 2400;
  cache_max = 2600;
  chits = 0;
  clookups = 0;
  evictions = 0;
  rereads = 0;
  cache_resizes = 0;
  spec_experts = 0;
  spec_useful = 0;
  spec_remaining = λ i. 0;
  spec_done = 3 ∷ [];
  spec_touched = 3 ∷ [];
  spec_jobs = [];
  spec_next = 0;
  spec_gen = 0;
  demand_accum = 0;
  token_demand = 0;
  layer_demand_accum = 0;
  layer_demand = 0;
  last_il = none;
  os = [];
}

abbrev pub vm : Vm
vm os a n = true

abbrev pub reads : Reads
reads done j = true

pub tiny-Fits : Fits tiny
unfolding entry_bytes
tiny-Fits = omega arith

pub warm-Keeps : Keeps tiny warm (1 ∷ 2 ∷ [])
unfolding entry_bytes
warm-Keeps = record {
  holds = record {
    distinct = (refl, (refl, tt));
    at_head = refl;
    at_tail = refl;
    prevs = λ i e. ground arith;
    nexts = λ i e. ground arith;
  };
  valid = λ i. ground arith;
  counted = refl;
  below = omega arith;
}
