-- ===== src/Rows/Examples.antt =====
-- Two tables, one slab of the second resident; the first is gathered from and given back.
use meitte.Base.{
  ℕ, ◌<◌, ◌≡◌, ◌≢◌, refl, true, false, List, [], ◌∷◌, some, arith, ℤ, pos, Routed, sub64, add64,
  sort_ids, insert_id,
}
use meitte.Cache.{Vm}
use meitte.Rows.Slabs.{
  Table, Window, same_key, RowStream, SlabReads, n_slabs, slab_len, slab_commit, touch, land,
  count_error, fetch_slab, drop_slab,
}
use meitte.Rows.Stream.{
  serves, gather, gather_rows, next_gen, mark_rows, mark_slabs, mark_slab, evict_to_budget,
  evict_from, fetch_all, materialize,
}
use meitte.Rows.Invariant.{Keeps}
use meitte.Rows.Mark.{RowIn}
use meitte.Rows.Gather.{gather-Keeps, gather-Served}
use meitte.Rows.Materialize.{materialize-served}

abbrev embedding : Table
embedding = record {
  tensor = 100;
  size = 40000;
  row_bytes = 1000;
  n_rows = 40;
  file_idx = 0;
  file_off = 512;
  base = 1000000;
  orig_data = 77;
}

abbrev second : Table
second = record embedding {
  tensor = 200;
  size = 20000;
  n_rows = 20;
  base = 2000000;
  orig_data = 88;
}

abbrev window : Window
window = record { tables = embedding ∷ second ∷ []; page = 4096; budget_bytes = 32768 }

abbrev warm : RowStream
warm = record {
  resident = λ t s. same_key (1, 0) (t, s);
  stamp = λ t s. 3;
  spot = λ t s. same_key (1, 0) (t, s);
  lru = (1, 0) ∷ [];
  whole = λ t. false;
  tensor_data = λ t. 0;
  gen = 3;
  resident_bytes = 16384;
  gathers = 0;
  rows = 0;
  slab_reads = 1;
  bytes_read = 16384;
  evictions = 0;
  materialized = 0;
  io_errors = 0;
  os = [];
}

abbrev vm : Vm
vm calls addr bytes = true

abbrev reads : SlabReads
reads calls k = some 16384

abbrev idx : List ℤ
idx = pos 16 ∷ pos 39 ∷ pos 40 ∷ []

warm-Keeps : Keeps window warm
unfolding slab_commit slab_len sub64
warm-Keeps = record {
  distinct = (refl, tt);
  spots = λ k. ground arith;
  flags = λ k. ground arith;
  counted = refl;
  stamped = λ k. omega arith;
  gen_lt = omega arith;
}

gather_succeeds : (gather vm reads window 100 idx warm).1 ≡ true
unfolding gather gather_rows next_gen mark_rows mark_slabs mark_slab evict_to_budget evict_from
    sort_ids insert_id fetch_all fetch_slab land touch count_error drop_slab slab_commit slab_len
    sub64 add64
gather_succeeds = refl

gather-Keeps_example : Keeps window (gather vm reads window 100 idx warm).0
gather-Keeps_example = gather-Keeps vm reads window 100 idx warm warm-Keeps

gather-Served_example :
    Routed 40
      (RowIn embedding (λ s. (gather vm reads window 100 idx warm).0.resident 0 s ≡ true))
      idx
gather-Served_example =
    gather-Served vm reads window 100 idx warm 0 embedding warm-Keeps refl refl gather_succeeds

materialize-served_example :
    let u = materialize window 200 warm in
    Keeps window u
    × (serves window u 200 ≡ false)
    × (u.tensor_data 1 ≡ 88)
    × ((s : ℕ) → s < n_slabs second → u.resident 1 s ≡ false)
    × ((j s : ℕ) → 1 ≢ j → u.resident j s ≡ warm.resident j s)
materialize-served_example = materialize-served window 200 1 second warm warm-Keeps refl refl
