-- ===== src/Rows/Stream.antt =====
-- `evict_to_budget`, `gather`, `materialize` and `serves`.
use meitte.Base.{
  ℕ, zero, suc, ◌+◌, ◌*◌, ◌/◌, ◌%◌, ◌^◌, Bool, true, false, not, ◌&&◌, List, [], ◌∷◌, ◌++◌, Option,
  none, some, if◌then◌else◌, ◌==◌, leb, ltb, min, add64, sub64, ℤ, index_below, length, get_elem?,
  sort_ids,
}
use meitte.Cache.{vm_evict, Vm}
use meitte.Rows.Slabs.{
  slab_bytes, Table, Window, Key, write, remove_key, RowStream, SlabReads, n_slabs, slab_commit,
  fetch_slab, drop_slab,
}

-- `find`: the index of the first table with that tensor.
abbrev pub find_from : ℕ → ℕ → List Table → Option (ℕ × Table)
find_from i tensor [] = none
find_from i tensor (t ∷ ts) =
    if t.tensor == tensor then some (i, t) else find_from (i + 1) tensor ts

abbrev pub find : Window → ℕ → Option (ℕ × Table)
find w tensor = find_from 0 tensor w.tables

unfoldable pub serves : Window → RowStream → ℕ → Bool
serves w st tensor = elim (find w tensor) [ none ↦ false | some (i, t) ↦ not (st.whole i) ]

-- The table at an index of the LRU list. Every index in it is one of a table.
abbrev pub drop_at : Window → Key → RowStream → RowStream
drop_at w k st = elim (get_elem? w.tables k.0) [ none ↦ st | some t ↦ drop_slab w t k st ]

abbrev pub within : Window → ℕ → RowStream → Bool
within w headroom st = leb (add64 st.resident_bytes headroom) w.budget_bytes

-- The loop over the list from one position on; a slab of the gather in flight stays.
unfoldable pub evict_from : Window → ℕ → List Key → RowStream → RowStream
unfolding drop_slab
evict_from w headroom [] st = st
evict_from w headroom (k ∷ ks) st =
    let rest =
      evict_from w headroom ks (if st.stamp k.0 k.1 == st.gen then st else drop_at w k st) in
    if within w headroom st then st else rest

unfoldable pub evict_to_budget : Window → ℕ → RowStream → RowStream
unfolding evict_from
evict_to_budget w headroom st = evict_from w headroom st.lru st

-- `++gen_`, and a reset of all stamps where it wraps.
unfoldable pub next_gen : RowStream → RowStream
next_gen st =
    let g = (st.gen + 1) % 2 ^ 32 in
    if g == 0 then record st { gen = 1; stamp = λ t s. 0 } else record st { gen = g }

-- The scratch of a gather: the stamps, the slabs that it needs and the bytes that are missing.
pub record Marking : Type 0 where
  pub stream : RowStream
  pub need : List ℕ
  pub missing : ℕ

unfoldable pub mark_slab : ℕ → ℕ → Marking → Marking
mark_slab ti s m =
    let st = m.stream in
    if st.stamp ti s == st.gen then m else record {
      stream = record st { stamp = write st.stamp (ti, s) st.gen };
      need = m.need ++ s ∷ [];
      missing = if st.resident ti s then m.missing else add64 m.missing slab_bytes;
    }

-- `for (s = …; s * slab_bytes < b; ++s)`, left at the last slab: `n_slabs` rounds are enough.
unfoldable pub mark_slabs : ℕ → ℕ → Table → ℕ → ℕ → Marking → Marking
unfolding mark_slab
mark_slabs zero ti t b s m = m
mark_slabs (suc fuel) ti t b s m =
    let rest = mark_slabs fuel ti t b (s + 1) (mark_slab ti s m) in
    if ltb (s * slab_bytes) b && ltb s (n_slabs t) then rest else m

abbrev pub row_end : Table → ℕ → ℕ
row_end t r = min (r * t.row_bytes + t.row_bytes) t.size

abbrev pub mark_row : ℕ → Table → Option ℕ → Marking → Marking
mark_row ti t none m = m
mark_row ti t (some r) m =
    mark_slabs (n_slabs t) ti t (row_end t r) (r * t.row_bytes / slab_bytes) m

unfoldable pub mark_rows : ℕ → Table → List ℤ → Marking → Marking
unfolding mark_slabs
mark_rows ti t [] m = m
mark_rows ti t (z ∷ zs) m = mark_rows ti t zs (mark_row ti t (index_below t.n_rows z) m)

abbrev pub and_fetch : RowStream × Bool → (RowStream → RowStream × Bool) → RowStream × Bool
and_fetch (st, true) f = f st
and_fetch (st, false) f = (st, false)

unfoldable pub fetch_all :
    Vm → SlabReads → Window → ℕ → Table → List ℕ → RowStream → RowStream × Bool
unfolding fetch_slab
fetch_all vm reads w ti t [] st = (st, true)
fetch_all vm reads w ti t (s ∷ ss) st =
    and_fetch (fetch_slab vm reads w t (ti, s) st) (λ u. fetch_all vm reads w ti t ss u)

abbrev pub start_marking : List ℤ → RowStream → Marking
start_marking idx st = record { stream = st; need = []; missing = 0 }

-- The part of `gather` behind its early returns.
unfoldable pub gather_rows :
    Vm → SlabReads → Window → ℕ → Table → List ℤ → RowStream → RowStream × Bool
unfolding next_gen mark_rows evict_to_budget sort_ids fetch_all
gather_rows vm reads w ti t idx st =
    let m =
      mark_rows ti t idx
        (start_marking idx (next_gen (record st { rows = add64 st.rows (length idx) }))) in
    elim m.need [
      | [] ↦ (m.stream, true)
      | s ∷ ss ↦
          fetch_all vm reads w ti t (sort_ids (s ∷ ss)) (evict_to_budget w m.missing m.stream)
    ]

abbrev pub gather_at :
    Vm → SlabReads → Window → Option (ℕ × Table) → List ℤ → RowStream → RowStream × Bool
gather_at vm reads w none idx st = (st, true)
gather_at vm reads w (some (ti, t)) [] st = (record st { gathers = st.gathers + 1 }, true)
gather_at vm reads w (some (ti, t)) (z ∷ zs) st =
    let counted = record st { gathers = st.gathers + 1 } in
    if st.whole ti then (counted, true) else gather_rows vm reads w ti t (z ∷ zs) counted

unfoldable pub gather : Vm → SlabReads → Window → ℕ → List ℤ → RowStream → RowStream × Bool
unfolding gather_rows
gather vm reads w tensor idx st = gather_at vm reads w (find w tensor) idx st

-- One round of the loop of `materialize`.
unfoldable pub forget_slab : Window → Table → Key → RowStream → RowStream
forget_slab w t k st =
    let erased =
      if st.spot k.0 k.1
      then record st { lru = remove_key k st.lru; spot = write st.spot k false }
      else st in
    if erased.resident k.0 k.1
    then record erased {
      os = vm_evict (t.base + k.1 * slab_bytes) (slab_commit w t k.1) ∷ erased.os;
      resident_bytes = sub64 erased.resident_bytes (slab_commit w t k.1);
      resident = write erased.resident k false;
    }
    else erased

-- The slabs from `s` on, `n` of them.
unfoldable pub forget_slabs : Window → ℕ → Table → ℕ → ℕ → RowStream → RowStream
unfolding forget_slab
forget_slabs w ti t s zero st = st
forget_slabs w ti t s (suc n) st = forget_slabs w ti t (s + 1) n (forget_slab w t (ti, s) st)

abbrev pub materialize_at : Window → Option (ℕ × Table) → RowStream → RowStream
materialize_at w none st = st
materialize_at w (some (ti, t)) st =
    let bound = record st {
      tensor_data = λ i. if ti == i then t.orig_data else st.tensor_data i;
    } in
    let gone = forget_slabs w ti t 0 (n_slabs t) bound in
    if st.whole ti then st else record gone {
      whole = λ i. if ti == i then true else gone.whole i;
      materialized = gone.materialized + 1;
    }

unfoldable pub materialize : Window → ℕ → RowStream → RowStream
unfolding forget_slabs
materialize w tensor st = materialize_at w (find w tensor) st
