-- ===== src/Rows/Slabs.antt =====
-- The state of the window, the geometry of slabs, and what reads, drops and materializes them.
use meitte.Base.{
  ℕ, ◌+◌, ◌-◌, ◌*◌, ◌/◌, Bool, true, false, ◌&&◌, List, [], ◌∷◌, ◌++◌, Option, none, some,
  if◌then◌else◌, ◌==◌, min, add64, sub64,
}
use meitte.Cache.{OsCall, vm_commit, vm_evict, Vm}

abbrev pub slab_bytes : ℕ
slab_bytes = 16384

-- A table as `init` takes it over; `tensor` is the tensor's identity.
pub record Table : Type 0 where
  pub tensor : ℕ
  pub size : ℕ
  pub row_bytes : ℕ
  pub n_rows : ℕ
  pub file_idx : ℕ
  pub file_off : ℕ
  pub base : ℕ
  pub orig_data : ℕ

-- What `init` fixes.
pub record Window : Type 0 where
  pub tables : List Table
  pub page : ℕ
  pub budget_bytes : ℕ

abbrev pub Key : Type 0
Key = ℕ × ℕ

abbrev pub same_key : Key → Key → Bool
same_key (t, s) (u, r) = (t == u) && (s == r)

abbrev pub remove_key : Key → List Key → List Key
remove_key k [] = []
remove_key k (q ∷ qs) = if same_key q k then qs else q ∷ remove_key k qs

-- A write to an array of arrays.
abbrev pub write {ℓ} : {A : Type ℓ} → (ℕ → ℕ → A) → Key → A → ℕ → ℕ → A
write f k v t s = if same_key k (t, s) then v else f t s

-- `spot` tells whether the slab's iterator is other than `end()`; the iterator then is at the slab.
pub record RowStream : Type 0 where
  pub resident : ℕ → ℕ → Bool
  pub stamp : ℕ → ℕ → ℕ
  pub spot : ℕ → ℕ → Bool
  pub lru : List Key
  pub whole : ℕ → Bool
  pub tensor_data : ℕ → ℕ
  pub gen : ℕ
  pub resident_bytes : ℕ
  pub gathers : ℕ
  pub rows : ℕ
  pub slab_reads : ℕ
  pub bytes_read : ℕ
  pub evictions : ℕ
  pub materialized : ℕ
  pub io_errors : ℕ
  pub os : List OsCall

-- A read of the slab into the reservation: the bytes it got, or `none` for a negative answer.
abbrev pub SlabReads : Type 0
SlabReads = List OsCall → Key → Option ℕ

abbrev pub round_up : ℕ → ℕ → ℕ
round_up v a = (v + a - 1) / a * a

abbrev pub span : Window → Table → ℕ
span w t = round_up t.size w.page

abbrev pub n_slabs : Table → ℕ
n_slabs t = round_up t.size slab_bytes / slab_bytes

-- `std::min(slab, size - off)`.
unfoldable pub slab_len : ℕ → ℕ → ℕ
slab_len size s = min slab_bytes (sub64 size (s * slab_bytes))

-- The bytes that a slab's pages take.
unfoldable pub slab_commit : Window → Table → ℕ → ℕ
unfolding slab_len
slab_commit w t s = min (round_up (slab_len t.size s) w.page) (sub64 (span w t) (s * slab_bytes))

unfoldable pub touch : Key → RowStream → RowStream
touch k st =
    let lru = if st.spot k.0 k.1 then remove_key k st.lru else st.lru in
    record st { lru = lru ++ k ∷ []; spot = write st.spot k true }

unfoldable pub count_error : RowStream → RowStream
count_error st = record st { io_errors = st.io_errors + 1 }

-- What a read of the slab leaves.
unfoldable pub land : Window → Table → Key → Option ℕ → RowStream → RowStream × Bool
unfolding touch count_error
land w t k none st = (count_error st, false)
land w t k (some got) st =
    let u = touch k (record st { resident = write st.resident k true }) in
    (
      record u {
        resident_bytes = add64 u.resident_bytes (slab_commit w t k.1);
        slab_reads = u.slab_reads + 1;
        bytes_read = add64 u.bytes_read got;
      },
      true,
    )

-- `fetch_slab(t, s)`, where `t` is the table with index `k.0`.
unfoldable pub fetch_slab : Vm → SlabReads → Window → Table → Key → RowStream → RowStream × Bool
unfolding land touch count_error slab_commit
fetch_slab vm reads w t k st =
    if st.resident k.0 k.1
    then (touch k st, true)
    else let addr = t.base + k.1 * slab_bytes in
      let commit = slab_commit w t k.1 in
      let asked = record st { os = vm_commit addr commit ∷ st.os } in
      if vm st.os addr commit
      then land w t k (reads asked.os k) asked
      else (count_error asked, false)

-- The body of the eviction loop for a slab that may go.
unfoldable pub drop_slab : Window → Table → Key → RowStream → RowStream
unfolding slab_commit
drop_slab w t k st =
    let commit = slab_commit w t k.1 in
    record st {
      os = vm_evict (t.base + k.1 * slab_bytes) commit ∷ st.os;
      resident = write st.resident k false;
      spot = write st.spot k false;
      resident_bytes = sub64 st.resident_bytes commit;
      evictions = st.evictions + 1;
      lru = remove_key k st.lru;
    }
