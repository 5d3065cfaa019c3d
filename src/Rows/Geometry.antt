-- ===== src/Rows/Geometry.antt =====
-- Where a slab's pages lie.
use meitte.Base.{ℕ, ◌+◌, ◌-◌, ◌*◌, ◌≤◌, ◌<◌, ◌≡◌, arith, min, sub64, sub64-eq, word}
use meitte.Rows.Slabs.{Table, Window, slab_bytes, round_up, span, n_slabs, slab_len, slab_commit}

round_up-ge : (v a : ℕ) → 0 < a → v ≤ round_up v a
round_up-ge v a h = omega arith

slab_start : (t : Table) (s : ℕ) → s < n_slabs t → s * slab_bytes < t.size
slab_start t s h = omega arith

-- The pages committed for a slab of a table hold all of the slab's bytes of the table and end
-- inside the table's reservation, for a page size above 0 and a reservation below 2^64 bytes.
pub slab_commit-covers :
    (w : Window) (t : Table) (s : ℕ)
    → 0 < w.page
    → span w t < word
    → s < n_slabs t
    → (min t.size (s * slab_bytes + slab_bytes) ≤ s * slab_bytes + slab_commit w t s)
      × (s * slab_bytes + slab_commit w t s ≤ span w t)
unfolding slab_commit slab_len
slab_commit-covers w t s page small h =
    let start = slab_start t s h in
    let room = round_up-ge t.size w.page page in
    let len : sub64 t.size (s * slab_bytes) ≡ t.size - s * slab_bytes =
      sub64-eq _ _ (omega arith) (omega arith) in
    let rest : sub64 (span w t) (s * slab_bytes) ≡ span w t - s * slab_bytes =
      sub64-eq _ _ small (omega arith) in
    let up = round_up-ge (min slab_bytes (t.size - s * slab_bytes)) w.page page in
    rw (len, rest) (omega arith, omega arith)
