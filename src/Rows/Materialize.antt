-- ===== src/Rows/Materialize.antt =====
-- Giving a table back to its mapping.
use meitte.Base.{
  ℕ, zero, suc, ◌+◌, ◌≤◌, ◌<◌, ◌≡◌, ◌≢◌, refl, sym, ap, ◌∙◌, false, ◌==◌, some, arith, Bool-cases,
  inl, inr, if◌then◌else◌, get_elem?,
}
use meitte.Rows.Slabs.{Table, Window, RowStream, drop_slab, n_slabs}
use meitte.Rows.Stream.{find, serves, forget_slab, forget_slabs, materialize}
use meitte.Rows.Invariant.{Keeps, drop_slab-Keeps}
use meitte.Rows.Gather.{find-at}

-- What the loop leaves of the slabs from `s` on, `n` of them, and of the others.
pub record Forgot (w : Window) (ti s n : ℕ) (st u : RowStream) : Type 0 where
  pub keeps : Keeps w u
  pub gone : (r : ℕ) → s ≤ r → r < s + n → u.resident ti r ≡ false
  pub down : (r : ℕ) → st.resident ti r ≡ false → u.resident ti r ≡ false
  pub others : (j r : ℕ) → ti ≢ j → u.resident j r ≡ st.resident j r
  pub same_whole : u.whole ≡ st.whole
  pub same_data : u.tensor_data ≡ st.tensor_data

module _ (w : Window) (ti : ℕ) (t : Table) (at : get_elem? w.tables ti ≡ some t) where
  forget_slab-Forgot :
      (s : ℕ) (st : RowStream) → Keeps w st → Forgot w ti s 1 st (forget_slab w t (ti, s) st)
  unfolding forget_slab drop_slab
  forget_slab-Forgot s st v = elim (Bool-cases (st.resident ti s)) [
    | inl here ↦
        let e = sym (v.flags (ti, s)) ∙ here in
        let d = drop_slab-Keeps w t (ti, s) at st v e in
        rw (v.spots (ti, s) ∙ e, here)
          record {
            keeps = record {
              distinct = d.distinct;
              spots = d.spots;
              flags = d.flags;
              counted = d.counted;
              stamped = d.stamped;
              gen_lt = d.gen_lt;
            };
            gone = λ r lo hi. ground arith;
            down = λ r h. ground arith;
            others = λ j r ne. ground arith;
            same_whole = refl;
            same_data = refl;
          }
    | inr absent ↦
        rw (v.spots (ti, s) ∙ sym (v.flags (ti, s)) ∙ absent, absent)
          record {
            keeps = v;
            gone = λ r lo hi. ground arith;
            down = λ r h. h;
            others = λ j r ne. refl;
            same_whole = refl;
            same_data = refl;
          }
  ]

  forget_slabs-Forgot :
      (n s : ℕ) (st : RowStream) → Keeps w st → Forgot w ti s n st (forget_slabs w ti t s n st)
  unfolding forget_slabs
  forget_slabs-Forgot zero s st v = record {
    keeps = v;
    gone = λ r lo hi. absurd (omega arith);
    down = λ r h. h;
    others = λ j r ne. refl;
    same_whole = refl;
    same_data = refl;
  }
  forget_slabs-Forgot (suc n) s st v =
      let one = forget_slab-Forgot s st v in
      let rest = forget_slabs-Forgot n (s + 1) (forget_slab w t (ti, s) st) one.keeps in
      record {
        keeps = rest.keeps;
        gone = λ r lo hi. elim (Bool-cases (s == r)) [
          | inl same ↦ rest.down r (one.gone r lo (ground arith))
          | inr apart ↦ rest.gone r (ground arith) (omega arith)
        ];
        down = λ r h. rest.down r (one.down r h);
        others = λ j r ne. rest.others j r ne ∙ one.others j r ne;
        same_whole = rest.same_whole ∙ one.same_whole;
        same_data = rest.same_data ∙ one.same_data;
      }

-- A table that is still served is no longer after it is materialized: its tensor points at its
-- original mapping and no slab of it is resident, the slabs of the other tables are as before, and
-- the invariant of the window holds.
pub materialize-served :
    (w : Window) (tensor ti : ℕ) (t : Table) (st : RowStream)
    → Keeps w st
    → find w tensor ≡ some (ti, t)
    → st.whole ti ≡ false
    → let u = materialize w tensor st in
      Keeps w u
      × (serves w u tensor ≡ false)
      × (u.tensor_data ti ≡ t.orig_data)
      × ((s : ℕ) → s < n_slabs t → u.resident ti s ≡ false)
      × ((j s : ℕ) → ti ≢ j → u.resident j s ≡ st.resident j s)
unfolding materialize serves
materialize-served w tensor ti t st v found part =
    let bound : RowStream = record st {
      tensor_data = λ i. if ti == i then t.orig_data else st.tensor_data i;
    } in
    let vb : Keeps w bound = record {
      distinct = v.distinct;
      spots = v.spots;
      flags = v.flags;
      counted = v.counted;
      stamped = v.stamped;
      gen_lt = v.gen_lt;
    } in
    let f = forget_slabs-Forgot w ti t (find-at w tensor ti t found) (n_slabs t) 0 bound vb in
    rw (found, part)
      (
        record {
          distinct = f.keeps.distinct;
          spots = f.keeps.spots;
          flags = f.keeps.flags;
          counted = f.keeps.counted;
          stamped = f.keeps.stamped;
          gen_lt = f.keeps.gen_lt;
        },
        ground arith,
        ap (λ g. g ti) f.same_data ∙ ground arith,
        (λ s h. f.gone s (omega arith) (omega arith)),
        λ j s ne. f.others j s ne,
      )
