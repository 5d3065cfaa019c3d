-- ===== src/Rows/Gather.antt =====
-- A gather that succeeds has the pages of every row it names.
use meitte.Base.{
  ℕ, suc, ◌+◌, ◌-◌, ◌%◌, ◌^◌, ◌≤◌, ◌≡◌, refl, ap, ◌∙◌, Bool, true, false, List, [], ◌∷◌, ◌==◌, some,
  arith, Bool-cases, Option-cases, inl, inr, elem, ℤ, if◌then◌else◌, Routed, Routed-mono, get_elem?,
  add64, length, sort_ids, sort_ids-elem,
}
use mathlib.Core.Option.{some-injective}
use meitte.Cache.{Vm}
use meitte.Rows.Slabs.{Table, Window, Key, RowStream, SlabReads, fetch_slab}
use meitte.Rows.Stream.{
  find_from, find, next_gen, Marking, mark_rows, start_marking, and_fetch, fetch_all, gather_rows,
  gather_at, gather, evict_to_budget,
}
use meitte.Rows.Invariant.{Keeps, fetch_slab-Keeps}
use meitte.Rows.Evict.{evict_to_budget-Spares}
use meitte.Rows.Mark.{RowIn, mark_rows-Marks}

find_from-at :
    (i tensor j : ℕ) (t : Table) (ts : List Table)
    → find_from i tensor ts ≡ some (j, t)
    → (i ≤ j) × (get_elem? ts (j - i) ≡ some t)
find_from-at i tensor j t [] h = absurd (ground arith)
find_from-at i tensor j t (u ∷ ts) h =
    pick (u.tensor == tensor) h (find_from-at (i + 1) tensor j t ts)
  where
    first_at : ◌≡◌ {A = ℕ × Table} (i, u) (j, t) → (i ≤ j) × (get_elem? (u ∷ ts) (j - i) ≡ some t)
    first_at e =
        let same : i ≡ j = ap (λ (q : ℕ × Table). q.0) e in
        let zero_off : j - i ≡ 0 = omega arith in
        (omega arith, rw zero_off (ap (λ (q : ℕ × Table). some q.1) e))

    pick :
        (b : Bool)
        → (if b then some (i, u) else find_from (i + 1) tensor ts) ≡ some (j, t)
        → (find_from (i + 1) tensor ts ≡ some (j, t)
            → (i + 1 ≤ j) × (get_elem? ts (j - (i + 1)) ≡ some t))
        → (i ≤ j) × (get_elem? (u ∷ ts) (j - i) ≡ some t)
    pick true k later = first_at (some-injective (i, u) (j, t) k)
    pick false k later =
        let (le, e) = later k in
        let off : j - i ≡ suc (j - (i + 1)) = omega arith in (omega arith, rw off e)

pub find-at :
    (w : Window) (tensor ti : ℕ) (t : Table)
    → find w tensor ≡ some (ti, t)
    → get_elem? w.tables ti ≡ some t
find-at w tensor ti t h =
    let (le, e) = find_from-at 0 tensor ti t w.tables h in ap (get_elem? w.tables) (omega arith) ∙ e

next_gen-Keeps :
    (w : Window) (st : RowStream)
    → Keeps w st
    → Keeps w (next_gen st)
      × ((k : Key) → ((next_gen st).stamp k.0 k.1 == (next_gen st).gen) ≡ false)
unfolding next_gen
next_gen-Keeps w st v = elim (Bool-cases ((st.gen + 1) % 2 ^ 32 == 0)) [
  | inl wraps ↦ rw wraps (
    record {
      distinct = v.distinct;
      spots = v.spots;
      flags = v.flags;
      counted = v.counted;
      stamped = λ k. omega arith;
      gen_lt = omega arith;
    },
    λ k. refl,
  )
  | inr counts ↦
      let g : (st.gen + 1) % 2 ^ 32 ≡ st.gen + 1 = ground (arith, v.gen_lt) in
      rw counts (
        record {
          distinct = v.distinct;
          spots = v.spots;
          flags = v.flags;
          counted = v.counted;
          stamped = λ k. omega (arith, g, v.stamped k);
          gen_lt = omega (arith, v.gen_lt);
        },
        λ k. ground (arith, g, v.stamped k),
      )
]

module _ (vm : Vm) (reads : SlabReads) (w : Window) (ti : ℕ) (t : Table)
    (at : get_elem? w.tables ti ≡ some t) where
  fetch_all-Keeps :
      (ss : List ℕ) (st : RowStream)
      → Keeps w st
      → let r = fetch_all vm reads w ti t ss st in
        Keeps w r.0
        × (r.1 ≡ true → (s : ℕ) → elem s ss ≡ true → r.0.resident ti s ≡ true)
        × (r.1 ≡ true → (j : Key) → st.resident j.0 j.1 ≡ true → r.0.resident j.0 j.1 ≡ true)
  unfolding fetch_all
  fetch_all-Keeps [] st v = (v, (λ ok s h. absurd (ground arith)), λ ok j h. h)
  fetch_all-Keeps (s ∷ ss) st v =
      next (fetch_slab vm reads w t (ti, s) st) (fetch_slab-Keeps w t (ti, s) at vm reads st v)
        (λ u k. fetch_all-Keeps ss u k)
    where
      next :
          (f : RowStream × Bool)
          → (Keeps w f.0
              × (f.1 ≡ true → f.0.resident ti s ≡ true)
              × ((j : Key) → st.resident j.0 j.1 ≡ true → f.0.resident j.0 j.1 ≡ true))
          → ((u : RowStream)
              → Keeps w u
              → let r = fetch_all vm reads w ti t ss u in
                Keeps w r.0
                × (r.1 ≡ true → (s : ℕ) → elem s ss ≡ true → r.0.resident ti s ≡ true)
                × (r.1 ≡ true
                    → (j : Key) → u.resident j.0 j.1 ≡ true
                    → r.0.resident j.0 j.1 ≡ true))
          → let r = and_fetch f (λ u. fetch_all vm reads w ti t ss u) in
            Keeps w r.0
            × (r.1 ≡ true → (x : ℕ) → elem x (s ∷ ss) ≡ true → r.0.resident ti x ≡ true)
            × (r.1 ≡ true → (j : Key) → st.resident j.0 j.1 ≡ true → r.0.resident j.0 j.1 ≡ true)
      next (u, false) (k, loaded, grows) rest = (k, (λ ok. cc), λ ok. cc)
      next (u, true) (k, loaded, grows) rest =
          let (kr, all, keep) = rest u k in
          (
            kr,
            (λ ok x h. elim (Bool-cases (s == x)) [
              | inl same ↦ ground (arith, keep ok (ti, s) (loaded refl))
              | inr apart ↦ all ok x (ground arith)
            ]),
            λ ok j h. keep ok j (grows j h),
          )

  gather_rows-Served :
      (idx : List ℤ) (st : RowStream)
      → Keeps w st
      → let r = gather_rows vm reads w ti t idx st in
        Keeps w r.0 × (r.1 ≡ true → Routed t.n_rows (RowIn t (λ s. r.0.resident ti s ≡ true)) idx)
  unfolding gather_rows
  gather_rows-Served idx st v =
      let counted : RowStream = record st { rows = add64 st.rows (length idx) } in
      let vc : Keeps w counted = record {
        distinct = v.distinct;
        spots = v.spots;
        flags = v.flags;
        counted = v.counted;
        stamped = v.stamped;
        gen_lt = v.gen_lt;
      } in
      let (vn, fresh) = next_gen-Keeps w counted vc in
      let m = mark_rows ti t idx (start_marking idx (next_gen counted)) in
      let (marks, covers) =
        mark_rows-Marks w ti t idx (start_marking idx (next_gen counted)) vn (λ s. fresh (ti, s)) in
      finish m.need m marks.keeps covers
    where
      finish :
          (need : List ℕ) (m : Marking)
          → Keeps w m.stream
          → Routed t.n_rows (RowIn t (λ s. elem s need ≡ true)) idx
          → let r = elim need as (λ _. RowStream × Bool) [
            | [] ↦ (m.stream, true)
            | s ∷ ss ↦
                fetch_all vm reads w ti t (sort_ids (s ∷ ss)) (evict_to_budget w m.missing m.stream)
          ] in
            Keeps w r.0
            × (r.1 ≡ true → Routed t.n_rows (RowIn t (λ s. r.0.resident ti s ≡ true)) idx)
      finish [] m k covers = (
        k,
        λ ok.
            Routed-mono t.n_rows _ _ idx (λ r f x lo hi. absurd (let e = f x lo hi in ground arith))
              covers,
      )
      finish (s ∷ ss) m k covers =
          let spares = evict_to_budget-Spares w m.missing m.stream k in
          let (kr, all, _) =
            fetch_all-Keeps (sort_ids (s ∷ ss)) (evict_to_budget w m.missing m.stream)
              spares.keeps in
          (
            kr,
            λ ok.
                Routed-mono t.n_rows _ _ idx
                  (λ r f x lo hi. all ok _ (sort_ids-elem _ (s ∷ ss) ∙ f x lo hi)) covers,
          )

counted_Keeps :
    {w : Window} (st : RowStream) → Keeps w st → Keeps w (record st { gathers = st.gathers + 1 })
counted_Keeps st v = record {
  distinct = v.distinct;
  spots = v.spots;
  flags = v.flags;
  counted = v.counted;
  stamped = v.stamped;
  gen_lt = v.gen_lt;
}

module _ (vm : Vm) (reads : SlabReads) (w : Window) where
  gather_at-Served :
      (ti : ℕ) (t : Table) (idx : List ℤ) (st : RowStream)
      → get_elem? w.tables ti ≡ some t
      → Keeps w st
      → let r = gather_at vm reads w (some (ti, t)) idx st in
        Keeps w r.0
        × (st.whole ti ≡ false
            → r.1 ≡ true
            → Routed t.n_rows (RowIn t (λ s. r.0.resident ti s ≡ true)) idx)
  gather_at-Served ti t [] st at v = (counted_Keeps st v, λ part ok. tt)
  gather_at-Served ti t (z ∷ zs) st at v =
      let (k, served) =
        gather_rows-Served vm reads w ti t at (z ∷ zs) (record st { gathers = st.gathers + 1 })
          (counted_Keeps st v) in
      choose (st.whole ti) _ k served
    where
      choose :
          (b : Bool) (r : RowStream × Bool)
          → Keeps w r.0
          → (r.1 ≡ true → Routed t.n_rows (RowIn t (λ s. r.0.resident ti s ≡ true)) (z ∷ zs))
          → let q = if b then (record st { gathers = st.gathers + 1 }, true) else r in
            Keeps w q.0
            × (b ≡ false
                → q.1 ≡ true
                → Routed t.n_rows (RowIn t (λ s. q.0.resident ti s ≡ true)) (z ∷ zs))
      choose true r k served = (counted_Keeps st v, λ part. cc)
      choose false r k served = (k, λ part ok. served ok)

  -- A gather keeps the invariant of the slab window for every tensor and every indices, also where
  -- a commit or a read fails: the list orders exactly the resident slabs, each once, the resident
  -- bytes are those of their pages modulo 2^64, and no stamp is newer than the generation, which
  -- stays below 2^32.
  pub gather-Keeps :
      (tensor : ℕ) (idx : List ℤ) (st : RowStream)
      → Keeps w st
      → Keeps w (gather vm reads w tensor idx st).0
  unfolding gather
  gather-Keeps tensor idx st v = elim (Option-cases (find w tensor)) [
    | inl unknown ↦ rw unknown v
    | inr ((ti, t), found) ↦
        rw found (gather_at-Served ti t idx st (find-at w tensor ti t found) v).0
  ]

  -- After a gather that succeeds on a table still served, from a state that keeps the invariant,
  -- every slab with a byte of a row that the gather names is resident; indices out of range name no
  -- row.
  pub gather-Served :
      (tensor : ℕ) (idx : List ℤ) (st : RowStream) (ti : ℕ) (t : Table)
      → Keeps w st
      → find w tensor ≡ some (ti, t)
      → st.whole ti ≡ false
      → (gather vm reads w tensor idx st).1 ≡ true
      → Routed t.n_rows
          (RowIn t (λ s. (gather vm reads w tensor idx st).0.resident ti s ≡ true))
          idx
  unfolding gather
  gather-Served tensor idx st ti t v found part =
      rw found ((gather_at-Served ti t idx st (find-at w tensor ti t found) v).1 part)
