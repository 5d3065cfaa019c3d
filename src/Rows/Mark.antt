-- ===== src/Rows/Mark.antt =====
-- What a gather marks: every slab that one of its rows touches, and each once.
use meitte.Base.{
  ℕ, zero, suc, ◌+◌, ◌*◌, ◌/◌, ◌≤◌, ◌<◌, ◌≡◌, refl, sym, ◌∙◌, true, ◌&&◌, List, [], ◌∷◌, ◌==◌, ltb,
  Option, none, some, arith, Bool-cases, inl, inr, elem, elem-append, ℤ, index_below, Routed,
  AtSome, AtSome-mono,
}
use meitte.Rows.Slabs.{Table, Window, slab_bytes, n_slabs}
use meitte.Rows.Stream.{Marking, mark_slab, mark_slabs, mark_row, mark_rows, row_end}
use meitte.Rows.Invariant.{Keeps}

-- The stamps of the table tell which slabs the gather needs.
abbrev pub Marked : ℕ → Marking → Type 0
Marked ti m = (s : ℕ) → (m.stream.stamp ti s == m.stream.gen) ≡ elem s m.need

pub record Marks (w : Window) (ti : ℕ) (m n : Marking) : Type 0 where
  pub keeps : Keeps w n.stream
  pub marked : Marked ti n
  pub grows : (s : ℕ) → elem s m.need ≡ true → elem s n.need ≡ true
  pub same_resident : n.stream.resident ≡ m.stream.resident

-- Every slab with a byte of the row, as far as the table goes.
abbrev pub RowIn : Table → (ℕ → Type 0) → ℕ → Type 0
RowIn t P r = (x : ℕ) → r * t.row_bytes ≤ x → x < row_end t r → P (x / slab_bytes)

module _ (w : Window) (ti : ℕ) where
  same_Marks : (m : Marking) → Keeps w m.stream → Marked ti m → Marks w ti m m
  same_Marks m v k = record { keeps = v; marked = k; grows = λ s h. h; same_resident = refl }

  trans-Marks : (a b c : Marking) → Marks w ti a b → Marks w ti b c → Marks w ti a c
  trans-Marks a b c u v = record {
    keeps = v.keeps;
    marked = v.marked;
    grows = λ s h. v.grows s (u.grows s h);
    same_resident = v.same_resident ∙ u.same_resident;
  }

  mark_slab-Marks :
      (s : ℕ) (m : Marking)
      → Keeps w m.stream
      → Marked ti m
      → Marks w ti m (mark_slab ti s m) × (elem s (mark_slab ti s m).need ≡ true)
  unfolding mark_slab
  mark_slab-Marks s m v k = elim (Bool-cases (m.stream.stamp ti s == m.stream.gen)) [
    | inl old ↦ rw old (same_Marks m v k, sym (k s) ∙ old)
    | inr new ↦ rw new (
      record {
        keeps = record {
          distinct = v.distinct;
          spots = v.spots;
          flags = v.flags;
          counted = v.counted;
          stamped = λ j. ground (arith, v.stamped j);
          gen_lt = v.gen_lt;
        };
        marked = λ r. ground (arith, k r, elem-append r m.need (s ∷ []));
        grows = λ r h. ground (arith, elem-append r m.need (s ∷ []));
        same_resident = refl;
      },
      ground (arith, elem-append s m.need (s ∷ [])),
    )
  ]

  -- The loop marks each slab from `s` on that begins before `b`.
  mark_slabs-Marks :
      (fuel : ℕ) (t : Table) (b s : ℕ) (m : Marking)
      → Keeps w m.stream
      → Marked ti m
      → let n = mark_slabs fuel ti t b s m in
        Marks w ti m n
        × ((r : ℕ)
            → s ≤ r
            → r < s + fuel
            → r * slab_bytes < b
            → r < n_slabs t
            → elem r n.need ≡ true)
  unfolding mark_slabs
  mark_slabs-Marks zero t b s m v k = (same_Marks m v k, λ r lo hi _ _. absurd (omega arith))
  mark_slabs-Marks (suc fuel) t b s m v k =
      let n = mark_slab ti s m in
      let (one, here) = mark_slab-Marks s m v k in
      let (rest, more) = mark_slabs-Marks fuel t b (s + 1) n one.keeps one.marked in
      elim (Bool-cases (ltb (s * slab_bytes) b && ltb s (n_slabs t))) [
        | inl go ↦ rw go (
          trans-Marks m n _ one rest,
          λ r lo hi h1 h2. elim (Bool-cases (s == r)) [
            | inl same ↦ ground (arith, rest.grows s here)
            | inr apart ↦ more r (ground arith) (omega arith) h1 h2
          ],
        )
        | inr stop ↦ rw stop (same_Marks m v k, λ r lo hi h1 h2. absurd (ground arith))
      ]

  slab_of : (t : Table) (x : ℕ) → x < t.size → x / slab_bytes < n_slabs t
  slab_of t x h = omega arith

  mark_row-Marks :
      (t : Table) (o : Option ℕ) (m : Marking)
      → Keeps w m.stream
      → Marked ti m
      → let n = mark_row ti t o m in Marks w ti m n × AtSome (RowIn t (λ s. elem s n.need ≡ true)) o
  mark_row-Marks t none m v k = (same_Marks m v k, tt)
  mark_row-Marks t (some r) m v k =
      let (all, covers) =
        mark_slabs-Marks (n_slabs t) t (row_end t r) (r * t.row_bytes / slab_bytes) m v k in
      (
        all,
        λ x lo hi.
            let inside : x / slab_bytes < n_slabs t = slab_of t x (ground arith) in
            covers (x / slab_bytes) (omega arith) (omega arith) (omega arith) inside,
      )

  pub mark_rows-Marks :
      (t : Table) (zs : List ℤ) (m : Marking)
      → Keeps w m.stream
      → Marked ti m
      → let n = mark_rows ti t zs m in
        Marks w ti m n × Routed t.n_rows (RowIn t (λ s. elem s n.need ≡ true)) zs
  unfolding mark_rows
  mark_rows-Marks t [] m v k = (same_Marks m v k, tt)
  mark_rows-Marks t (z ∷ zs) m v k =
      let n = mark_row ti t (index_below t.n_rows z) m in
      let (one, here) = mark_row-Marks t (index_below t.n_rows z) m v k in
      let (rest, more) = mark_rows-Marks t zs n one.keeps one.marked in
      (
        trans-Marks m n _ one rest,
        (
          AtSome-mono _ _ (index_below t.n_rows z)
              (λ r f x lo hi. rest.grows (x / slab_bytes) (f x lo hi)) here,
          more,
        ),
      )
