-- ===== src/Cache/Residency.antt =====
-- What the routing policies may ask and move between loads: the residency query and retention.
use meitte.Base.{
  none, some, ltb, map, ap, Bool, false, ℕ, ◌≡◌, refl, inl, inr, true, List, [], ◌∷◌, arith, elem,
  remove, Bool-cases, Option-cases, sym, ◌∙◌, ℤ, index_below, elem-remove_ne,
}
use meitte.Cache.Defs.{Shape, Cache, entry_id}
use meitte.Cache.Entry.{
  residency, query_residency, cached_layer, retain, retain_ids, retain_id, promote_entry,
}
use meitte.Cache.Invariant.{Keeps, Fits}
use meitte.Cache.Touch.{promote_entry-Keeps}

-- The resident entries after a retention: the same ones, and the counters that a lookup moves stay.
pub record Retained (s : Shape) (c d : Cache) (xs ys : List ℕ) : Type 0 where
  pub keeps : Keeps s d ys
  pub same_entries : (i : ℕ) → elem i ys ≡ elem i xs
  pub same_hits : d.chits ≡ c.chits
  pub same_lookups : d.clookups ≡ c.clookups
  pub same_bytes : d.cresident ≡ c.cresident
  pub same_stamps : d.cstamp ≡ c.cstamp
  pub same_gen : d.cgen ≡ c.cgen
  pub same_max : d.cache_max ≡ c.cache_max

module _ (s : Shape) (fits : Fits s) where
  retain_id-Retained :
      (c : Cache) (xs : List ℕ) (id : ℕ)
      → Keeps s c xs
      → (ys : List ℕ) × Retained s c (retain_id id c) xs ys
  unfolding retain_id promote_entry
  retain_id-Retained c xs id k = elim (Bool-cases (c.cvalid id)) [
    | inr absent ↦ rw absent (
      xs,
      record {
        keeps = k;
        same_entries = λ i. refl;
        same_hits = refl;
        same_lookups = refl;
        same_bytes = refl;
        same_stamps = refl;
        same_gen = refl;
        same_max = refl;
      },
    )
    | inl there ↦
        let m : elem id xs ≡ true = sym (k.valid id) ∙ there in
        rw there (
          id ∷ remove id xs,
          record {
            keeps = promote_entry-Keeps s fits c xs k id m;
            same_entries = λ i. ground (arith, elem-remove_ne id i xs);
            same_hits = refl;
            same_lookups = refl;
            same_bytes = refl;
            same_stamps = refl;
            same_gen = refl;
            same_max = refl;
          },
        )
  ]

  trans-Retained :
      (c d e : Cache) (xs ys zs : List ℕ)
      → Retained s c d xs ys
      → Retained s d e ys zs
      → Retained s c e xs zs
  trans-Retained c d e xs ys zs v w = record {
    keeps = w.keeps;
    same_entries = λ i. w.same_entries i ∙ v.same_entries i;
    same_hits = w.same_hits ∙ v.same_hits;
    same_lookups = w.same_lookups ∙ v.same_lookups;
    same_bytes = w.same_bytes ∙ v.same_bytes;
    same_stamps = w.same_stamps ∙ v.same_stamps;
    same_gen = w.same_gen ∙ v.same_gen;
    same_max = w.same_max ∙ v.same_max;
  }

  pub unmoved : (c : Cache) (xs : List ℕ) → Keeps s c xs → (ys : List ℕ) × Retained s c c xs ys
  unmoved c xs k = (
    xs,
    record {
      keeps = k;
      same_entries = λ i. refl;
      same_hits = refl;
      same_lookups = refl;
      same_bytes = refl;
      same_stamps = refl;
      same_gen = refl;
      same_max = refl;
    },
  )

  pub retain_ids-Retained :
      (il : ℕ) (zs : List ℤ) (c : Cache) (xs : List ℕ)
      → Keeps s c xs
      → (ys : List ℕ) × Retained s c (retain_ids s il zs c) xs ys
  unfolding retain_ids
  retain_ids-Retained il [] c xs k = unmoved c xs k
  retain_ids-Retained il (z ∷ zs) c xs k = elim (Option-cases (index_below s.n_expert z)) [
    | inl out ↦ rw (out, retain_ids) (retain_ids-Retained il zs c xs k)
    | inr (e, found) ↦
        let (ys, v) = retain_id-Retained c xs (entry_id s il e) k in
        let (ws, w) = retain_ids-Retained il zs (retain_id (entry_id s il e) c) ys v.keeps in
        rw (found, retain_ids) (ws, trans-Retained c _ _ xs ys ws v w)
  ]

  -- Retention only reorders, from a state that keeps the invariant where all experts have fewer
  -- than 2^64 bytes: the same entries are resident, the invariant holds, and hits, lookups and
  -- resident bytes are as before, for any layer number and ids.
  pub retain-Retained :
      (il : ℤ) (ids : List ℤ) (c : Cache) (xs : List ℕ)
      → Keeps s c xs
      → (ys : List ℕ) × Retained s c (retain s il ids c) xs ys
  unfolding retain
  retain-Retained il ids c xs k = elim (Option-cases (cached_layer s il c)) [
    | inl off ↦ rw (off, retain) (unmoved c xs k)
    | inr (l, on) ↦ rw (on, retain) (retain_ids-Retained l ids c xs k)
  ]

-- Whether the list orders the entry that an id names.
abbrev pub listed : Shape → ℕ → List ℕ → ℤ → Bool
listed s l xs z = elim (index_below s.n_expert z) [
  | none ↦ false
  | some e ↦ elem (entry_id s l e) xs
]

residency-listed :
    (s : Shape) (c : Cache) (xs : List ℕ) (l : ℕ) (z : ℤ)
    → Keeps s c xs
    → ltb 0 (residency s c l z) ≡ listed s l xs z
unfolding residency
residency-listed s c xs l z k = elim (Option-cases (index_below s.n_expert z)) [
  | inl out ↦ rw (out, residency, listed) refl
  | inr (e, found) ↦ rw (found, residency, listed) (ground (arith, k.valid (entry_id s l e)))
]

-- From a state that keeps the invariant, the residency query on a bound layer with the cache on
-- answers above 0 exactly for the ids whose entries the list orders, id by id; an id out of range
-- is absent.
pub query_residency-listed :
    (s : Shape) (c : Cache) (xs : List ℕ) (il : ℤ) (l : ℕ) (ids : List ℤ)
    → Keeps s c xs
    → cached_layer s il c ≡ some l
    → map (λ n. ltb 0 n) (query_residency s c il ids) ≡ map (listed s l xs) ids
unfolding query_residency
query_residency-listed s c xs il l ids k cached = rw (cached, query_residency, map) (answers ids)
  where
    answers : (zs : List ℤ) → map (λ n. ltb 0 n) (map (residency s c l) zs) ≡ map (listed s l xs) zs
    answers [] = refl
    answers (z ∷ zs) =
        ap (λ b. b ∷ map (λ n. ltb 0 n) (map (residency s c l) zs)) (residency-listed s c xs l z k)
        ∙ ap (λ bs. listed s l xs z ∷ bs) (answers zs)
