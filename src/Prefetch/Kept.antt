-- ===== src/Prefetch/Kept.antt =====
-- Speculation in any interleaving keeps the invariant of the cache.
use meitte.Base.{
  ℕ, ◌<◌, ◌≡◌, refl, inl, inr, Bool, true, false, ◌&&◌, not, List, [], ◌∷◌, ◌++◌, Option, none,
  some, if◌then◌else◌, ◌==◌, arith, elem, Distinct, Bool-cases, AllBelow, add64-eq, sym, ◌∙◌,
}
use meitte.Lru.Neighbours.{elem-snoc, snoc-Distinct}
use meitte.Lru.Refine.{lru_push_back-Holds, lru_push_front-Holds}
use meitte.Cache.{Shape, Cache, n_entry, entry_weight}
use meitte.Cache.Invariant.{Keeps, Fits, same-Keeps, weight-le-total}
use meitte.Cache.Quiesce.{snoc-AllBelow, weight-snoc, integrate_all-Keeps, release_all-Keeps}
use meitte.Prefetch.Lanes.{count_down, account_read}
use meitte.Prefetch.Settle.{
  eligible, integrate_done_entry, integrate_done, spec_integrate_done, harvest_spec,
}
use meitte.Prefetch.Cached.{eligible-elem}

-- The entries after one of them joined, hot or cold.
abbrev join : Bool → ℕ → List ℕ → List ℕ
join adopt id xs = if adopt then id ∷ xs else xs ++ id ∷ []

module _ (s : Shape) (fits : Fits s) where
  integrate_done_entry-Keeps :
      (adopt : Bool) (c : Cache) (xs : List ℕ) (id : ℕ)
      → Keeps s c xs
      → id < n_entry s
      → c.cvalid id ≡ false
      → Keeps s (integrate_done_entry adopt s id c) (join adopt id xs)
  unfolding integrate_done_entry
  integrate_done_entry-Keeps true c xs id k lt new =
      let absent : elem id xs ≡ false = sym (k.valid id) ∙ new in
      record {
        holds = lru_push_front-Holds c.links xs id k.holds absent;
        valid = λ i. ground (arith, k.valid i);
        counted = omega (
          arith,
          k.counted,
          add64-eq c.cresident (entry_weight s id),
          weight-le-total (entry_weight s) (n_entry s) (id ∷ xs) (absent, k.holds.distinct)
              (lt, k.below),
        );
        below = (lt, k.below);
      }
  integrate_done_entry-Keeps false c xs id k lt new =
      let absent : elem id xs ≡ false = sym (k.valid id) ∙ new in
      record {
        holds = lru_push_back-Holds c.links xs id k.holds absent;
        valid = λ i. ground (arith, k.valid i, elem-snoc id i xs);
        counted = omega (
          arith,
          k.counted,
          weight-snoc (entry_weight s) id xs,
          add64-eq c.cresident (entry_weight s id),
          weight-le-total (entry_weight s) (n_entry s) (xs ++ id ∷ [])
              (snoc-Distinct id xs absent k.holds.distinct)
              (snoc-AllBelow (n_entry s) id xs k.below lt),
        );
        below = snoc-AllBelow (n_entry s) id xs k.below lt;
      }

  integrate_done-Keeps :
      (adopt : Bool) (ids : List ℕ) (c : Cache) (xs : List ℕ)
      → Keeps s c xs
      → Distinct ids
      → AllBelow (n_entry s) ids
      → ((i : ℕ) → elem i ids ≡ true → c.cvalid i ≡ false)
      → (ys : List ℕ) × Keeps s (integrate_done adopt s ids c) ys
  unfolding integrate_done
  integrate_done-Keeps adopt [] c xs k d b new = (xs, k)
  integrate_done-Keeps adopt (id ∷ ids) c xs k d b new =
      integrate_done-Keeps adopt ids (integrate_done_entry adopt s id c) (join adopt id xs)
        (integrate_done_entry-Keeps adopt c xs id k b.0 (new id (ground arith))) d.1 b.1
        (λ i m. unfold integrate_done_entry in ground (arith, m, d.0, new i))

  eligible-Distinct : (c : Cache) (ids : List ℕ) → Distinct ids → Distinct (eligible c ids)
  unfolding eligible
  eligible-Distinct c [] d = tt
  eligible-Distinct c (id ∷ ids) d =
      elim (Bool-cases (not (c.cvalid id) && c.spec_remaining id == 0)) [
        | inr skipped ↦ rw skipped (eligible-Distinct c ids d.1)
        | inl it ↦ rw it (
          elim (Bool-cases (elem id (eligible c ids))) [
            | inr absent ↦ absent
            | inl there ↦ absurd (ground (arith, eligible-elem c ids id there, d.0))
          ],
          eligible-Distinct c ids d.1,
        )
      ]

  eligible-AllBelow :
      (n : ℕ) (c : Cache) (ids : List ℕ) → AllBelow n ids → AllBelow n (eligible c ids)
  unfolding eligible
  eligible-AllBelow n c [] b = tt
  eligible-AllBelow n c (id ∷ ids) b =
      elim (Bool-cases (not (c.cvalid id) && c.spec_remaining id == 0)) [
        | inr skipped ↦ rw skipped (eligible-AllBelow n c ids b.1)
        | inl it ↦ rw it (b.0, eligible-AllBelow n c ids b.1)
      ]

  pub spec_integrate_done-Keeps :
      (adopt : Bool) (c : Cache) (xs : List ℕ)
      → Keeps s c xs
      → Distinct c.spec_done
      → AllBelow (n_entry s) c.spec_done
      → (ys : List ℕ) × Keeps s (spec_integrate_done adopt s c) ys
  unfolding spec_integrate_done
  spec_integrate_done-Keeps adopt c xs k d b =
      integrate_done-Keeps adopt (eligible c c.spec_done) (record c { spec_done = [] }) xs
        (same-Keeps s c _ xs refl refl refl k) (eligible-Distinct c c.spec_done d)
        (eligible-AllBelow (n_entry s) c c.spec_done b) (λ i m. (eligible-elem c c.spec_done i m).1)

  pub harvest_spec-Keeps :
      (c : Cache) (xs : List ℕ)
      → Keeps s c xs
      → AllBelow (n_entry s) c.spec_done
      → (ys : List ℕ) × Keeps s (harvest_spec s c) ys
  unfolding harvest_spec
  harvest_spec-Keeps c xs k b =
      let (zs, kz) =
        integrate_all-Keeps s fits c.spec_done _ xs (same-Keeps s c _ xs refl refl refl k) b in
      (xs ++ zs, release_all-Keeps s fits c.spec_touched _ (xs ++ zs) kz)

  pub account_read-Keeps :
      (adopt ok current : Bool) (o : Option ℕ) (c : Cache) (xs : List ℕ)
      → Keeps s c xs
      → Keeps s (account_read adopt ok current o c) xs
  unfolding account_read count_down
  account_read-Keeps adopt ok current none c xs k = k
  account_read-Keeps adopt ok current (some id) c xs k =
      same-Keeps s c _ xs (ground arith) (ground arith) (ground arith) k
