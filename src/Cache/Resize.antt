-- ===== src/Cache/Resize.antt =====
-- The explicit change of the budget.
use meitte.Base.{
  ℕ, ◌+◌, ◌≤◌, ◌<◌, ◌≡◌, refl, ◌≢◌, ◌⊎◌, inl, inr, false, List, ◌++◌, arith, AllBelow, Bool-cases,
  ◌==◌, ltb, min, max,
}
use meitte.Cache.Defs.{Shape, Cache, n_entry}
use meitte.Cache.Budget.{any_entry, set_cache_budget, evict_to_budget, total_expert_bytes}
use meitte.Cache.Speculation.{quiesce_spec}
use meitte.Cache.Invariant.{Keeps, Fits, same-Keeps}
use meitte.Cache.Evict.{Settled, evict_to_budget-Evicted}
use meitte.Cache.Quiesce.{quiesce_spec-Keeps}

-- Nothing protects an entry outside a load, so the loop ends within the budget.
Settled-bound : (c : Cache) → Settled any_entry c → c.cresident ≤ c.cache_max
Settled-bound c (inl h) = h
Settled-bound c (inr (id, at, kept)) = absurd (ground arith)

-- What a change to `bytes` makes of the cache `c`, which held `xs`.
abbrev pub Resized : Shape → ℕ → Cache → Cache → List ℕ → Type 0
Resized s bytes c d xs =
    ((c.cache_max < bytes) × (d.cache_max ≡ min bytes (total_expert_bytes s)) × Keeps s d xs)
    ⊎ (((bytes ≡ c.cache_max) × (d ≡ c))
        ⊎ ((bytes < c.cache_max)
            × (d.cache_max ≡ max 1 bytes)
            × (d.cresident ≤ d.cache_max)
            × ((ys : List ℕ) × Keeps s d ys)))

-- From a state that keeps the invariant and whose finished speculative reads are of entries of the
-- cache, with the cache on and the bytes of all experts above 0 and below 2^64, a change of the
-- budget never turns the cache off. A larger budget is the asked one capped by the bytes of all
-- experts and evicts nothing; an equal one changes nothing; a smaller one, raised to at least one
-- byte, is met at once. Each keeps the invariant.
pub set_cache_budget-Resized :
    (s : Shape) (bytes : ℕ) (c : Cache) (xs : List ℕ)
    → Fits s
    → Keeps s c xs
    → AllBelow (n_entry s) c.spec_done
    → c.cache_max ≢ 0
    → 0 < total_expert_bytes s
    → ((set_cache_budget s bytes c).cache_max ≢ 0)
      × Resized s bytes c (set_cache_budget s bytes c) xs
unfolding set_cache_budget
set_cache_budget-Resized s bytes c xs fits k b on some_bytes =
    elim (Bool-cases (ltb c.cache_max bytes)) [
      | inl grow ↦
          rw (off, grow)
            (ground arith, inl (ground arith, refl, same-Keeps s c _ xs refl refl refl k))
      | inr less ↦ elim (Bool-cases (bytes == c.cache_max)) [
        | inl equal ↦ rw (off, less, equal) (on, inr (inl (ground arith, refl)))
        | inr shrink ↦
            let q = quiesce_spec s c in
            let r : Cache = record q {
              cache_max = max 1 bytes;
              cache_resizes = q.cache_resizes + 1;
            } in
            let (zs, kz) = quiesce_spec-Keeps s fits c xs k b in
            let (ys, v) =
              evict_to_budget-Evicted s fits any_entry r (xs ++ zs)
                (same-Keeps s q r (xs ++ zs) refl refl refl kz) in
            rw (off, less, shrink)
              (
                ground (arith, v.same_max),
                inr (
                    inr (
                      ground arith,
                      v.same_max,
                      Settled-bound (evict_to_budget any_entry s r) v.settled,
                      (ys, v.keeps),
                    )),
              )
      ]
    ]
  where
    off : (c.cache_max == 0) ≡ false
    off = ground arith
