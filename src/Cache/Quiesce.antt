-- ===== src/Cache/Quiesce.antt =====
-- Quiescing speculation keeps the invariant: what was read whole joins at the cold end.
use mathlib.Core.List.{append_assoc, append-nil}
use meitte.Base.{
  ℕ, ◌+◌, ◌<◌, ◌≡◌, refl, inl, inr, false, ◌||◌, not, List, [], ◌∷◌, ◌++◌, arith, elem, weight,
  AllBelow, Bool-cases, ◌==◌, ◌∙◌, add64-eq,
}
use meitte.Lru.Neighbours.{elem-snoc, snoc-Distinct}
use meitte.Lru.Refine.{lru_push_back-Holds}
use meitte.Cache.Defs.{Shape, Cache, n_entry, entry_weight}
use meitte.Cache.Entry.{release_entry_pages}
use meitte.Cache.Speculation.{
  integrate_entry, integrate_all, release_unfinished, release_all, quiesce_spec,
}
use meitte.Cache.Invariant.{Keeps, Fits, same-Keeps, weight-le-total}

pub weight-snoc : (w : ℕ → ℕ) (x : ℕ) (xs : List ℕ) → weight w (xs ++ x ∷ []) ≡ weight w xs + w x
weight-snoc w x [] = omega arith
weight-snoc w x (y ∷ ys) = omega (arith, weight-snoc w x ys)

pub snoc-AllBelow : (n x : ℕ) (xs : List ℕ) → AllBelow n xs → x < n → AllBelow n (xs ++ x ∷ [])
snoc-AllBelow n x [] b h = (h, tt)
snoc-AllBelow n x (y ∷ ys) b h = (b.0, snoc-AllBelow n x ys b.1 h)

-- What speculation leaves alone.
pub record SameRun (c d : Cache) : Type 0 where
  pub same_gen : d.cgen ≡ c.cgen
  pub same_max : d.cache_max ≡ c.cache_max
  pub same_done : d.spec_done ≡ c.spec_done

trans-SameRun : {c d e : Cache} → SameRun c d → SameRun d e → SameRun c e
trans-SameRun v w = record {
  same_gen = w.same_gen ∙ v.same_gen;
  same_max = w.same_max ∙ v.same_max;
  same_done = w.same_done ∙ v.same_done;
}

integrate_entry-SameRun : (s : Shape) (id : ℕ) (c : Cache) → SameRun c (integrate_entry s id c)
unfolding integrate_entry
integrate_entry-SameRun s id c = ground arith

release_unfinished-SameRun :
    (s : Shape) (id : ℕ) (c : Cache) → SameRun c (release_unfinished s id c)
unfolding release_unfinished release_entry_pages
release_unfinished-SameRun s id c = ground arith

integrate_all-SameRun : (s : Shape) (ids : List ℕ) (c : Cache) → SameRun c (integrate_all s ids c)
unfolding integrate_all
integrate_all-SameRun s [] c = record { same_gen = refl; same_max = refl; same_done = refl }
integrate_all-SameRun s (id ∷ ids) c =
    trans-SameRun (integrate_entry-SameRun s id c)
      (integrate_all-SameRun s ids (integrate_entry s id c))

release_all-SameRun : (s : Shape) (ids : List ℕ) (c : Cache) → SameRun c (release_all s ids c)
unfolding release_all
release_all-SameRun s [] c = record { same_gen = refl; same_max = refl; same_done = refl }
release_all-SameRun s (id ∷ ids) c =
    trans-SameRun (release_unfinished-SameRun s id c)
      (release_all-SameRun s ids (release_unfinished s id c))

pub quiesce_spec-SameRun :
    (s : Shape) (c : Cache)
    → ((quiesce_spec s c).cgen ≡ c.cgen)
      × ((quiesce_spec s c).cache_max ≡ c.cache_max)
      × ((quiesce_spec s c).spec_done ≡ [])
unfolding quiesce_spec
quiesce_spec-SameRun s c =
    let v =
      trans-SameRun (integrate_all-SameRun s c.spec_done _)
        (release_all-SameRun s c.spec_touched _) in
    (v.same_gen, v.same_max, v.same_done)

module _ (s : Shape) (fits : Fits s) where
  integrate_entry-Keeps :
      (c : Cache) (xs : List ℕ) (id : ℕ)
      → Keeps s c xs
      → id < n_entry s
      → (zs : List ℕ) × Keeps s (integrate_entry s id c) (xs ++ zs)
  unfolding integrate_entry
  integrate_entry-Keeps c xs id k lt =
      elim (Bool-cases (not (c.spec_remaining id == 0) || c.cvalid id)) [
        | inl skipped ↦
            rw (skipped, integrate_entry) ([], rw append-nil (same-Keeps s c _ xs refl refl refl k))
        | inr whole ↦
            let absent : elem id xs ≡ false = ground (arith, k.valid id) in
            rw (whole, integrate_entry)
              (
                id ∷ [],
                record {
                  holds = lru_push_back-Holds c.links xs id k.holds absent;
                  valid = λ i. ground (arith, k.valid i, elem-snoc id i xs);
                  counted = omega (
                    arith,
                    k.counted,
                    weight-snoc (entry_weight s) id xs,
                    add64-eq c.cresident (entry_weight s id),
                    weight-le-total (entry_weight s) (n_entry s) (xs ++ id ∷ [])
                        (snoc-Distinct id xs absent k.holds.distinct)
                        (snoc-AllBelow (n_entry s) id xs k.below lt),
                  );
                  below = snoc-AllBelow (n_entry s) id xs k.below lt;
                },
              )
      ]

  pub integrate_all-Keeps :
      (ids : List ℕ) (c : Cache) (xs : List ℕ)
      → Keeps s c xs
      → AllBelow (n_entry s) ids
      → (zs : List ℕ) × Keeps s (integrate_all s ids c) (xs ++ zs)
  unfolding integrate_all
  integrate_all-Keeps [] c xs k b = ([], rw append-nil k)
  integrate_all-Keeps (id ∷ ids) c xs k b =
      let (ys, kys) = integrate_entry-Keeps c xs id k b.0 in
      let (zs, kzs) = integrate_all-Keeps ids (integrate_entry s id c) (xs ++ ys) kys b.1 in
      (ys ++ zs, rw (← append_assoc xs ys zs) kzs)

  pub release_all-Keeps :
      (ids : List ℕ) (c : Cache) (xs : List ℕ) → Keeps s c xs → Keeps s (release_all s ids c) xs
  unfolding release_all release_unfinished release_entry_pages
  release_all-Keeps [] c xs k = k
  release_all-Keeps (id ∷ ids) c xs k =
      release_all-Keeps ids (release_unfinished s id c) xs (
        same-Keeps s c (release_unfinished s id c) xs (ground arith) (ground arith) (ground arith)
          k)

  -- Where all experts have fewer than 2^64 bytes and the finished speculative reads are of entries
  -- of the cache, the destructive quiesce keeps the invariant: every entry that was resident stays
  -- in its place, and the speculative ones that join stand behind them, at the cold end.
  pub quiesce_spec-Keeps :
      (c : Cache) (xs : List ℕ)
      → Keeps s c xs
      → AllBelow (n_entry s) c.spec_done
      → (zs : List ℕ) × Keeps s (quiesce_spec s c) (xs ++ zs)
  unfolding quiesce_spec
  quiesce_spec-Keeps c xs k b =
      let (zs, kz) =
        integrate_all-Keeps c.spec_done _ xs (same-Keeps s c _ xs refl refl refl k) b in
      (zs, release_all-Keeps c.spec_touched _ (xs ++ zs) kz)
