-- ===== src/Cache/LoadLayer.antt =====
-- What a serial `load_layer` guarantees.
use mathlib.Core.Path.{subst}
use meitte.Base.{
  Routed, Routed-mono, ℕ, ◌+◌, ◌%◌, ◌^◌, ◌<◌, ◌≡◌, refl, ◌≢◌, inl, inr, Bool, true, false, List, [],
  ◌∷◌, ◌++◌, Option, none, some, arith, elem, AllBelow, Bool-cases, ◌==◌, ◌∙◌, ℤ, elem-append,
}
use meitte.Cache.Defs.{Shape, Vm, Cache, n_entry, entry_id}
use meitte.Cache.Load.{
  Reads, Staging, account_demand, read_jobs, start_load, finish_load, load_at, load_layer,
}
use meitte.Cache.Entry.{bound_layer}
use meitte.Cache.Budget.{older_entry}
use meitte.Cache.Invariant.{Keeps, Fits, same-Keeps}
use meitte.Cache.Evict.{Evicted, Settled, evict_to_budget-Evicted}
use meitte.Cache.Quiesce.{quiesce_spec-Keeps, quiesce_spec-SameRun}
use meitte.Cache.Staged.{Staged}
use meitte.Cache.Loaded.{all_wanted_plain, index_below-lt, stage_all-Stages}

-- The state that staging starts from, with the cache on.
start_load-Staged :
    (s : Shape) (fits : Fits s) (il : ℕ) (c : Cache) (xs : List ℕ)
    → Keeps s c xs
    → AllBelow (n_entry s) c.spec_done
    → c.cache_max ≢ 0
    → (ys : List ℕ) × Staged s il ((c.cgen + 1) % 2 ^ 32) c.cache_max (start_load s c) true ys
unfolding start_load
start_load-Staged s fits il c xs k b on =
    let g : Cache = record c { cgen = (c.cgen + 1) % 2 ^ 32 } in
    let (zs, kz) = quiesce_spec-Keeps s fits g xs (same-Keeps s c g xs refl refl refl k) b in
    let (gen, budget, done) = quiesce_spec-SameRun s g in
    let off : (c.cache_max == 0) ≡ false = ground arith in
    (
      xs ++ zs,
      rw off
          (record { keeps = kz; gen = gen; budget = budget; done = done; present = λ ok e h. cc }),
    )

-- What a load promises. `xs` is what it leaves resident.
pub record LoadOk (s : Shape) (il g m : ℕ) (ids : List ℤ) (c : Cache) (xs : List ℕ) : Type 0 where
  pub keeps : Keeps s c xs
  pub routed : Routed s.n_expert (λ e. c.cvalid (entry_id s il e) ≡ true) ids
  pub settled : Settled older_entry c
  pub same_max : c.cache_max ≡ m

pub account_demand-Keeps :
    (s : Shape) (il n : ℕ) (c : Cache) (xs : List ℕ)
    → Keeps s c xs
    → Keeps s (account_demand s il n c) xs
unfolding account_demand
account_demand-Keeps s il n c xs k = same-Keeps s c _ xs refl refl refl k

module _ (s : Shape) (fits : Fits s) (il g m : ℕ) (on : m ≢ 0) where
  -- An entry of the load's own generation survives the eviction.
  pub survives :
      (c d : Cache) (xs ys : List ℕ) (i : ℕ)
      → Evicted s older_entry c d xs ys
      → c.cgen ≡ g
      → elem i xs ≡ true
      → c.cstamp i ≡ g
      → d.cvalid i ≡ true
  survives c d xs ys i v gen here stamp =
      ground (arith, v.allowed i, v.keeps.valid i, v.split, elem-append i ys v.cold)

  pub finish_load-LoadOk :
      (reads : Reads) (ids : List ℤ) (r : Staging × Bool) (xs : List ℕ)
      → Staged s il g m r.0 r.1 xs
      → (r.1 ≡ true → Routed s.n_expert (λ e. r.0.seen e ≡ true) ids)
      → let l = finish_load reads s il r in
        ((ys : List ℕ) × Keeps s l.cache ys)
        × (l.success ≡ true → (ys : List ℕ) × LoadOk s il g m ids l.cache ys)
  unfolding finish_load account_demand
  finish_load-LoadOk reads ids (t, false) xs v saw = ((xs, v.keeps), λ ok. cc)
  finish_load-LoadOk reads ids (t, true) xs v saw = elim (Bool-cases (read_jobs reads [] t.jobs)) [
    | inr bad ↦ rw bad ((xs, account_demand-Keeps s il t.n_unique t.cache xs v.keeps), λ ok. cc)
    | inl good ↦
        let c : Cache = account_demand s il t.n_unique t.cache in
        let (ys, ev) =
          evict_to_budget-Evicted s fits older_entry c xs
            (account_demand-Keeps s il t.n_unique t.cache xs v.keeps) in
        let on : (t.cache.cache_max == 0) ≡ false = ground (arith, v.budget) in
        rw (good, on)
          (
            (ys, ev.keeps),
            λ ok. (
              ys,
              record {
                keeps = ev.keeps;
                routed =
                    Routed-mono s.n_expert _ _ ids
                      (λ e h.
                        survives c _ xs ys (entry_id s il e) ev v.gen (v.present refl e h).0
                          (v.present refl e h).1)
                      (saw refl);
                settled = ev.settled;
                same_max = ev.same_max ∙ v.budget;
              },
            ),
          )
  ]

pub bound_layer-lt : (s : Shape) (il : ℤ) (l : ℕ) → bound_layer s il ≡ some l → l < s.n_layer
unfolding bound_layer
bound_layer-lt s il l h = ground (arith, index_below-lt s.n_layer il l)

load_at-LoadOk :
    (vm : Vm) (reads : Reads) (s : Shape) (c : Cache) (xs : List ℕ)
    → Fits s
    → Keeps s c xs
    → AllBelow (n_entry s) c.spec_done
    → c.cache_max ≢ 0
    → s.load_all ≡ false
    → (o : Option ℕ) (zs : List ℤ) → ((l : ℕ) → o ≡ some l → l < s.n_layer)
    → let r = load_at vm reads s o zs c in
      ((ys : List ℕ) × Keeps s r.cache ys)
      × (r.success ≡ true
          → (l : ℕ) × (o ≡ some l)
            × ((ys : List ℕ) × LoadOk s l ((c.cgen + 1) % 2 ^ 32) c.cache_max zs r.cache ys))
unfolding load_at
load_at-LoadOk vm reads s c xs fits k b on plain none zs h = ((xs, k), λ ok. cc)
load_at-LoadOk vm reads s c xs fits k b on plain (some l) [] h = ((xs, k), λ ok. cc)
load_at-LoadOk vm reads s c xs fits k b on plain (some l) (z ∷ zs) h =
    let g = (c.cgen + 1) % 2 ^ 32 in
    let (ys, v) = start_load-Staged s fits l c xs k b on in
    let (w, saw) = stage_all-Stages s fits vm l (h l refl) g c.cache_max on (z ∷ zs) _ ys v in
    let (kept, done) =
      finish_load-LoadOk s fits l g c.cache_max on reads (z ∷ zs) _ w.order w.staged
        (λ ok. subst (Routed s.n_expert _) (all_wanted_plain s 0 (z ∷ zs) plain) (saw ok)) in
    (kept, λ ok. (l, refl, done ok))

module _ (vm : Vm) (reads : Reads) (s : Shape) (il : ℤ) (ids : List ℤ) (c : Cache) (xs : List ℕ)
    (fits : Fits s) (k : Keeps s c xs) (b : AllBelow (n_entry s) c.spec_done) (on : c.cache_max ≢ 0)
    (plain : s.load_all ≡ false) where
  -- With the cache on, without load_all and where all experts have fewer than 2^64 bytes, a serial
  -- load keeps the invariant whatever the ids are and whatever the commits and reads answer, also
  -- where it fails half-way, provided that the finished speculative reads are of entries of the
  -- cache.
  pub load_layer-Keeps : (ys : List ℕ) × Keeps s (load_layer vm reads s il ids c).cache ys
  unfolding load_layer
  load_layer-Keeps =
      (load_at-LoadOk vm reads s c xs fits k b on plain (bound_layer s il) ids
        (bound_layer-lt s il)).0

  -- A serial load that succeeds, from a state that keeps the invariant and whose finished
  -- speculative reads are of entries of the cache, with the cache on, without load_all and where
  -- all experts have fewer than 2^64 bytes, was for a bound layer: every expert that the ids name
  -- is resident, the invariant holds, the budget is unchanged, and what is resident fits the
  -- budget, or the coldest entry is stamped by this very load (which is never evicted).
  pub load_layer-LoadOk :
      (load_layer vm reads s il ids c).success ≡ true
      → (l : ℕ) × (bound_layer s il ≡ some l)
        × ((ys : List ℕ) × LoadOk s l
              ((c.cgen + 1) % 2 ^ 32)
              c.cache_max
              ids
              (load_layer vm reads s il ids c).cache
              ys)
  unfolding load_layer
  load_layer-LoadOk =
      (load_at-LoadOk vm reads s c xs fits k b on plain (bound_layer s il) ids
        (bound_layer-lt s il)).1
