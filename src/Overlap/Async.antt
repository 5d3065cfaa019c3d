-- ===== src/Overlap/Async.antt =====
-- What an overlapped load promises from the call to the return.
use mathlib.Core.Path.{subst}
use meitte.Base.{
  Routed, Routed-mono, ℕ, ◌+◌, ◌%◌, ◌^◌, ◌<◌, ◌≡◌, refl, ◌≢◌, inl, inr, Bool, true, false, List,
  ◌++◌, Option, none, some, arith, elem, AllBelow, ◌==◌, ◌∙◌, ℤ, sym, length, if◌then◌else◌,
}
use meitte.Cache.{Shape, Vm, n_entry, entry_id}
use meitte.Cache.Entry.{projections}
use meitte.Cache.Load.{account_demand}
use meitte.Cache.Budget.{older_entry}
use meitte.Cache.Evict.{Settled}
use meitte.Cache.Invariant.{Keeps, Fits, same-Keeps}
use meitte.Cache.Quiesce.{quiesce_spec-Keeps, quiesce_spec-SameRun}
use meitte.Cache.Loaded.{all_wanted_plain}
use meitte.Cache.LoadLayer.{account_demand-Keeps}
use meitte.Overlap.Defs.{Overlap}
use meitte.Overlap.Start.{
  Looked, publish_first, finish_lookups, open_load, load_routed, load_layer_async, routed_set,
  first_wave,
}
use meitte.Overlap.Routing.{routed_set-Routed}
use meitte.Overlap.Lookup.{Served, Looks, lookup_all-Looks}
use meitte.Overlap.Jobs.{emit_projs-FlagIn}
use meitte.Overlap.Load.{
  commit_missed-OnlyOs, AsyncOk, Covered, settle_load-Settles, Outcome, concluded,
  finish_second-Outcome,
}

module _ (s : Shape) (fits : Fits s) (vm : Vm) (il g gen m : ℕ) (on : m ≢ 0) (ids : List ℤ)
    (es : List ℕ) where
  finish_lookups-Outcome :
      (wave : Option ℕ) (st : Overlap) (l0 : Looked) (xs : List ℕ) (r : Looked × Bool)
      → st.async_gen ≡ gen
      → st.cur_il ≡ some il
      → (v : Looks s il g gen m l0 xs r) × (r.1 ≡ true
          → (e : ℕ) → elem e es ≡ true
          → Served s il g gen r.0 v.order e)
      → Outcome s fits il g gen m on ids es (finish_lookups vm s il ids es wave st r)
  unfolding finish_lookups
  finish_lookups-Outcome wave st l0 xs (l, false) ag cur (v, all) = ((v.order, v.keeps), λ ok. cc)
  finish_lookups-Outcome none st l0 xs (l, true) ag cur (v, all) =
      let (ys, w) = settle_load-Settles s fits il g m on ids l.cache v.order v.same_gen v.keeps in
      concluded s fits il g gen m on ids es l l.cache _ v.order ys refl ag cur
        (record { none_taken = refl; none_done = refl; whole = refl; flags = ag }) refl v.same_max
        (all refl)
        (λ p e a h q ms.
          elim (emit_projs-FlagIn s il l.missed (λ p. s.lbuf p il) e es none projections p ms h a
            q) [ inl first ↦ absurd (ground arith) | inr job ↦ job ])
        w
  finish_lookups-Outcome (some p0) st l0 xs (l, true) ag cur (v, all) =
      finish_second-Outcome s fits il g gen m on ids es p0 l (publish_first s il es p0 l st)
        st.batch v.order _ refl ag cur (rw ag refl)
        (commit_missed-OnlyOs vm s il p0 l.missed es l.cache) v.same_gen v.same_max v.keeps
        (all refl)

module _ (s : Shape) (fits : Fits s) (vm : Vm) (il : ℕ) (hl : il < s.n_layer) (ids : List ℤ)
    (es : List ℕ) (below : (e : ℕ) → elem e es ≡ true → e < s.n_expert) where
  load_routed-Outcome :
      (two_wave : Bool) (st : Overlap) (xs : List ℕ)
      → (on : st.cache.cache_max ≢ 0) → st.cur_il ≡ some il
      → Keeps s st.cache xs
      → Outcome s fits il st.cache.cgen st.async_gen st.cache.cache_max on ids es
          (load_routed vm two_wave s il ids es st)
  unfolding load_routed account_demand
  load_routed-Outcome two_wave st xs on cur k =
      let off : (st.cache.cache_max == 0) ≡ false = ground arith in
      rw off (
        finish_lookups-Outcome s fits vm il st.cache.cgen st.async_gen st.cache.cache_max on ids es
          (first_wave two_wave s il) st _ xs _ refl cur
          (lookup_all-Looks s fits vm il hl st.cache.cgen st.async_gen st.cache.cache_max
            (first_wave two_wave s il) es _ xs below refl refl
            (account_demand-Keeps s il (length es) st.cache xs k)))

-- What the opening of a load keeps, with the cache on.
pub record Opens (s : Shape) (il : ℕ) (st o : Overlap) : Type 0 where
  order : List ℕ
  keeps : Keeps s o.cache order
  pub same_max : o.cache.cache_max ≡ st.cache.cache_max
  next_gen : o.async_gen ≡ (st.async_gen + 1) % 2 ^ 32
  current : o.cur_il ≡ some il

pub open_load-Opens :
    (s : Shape) (fits : Fits s) (il : ℕ) (st : Overlap) (xs : List ℕ)
    → Keeps s st.cache xs
    → AllBelow (n_entry s) st.cache.spec_done
    → st.cache.cache_max ≢ 0
    → Opens s il st (open_load s il st)
unfolding open_load
open_load-Opens s fits il st xs k b on =
    let off : (st.cache.cache_max == 0) ≡ false = ground arith in
    let (zs, kz) = quiesce_spec-Keeps s fits st.cache xs k b in
    rw off (record {
      order = xs ++ zs;
      keeps = same-Keeps s _ _ (xs ++ zs) refl refl refl kz;
      same_max = (quiesce_spec-SameRun s st.cache).1;
      next_gen = refl;
      current = refl;
    })

module _ (vm : Vm) (two_wave : Bool) (s : Shape) (il : ℕ) (ids : List ℤ) (st : Overlap)
    (xs : List ℕ) (fits : Fits s) (hl : il < s.n_layer) (k : Keeps s st.cache xs)
    (b : AllBelow (n_entry s) st.cache.spec_done) (on : st.cache.cache_max ≢ 0) where
  abbrev pub Promise : Overlap × Bool → Type 0
  Promise r =
      ((ys : List ℕ) × Keeps s r.0.cache ys)
      × (r.1 ≡ true
          → (ys : List ℕ) × AsyncOk s il ((st.async_gen + 1) % 2 ^ 32) st.cache.cache_max
              (routed_set s ids) r.0 ys)

  pub load_layer_async-Promise : Promise (load_layer_async vm two_wave s il ids st)
  unfolding load_layer_async
  load_layer_async-Promise =
      let o = open_load s il st in
      let es = routed_set s ids in
      let u = (load_routed vm two_wave s il ids es o).0 in
      let v = open_load-Opens s fits il st xs k b on in
      let (kept, good) =
        load_routed-Outcome s fits vm il hl ids (routed_set s ids) (routed_set-Routed s ids).1
          two_wave o v.order (λ h. on (sym v.same_max ∙ h)) v.current v.keeps in
      unless st.fatal _ (
        kept,
        λ ok.
            let (ys, w) = good ok in
            (
              ys,
              subst (λ q. AsyncOk s il q st.cache.cache_max es u ys) v.next_gen
                  (subst (λ q. AsyncOk s il o.async_gen q es u ys) v.same_max w),
            ),
      )
    where
      unless : (f : Bool) (r : Overlap × Bool) → Promise r → Promise (if f then (st, false) else r)
      unless true r h = ((xs, k), λ ok. cc)
      unless false r h = h

  -- An overlapped load keeps the invariant of the cache whatever the commits answer, also where it
  -- fails before or after the first wave is out: with the cache on, for a layer of the model, where
  -- all experts have fewer than 2^64 bytes and the finished speculative reads are of entries of the
  -- cache.
  pub load_layer_async-Keeps :
      (ys : List ℕ) × Keeps s (load_layer_async vm two_wave s il ids st).0.cache ys
  load_layer_async-Keeps = load_layer_async-Promise.0

  -- An overlapped load that succeeds leaves every expert that the ids name resident after its
  -- eviction, with each of its present projections marked ready with the new generation or
  -- published by a job of the batch; what is resident fits the budget or the coldest entry is
  -- stamped by this load. The load is one with the cache on, without load_all, of a layer of the
  -- model, where all experts have fewer than 2^64 bytes, from a state that keeps the invariant and
  -- whose finished speculative reads are of entries of the cache.
  pub load_layer_async-Covered :
      s.load_all ≡ false
      → (load_layer_async vm two_wave s il ids st).1 ≡ true
      → let u = (load_layer_async vm two_wave s il ids st).0 in
        Routed s.n_expert (λ e. (u.cache.cvalid (entry_id s il e) ≡ true) × Covered s il u e) ids
        × Settled older_entry u.cache
  load_layer_async-Covered plain ok =
      let (ys, v) = load_layer_async-Promise.1 ok in
      (
        subst (Routed s.n_expert _) (all_wanted_plain s 0 ids plain)
            (Routed-mono s.n_expert _ _ _ (λ e h. v.routed e h) (routed_set-Routed s ids).0),
        v.settled,
      )
