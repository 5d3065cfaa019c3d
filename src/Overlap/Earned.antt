-- ===== src/Overlap/Earned.antt =====
-- No compute thread is told early that a slice is there.
use mathlib.Core.Path.{subst}
use meitte.Base.{
  ℕ, ◌+◌, ◌/◌, ◌%◌, ◌^◌, ◌<◌, ◌≡◌, ◌≢◌, inl, inr, ◌⊎◌, Bool, true, false, List, some, arith,
  AllBelow, ◌∙◌, ap, sym, ℤ, pos,
}
use meitte.Cache.{Shape, Vm, n_entry, entry_id}
use meitte.Cache.Invariant.{Keeps, Fits}
use meitte.Overlap.Defs.{Overlap, flag_of}
use meitte.Overlap.Start.{load_layer_async, open_load}
use meitte.Overlap.Lanes.{Run, Steps}
use meitte.Overlap.Hook.{Texp, lower_bound, resident, on_expert_ready}
use meitte.Overlap.Async.{load_layer_async-Promise, open_load-Opens}
use meitte.Overlap.Drain.{start_run, WasRead}
use meitte.Overlap.Early.{load_layer_async-Hit, open_load-async_gen}
use meitte.Overlap.Serve.{resident-WasRead}

flag_of-mod : (s : Shape) (p e : ℕ) → e < s.n_expert → flag_of s p e % s.n_expert ≡ e
flag_of-mod s p e h = grind arith

flag_of-inj :
    (s : Shape) (p q e i : ℕ)
    → e < s.n_expert
    → i < s.n_expert
    → flag_of s p e ≡ flag_of s q i
    → e ≡ i
flag_of-inj s p q e i h k same =
    sym (flag_of-mod s p e h) ∙ ap (λ z. z % s.n_expert) same ∙ flag_of-mod s q i k

module _ (vm : Vm) (two_wave : Bool) (s : Shape) (il : ℕ) (ids : List ℤ) (st : Overlap)
    (xs : List ℕ) (fits : Fits s) (hl : il < s.n_layer) (k : Keeps s st.cache xs)
    (b : AllBelow (n_entry s) st.cache.spec_done) (on : st.cache.cache_max ≢ 0)
    (fresh : (f : ℕ) → st.ready f ≢ (st.async_gen + 1) % 2 ^ 32) (texp : Texp) (r : Run)
    (src0 packed e : ℕ) where
  -- After an overlapped load that succeeds, while the lanes work on its batch and no read has
  -- failed, the hook says that a slice of the loaded layer is there only if the expert was resident
  -- once the load had settled speculation, or a job of the batch that publishes the flag of this
  -- slice has been read. The load is one with the cache on, of a layer of the model, where all
  -- experts have fewer than 2^64 bytes, from a state that keeps the invariant, whose finished
  -- speculative reads are of entries of the cache, and in which no flag carries the generation to
  -- come.
  pub resident-Earned :
      (load_layer_async vm two_wave s il ids st).1 ≡ true
      → Steps (start_run (load_layer_async vm two_wave s il ids st).0) r
      → r.shared.fatal ≡ false
      → lower_bound src0 texp ≡ some (src0, packed)
      → packed / 256 ≡ il
      → e < s.n_expert
      → on_expert_ready s texp src0 (pos e) r.shared ≡ (r.shared, resident)
      → ((open_load s il st).cache.cvalid (entry_id s il e) ≡ true)
        ⊎ WasRead
            (load_layer_async vm two_wave s il ids st).0.batch.jobs
            (flag_of s (packed % 256) e)
            r.read
  resident-Earned ok steps fine found same he told =
      let u = (load_layer_async vm two_wave s il ids st).0 in
      let gen = (st.async_gen + 1) % 2 ^ 32 in
      let (ys, v) = (load_layer_async-Promise vm two_wave s il ids st xs fits hl k b on).1 ok in
      let o = open_load-Opens s fits il st xs k b on in
      let (ag, cur) = open_load-async_gen s il st in
      elim (resident-WasRead s texp src0 packed e gen u r v.published v.gen_is
        (v.current ∙ ap some (sym same)) steps fine found he told) [
          | inr read ↦ inr read
          | inl before ↦
              let (i, q, hi, at, valid) =
                load_layer_async-Hit vm s fits il hl two_wave ids st (flag_of s (packed % 256) e)
                  (λ z. on (sym o.same_max ∙ z)) (λ z. fresh _ (z ∙ ag)) (before ∙ sym ag) in
              inl (
                subst (λ i. (open_load s il st).cache.cvalid (entry_id s il i) ≡ true)
                  (sym (flag_of-inj s (packed % 256) q e i he hi at)) valid)
        ]
