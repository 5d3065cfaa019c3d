-- ===== src/Overlap/Serve.antt =====
-- A load, the lanes and the compute threads together: what a compute thread that asks for a slice of
-- the loaded layer is told.
use mathlib.Core.Path.{subst}
use meitte.Base.{
  if◌then◌else◌, index_below, Routed, Routed-mono, ℕ, ◌/◌, ◌%◌, ◌<◌, ◌≡◌, refl, ◌≢◌, inl, inr, ◌⊎◌,
  Bool, true, false, List, some, arith, elem, AllBelow, ◌==◌, ◌∙◌, ap, sym, ℤ, pos,
}
use meitte.Cache.{Shape, Vm, Cache, n_entry, entry_id}
use meitte.Cache.Entry.{projections}
use meitte.Cache.Invariant.{Keeps, Fits}
use meitte.Cache.Loaded.{all_wanted_plain}
use meitte.Overlap.Defs.{Overlap, flag_of}
use meitte.Overlap.Start.{load_layer_async}
use meitte.Overlap.Lanes.{Run, Steps}
use meitte.Overlap.Hook.{
  Texp, lower_bound, Answer, resident, aborted, blocked, on_expert_ready, answer_slice, answer_flag,
  is_current,
}
use meitte.Overlap.Routing.{routed_set-Routed}
use meitte.Overlap.Load.{Published}
use meitte.Overlap.Async.{load_layer_async-Promise}
use meitte.Overlap.Drain.{start_run, start_run-Draining, Steps-Draining, drained, WasRead}

if_true {ℓ} : {A : Type ℓ} (b : Bool) (x y : A) → b ≡ true → (if b then x else y) ≡ x
if_true true x y h = refl
if_true false x y h = absurd (ground arith)

answer_flag-resident :
    (s : Shape) (st : Overlap) (p e : ℕ)
    → st.ready (flag_of s p e) ≡ st.async_gen
    → answer_flag s st p e ≡ resident
answer_flag-resident s st p e h =
    if_true (st.ready (flag_of s p e) == st.async_gen) _ _ (ground arith)

-- The hook finds the flag of a slice of the layer in flight.
on_expert_ready-flag :
    (s : Shape) (texp : Texp) (src0 packed e il : ℕ) (st : Overlap)
    → lower_bound src0 texp ≡ some (src0, packed)
    → e < s.n_expert
    → st.cur_il ≡ some il
    → packed / 256 ≡ il
    → on_expert_ready s texp src0 (pos e) st ≡ (st, answer_flag s st (packed % 256) e)
unfolding on_expert_ready
on_expert_ready-flag s texp src0 packed e il st found he cur same =
    let below : index_below s.n_expert (pos e) ≡ some e = ground arith in
    let here : is_current st.cur_il (packed / 256) ≡ true =
      ap (λ o. is_current o (packed / 256)) cur ∙ ground arith in
    rw (found, on_expert_ready)
      (if_true (src0 == src0) _ _ (ground arith)
        ∙ ap (λ o. answer_slice s (packed / 256) (packed % 256) o st) below
        ∙ if_true _ _ _ here)

-- What the hook tells of every streamed tensor of layer `il` and expert `e`.
abbrev pub Told : Shape → Texp → ℕ → Overlap → ℕ → Type 0
Told s texp il st e =
    (src0 packed : ℕ)
    → lower_bound src0 texp ≡ some (src0, packed)
    → packed / 256 ≡ il
    → elem (packed % 256) projections ≡ true
    → (s.nb2 il (packed % 256) == 0) ≡ false
    → on_expert_ready s texp src0 (pos e) st ≡ (st, resident)

module _ (vm : Vm) (two_wave : Bool) (s : Shape) (il : ℕ) (ids : List ℤ) (st : Overlap)
    (xs : List ℕ) (fits : Fits s) (hl : il < s.n_layer) (k : Keeps s st.cache xs)
    (b : AllBelow (n_entry s) st.cache.spec_done) (on : st.cache.cache_max ≢ 0)
    (plain : s.load_all ≡ false) (texp : Texp) (r : Run) where
  -- After an overlapped load that succeeds, any run of the lanes that has counted every job leaves
  -- each expert that the ids name resident, and the hook answers at once, changing nothing, that
  -- the slice is there, for every streamed tensor of that layer and expert whose projection is
  -- present. It is a load with the cache on, without load_all, of a layer of the model, where all
  -- experts have fewer than 2^64 bytes, from a state that keeps the invariant and whose finished
  -- speculative reads are of entries of the cache.
  pub load_layer_async-Told :
      (load_layer_async vm two_wave s il ids st).1 ≡ true
      → Steps (start_run (load_layer_async vm two_wave s il ids st).0) r
      → r.shared.batch.done_cnt ≡ r.shared.batch.njobs
      → Routed s.n_expert
          (λ e. (r.shared.cache.cvalid (entry_id s il e) ≡ true) × Told s texp il r.shared e)
          ids
  load_layer_async-Told ok steps all =
      let u = (load_layer_async vm two_wave s il ids st).0 in
      let (ys, v) = (load_layer_async-Promise vm two_wave s il ids st xs fits hl k b on).1 ok in
      let (named, below) = routed_set-Routed s ids in
      let d = Steps-Draining u (start_run u) r (start_run-Draining u _ v.published) steps in
      subst (Routed s.n_expert _) (all_wanted_plain s 0 ids plain) (
        Routed-mono s.n_expert _ _ _
          (λ e h. (
            ap (λ (c : Cache). c.cvalid (entry_id s il e)) d.same_cache ∙ (v.routed e h).0,
            λ src0 packed found same m present.
                let f = flag_of s (packed % 256) e in
                let now : r.shared.ready f ≡ r.shared.async_gen =
                  drained u r _ f v.published d all
                    (elim ((v.routed e h).1 (packed % 256) m present) [
                      | inl before ↦ inl (before ∙ v.gen_is)
                      | inr job ↦ inr job
                    ])
                  ∙ sym v.gen_is
                  ∙ sym d.same_gen in
                on_expert_ready-flag s texp src0 packed e il r.shared found (below e h)
                  (d.same_il ∙ v.current) same
                ∙ ap (λ a. (r.shared, a)) (answer_flag-resident s r.shared (packed % 256) e now),
          ))
          named)

answer-ready :
    (b f : Bool) → (if b then resident else if f then aborted else blocked) ≡ resident → b ≡ true
answer-ready true f h = refl
answer-ready false true h = cc
answer-ready false false h = cc

-- While the lanes work on a published batch and no read has failed, the hook says that a slice of
-- the layer in flight is there only if its flag carried the generation when the batch was
-- published, or a job of the batch that publishes this flag has been read.
pub resident-WasRead :
    (s : Shape) (texp : Texp) (src0 packed e gen : ℕ) (st : Overlap) (r : Run)
    → Published gen st.batch
    → st.async_gen ≡ gen
    → st.cur_il ≡ some (packed / 256)
    → Steps (start_run st) r
    → r.shared.fatal ≡ false
    → lower_bound src0 texp ≡ some (src0, packed)
    → e < s.n_expert
    → on_expert_ready s texp src0 (pos e) r.shared ≡ (r.shared, resident)
    → let f = flag_of s (packed % 256) e in (st.ready f ≡ gen) ⊎ WasRead st.batch.jobs f r.read
resident-WasRead s texp src0 packed e gen st r p ag cur steps fine found he told =
    let d = Steps-Draining st (start_run st) r (start_run-Draining st gen p) steps in
    let f = flag_of s (packed % 256) e in
    let says : answer_flag s r.shared (packed % 256) e ≡ resident =
      ap (λ (q : Overlap × Answer). q.1)
        (sym (
            on_expert_ready-flag s texp src0 packed e (packed / 256) r.shared found he
              (d.same_il ∙ cur) refl)
          ∙ told) in
    let now : (r.shared.ready f == r.shared.async_gen) ≡ true =
      answer-ready _ r.shared.fatal says in
    elim (d.earned f fine (ground (arith, now, d.same_gen, ag, p.flags))) [
      | inl before ↦ inl (before ∙ p.flags)
      | inr read ↦ inr read
    ]
