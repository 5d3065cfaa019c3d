-- ===== src/Overlap/Early.antt =====
-- A load marks ready only what was resident: no flag is early.
use meitte.Base.{
  ℕ, ◌+◌, ◌%◌, ◌^◌, ◌<◌, ◌≡◌, ◌≢◌, refl, inl, inr, ◌⊎◌, Bool, true, false, List, [], ◌∷◌, Option,
  none, some, arith, elem, Distinct, Bool-cases, ◌==◌, ◌∙◌, ap, update, sym, if◌then◌else◌, ℤ,
  length,
}
use meitte.Cache.{Shape, Vm, Cache, entry_id}
use meitte.Cache.Entry.{
  Touch, refused, hit, miss, touch_entry, projections, after_commit, enter_entry, count_hit,
}
use meitte.Cache.Load.{account_demand}
use meitte.Cache.Invariant.{Fits}
use meitte.Cache.Touch.{OnlyOs, commit_projs-OnlyOs}
use meitte.Overlap.Routing.{routed_set-Distinct, routed_set-Routed}
use meitte.Overlap.Lookup.{touch_entry_hit}
use meitte.Overlap.Defs.{Overlap, flag_of}
use meitte.Overlap.Start.{
  Looked, mark_projs, after_lookup, and_next, lookup_all, finish_second, finish_lookups,
  load_routed, open_load, load_layer_async, routed_set, first_wave, publish_first, commit_missed,
}

mark_projs-back :
    (s : Shape) (il gen e : ℕ) (ps : List ℕ) (ready : ℕ → ℕ) (f : ℕ)
    → mark_projs s il gen e ps ready f ≡ gen
    → (ready f ≡ gen) ⊎ ((p : ℕ) × (f ≡ flag_of s p e))
unfolding mark_projs
mark_projs-back s il gen e [] ready f h = inl h
mark_projs-back s il gen e (p ∷ ps) ready f h =
    by_present (s.nb2 il p == 0) (mark_projs-back s il gen e ps _ f h)
  where
    by_present :
        (b : Bool)
        → ((if b then ready else update ready (flag_of s p e) gen) f ≡ gen)
          ⊎ ((q : ℕ) × (f ≡ flag_of s q e))
        → (ready f ≡ gen) ⊎ ((q : ℕ) × (f ≡ flag_of s q e))
    by_present b (inr x) = inr x
    by_present true (inl x) = inl x
    by_present false (inl x) = elim (Bool-cases (flag_of s p e == f)) [
      | inl same ↦ inr (p, ground arith)
      | inr other ↦ inl (ground arith)
    ]

-- A lookup enters no other entry.
after_commit-cvalid :
    (s : Shape) (il id i : ℕ) (c : Cache) (r : Cache × Bool)
    → OnlyOs c r.0
    → i ≢ id
    → (after_commit s il id r).0.cvalid i ≡ c.cvalid i
unfolding enter_entry
after_commit-cvalid s il id i c (d, true) h ne =
    let same : d.cvalid i ≡ c.cvalid i = ap (λ (z : Cache). z.cvalid i) h in ground arith
after_commit-cvalid s il id i c (d, false) h ne = ap (λ (z : Cache). z.cvalid i) h

touch_entry-cvalid :
    (vm : Vm) (s : Shape) (il e i : ℕ) (only : Option ℕ) (c : Cache)
    → i ≢ entry_id s il e
    → (touch_entry vm s il e false only c).0.cvalid i ≡ c.cvalid i
unfolding touch_entry count_hit
touch_entry-cvalid vm s il e i only c ne =
    let id = entry_id s il e in
    let looked : Cache = record c {
      clookups = c.clookups + 1;
      cstamp = update c.cstamp id c.cgen;
    } in
    elim (Bool-cases (c.cvalid id)) [
      | inl there ↦ rw (there, touch_entry) (ground arith)
      | inr absent ↦
          rw (absent, touch_entry)
            (after_commit-cvalid s il id i looked _
              (commit_projs-OnlyOs vm s il e only projections looked) ne)
    ]

-- The flag is of an expert of the layer whose entry was resident.
abbrev pub Hit : Shape → ℕ → (ℕ → Bool) → ℕ → Type 0
Hit s il valid f =
    (e : ℕ) × (p : ℕ) × (e < s.n_expert) × (f ≡ flag_of s p e) × (valid (entry_id s il e) ≡ true)

module _ (vm : Vm) (s : Shape) (fits : Fits s) (il : ℕ) (hl : il < s.n_layer) (cg gen m : ℕ)
    (valid : ℕ → Bool) where
  after_lookup-Hit :
      (e : ℕ) (l : Looked) (r : Cache × Touch) (f : ℕ)
      → e < s.n_expert
      → (r.1 ≡ hit → valid (entry_id s il e) ≡ true)
      → (after_lookup s il gen e l r).0.ready f ≡ gen
      → (l.ready f ≡ gen) ⊎ Hit s il valid f
  after_lookup-Hit e l (d, refused) f he there h = inl h
  after_lookup-Hit e l (d, miss) f he there h = inl h
  after_lookup-Hit e l (d, hit) f he there h =
      elim (mark_projs-back s il gen e projections l.ready f h) [
        | inl before ↦ inl before
        | inr (p, at) ↦ inr (e, p, he, at, there refl)
      ]

  after_lookup-cvalid :
      (e i : ℕ) (l : Looked) (r : Cache × Touch)
      → (after_lookup s il gen e l r).0.cache.cvalid i ≡ r.0.cvalid i
  after_lookup-cvalid e i l (d, refused) = refl
  after_lookup-cvalid e i l (d, miss) = refl
  after_lookup-cvalid e i l (d, hit) = refl

  pub lookup_all-Hit :
      (only : Option ℕ) (es : List ℕ) (l : Looked) (f : ℕ)
      → Distinct es
      → ((e : ℕ) → elem e es ≡ true → e < s.n_expert)
      → ((e : ℕ) → elem e es ≡ true → l.cache.cvalid (entry_id s il e) ≡ valid (entry_id s il e))
      → (lookup_all vm s il gen only es l).0.ready f ≡ gen
      → (l.ready f ≡ gen) ⊎ Hit s il valid f
  unfolding lookup_all
  lookup_all-Hit only [] l f d lt v h = inl h
  lookup_all-Hit only (e ∷ es) l f d lt v h =
      next (after_lookup s il gen e l (touch_entry vm s il e false only l.cache))
        (λ k.
          after_lookup-Hit e l (touch_entry vm s il e false only l.cache) f (lt e (ground arith))
            (λ t.
              sym (v e (ground arith)) ∙ touch_entry_hit s fits vm il hl cg gen m e only l.cache t)
            k)
        (λ i q.
          after_lookup-cvalid e (entry_id s il i) l (touch_entry vm s il e false only l.cache)
          ∙ touch_entry-cvalid vm s il e (entry_id s il i) only l.cache
              (λ z. absurd (ne i q (omega (arith, z))))
          ∙ v i (ground arith))
        (λ u w k. lookup_all-Hit only es u f d.1 (λ i q. lt i (ground arith)) w k) h
    where
      ne : (i : ℕ) → elem i es ≡ true → i ≢ e
      ne i q z = absurd (ground arith)

      next :
          (r : Looked × Bool)
          → (r.0.ready f ≡ gen → (l.ready f ≡ gen) ⊎ Hit s il valid f)
          → ((i : ℕ)
              → elem i es ≡ true
              → r.0.cache.cvalid (entry_id s il i) ≡ valid (entry_id s il i))
          → ((u : Looked)
              → ((i : ℕ)
                  → elem i es ≡ true
                  → u.cache.cvalid (entry_id s il i) ≡ valid (entry_id s il i))
              → (lookup_all vm s il gen only es u).0.ready f ≡ gen
              → (u.ready f ≡ gen) ⊎ Hit s il valid f)
          → (and_next r (λ u. lookup_all vm s il gen only es u)).0.ready f ≡ gen
          → (l.ready f ≡ gen) ⊎ Hit s il valid f
      next (u, false) a b rest k = a k
      next (u, true) a b rest k = elim (rest u b k) [ inl x ↦ a x | inr x ↦ inr x ]

  -- The rest of the load changes no flag.
  finish_second-ready :
      (ids : List ℤ) (p0 : ℕ) (l : Looked) (es : List ℕ) (st : Overlap) (r : Cache × Bool)
      → (finish_second s il ids p0 l es st r).0.ready ≡ st.ready
  finish_second-ready ids p0 l es st (c, true) = refl
  finish_second-ready ids p0 l es st (c, false) = refl

  finish_lookups-ready :
      (ids : List ℤ) (es : List ℕ) (wave : Option ℕ) (st : Overlap) (r : Looked × Bool)
      → (finish_lookups vm s il ids es wave st r).0.ready ≡ r.0.ready
  unfolding finish_lookups
  finish_lookups-ready ids es wave st (l, false) = refl
  finish_lookups-ready ids es none st (l, true) = refl
  finish_lookups-ready ids es (some p0) st (l, true) =
      finish_second-ready ids p0 l es (publish_first s il es p0 l st)
        (commit_missed vm s il p0 l.missed es l.cache)

pub open_load-async_gen :
    (s : Shape) (il : ℕ) (st : Overlap)
    → ((open_load s il st).async_gen ≡ (st.async_gen + 1) % 2 ^ 32)
      × ((open_load s il st).cur_il ≡ some il)
unfolding open_load
open_load-async_gen s il st = (refl, refl)

open_load-ready : (s : Shape) (il : ℕ) (st : Overlap) → (open_load s il st).ready ≡ st.ready
unfolding open_load
open_load-ready s il st = refl

module _ (vm : Vm) (s : Shape) (fits : Fits s) (il : ℕ) (hl : il < s.n_layer) where
  load_routed-Hit :
      (two_wave : Bool) (ids : List ℤ) (es : List ℕ) (st : Overlap) (f : ℕ)
      → Distinct es
      → ((e : ℕ) → elem e es ≡ true → e < s.n_expert)
      → st.cache.cache_max ≢ 0
      → (load_routed vm two_wave s il ids es st).0.ready f ≡ st.async_gen
      → (st.ready f ≡ st.async_gen) ⊎ Hit s il st.cache.cvalid f
  unfolding load_routed account_demand
  load_routed-Hit two_wave ids es st f d lt on h =
      let off : (st.cache.cache_max == 0) ≡ false = ground arith in
      let wave = first_wave two_wave s il in
      let start : Looked = record {
        cache = account_demand s il (length es) st.cache;
        ready = st.ready;
        missed = λ _. false;
      } in
      let same =
        finish_lookups-ready vm s fits il hl st.cache.cgen st.async_gen st.cache.cache_max
          st.cache.cvalid ids es wave (record st { cache = st.cache })
          (lookup_all vm s il st.async_gen wave es start) in
      lookup_all-Hit vm s fits il hl st.cache.cgen st.async_gen st.cache.cache_max st.cache.cvalid
        wave es start f d lt (λ e q. refl) (sym (ap (λ (r : ℕ → ℕ). r f) same) ∙ (rw off at h))

  -- Where no flag carries the generation to come, the flags that carry it after an overlapped load
  -- are of experts that were resident once the load had settled the speculation.
  pub load_layer_async-Hit :
      (two_wave : Bool) (ids : List ℤ) (st : Overlap) (f : ℕ)
      → (open_load s il st).cache.cache_max ≢ 0
      → st.ready f ≢ (open_load s il st).async_gen
      → (load_layer_async vm two_wave s il ids st).0.ready f ≡ (open_load s il st).async_gen
      → Hit s il (open_load s il st).cache.cvalid f
  unfolding load_layer_async
  load_layer_async-Hit two_wave ids st f on fresh = unless st.fatal _ (λ h.
      elim (load_routed-Hit two_wave ids (routed_set s ids) (open_load s il st) f
        (routed_set-Distinct s ids) (routed_set-Routed s ids).1 on h) [
          | inl before ↦
              absurd (fresh (sym (ap (λ (r : ℕ → ℕ). r f) (open_load-ready s il st)) ∙ before))
          | inr found ↦ found
        ])
    where
      unless :
          (b : Bool) (r : Overlap × Bool)
          → (r.0.ready f ≡ (open_load s il st).async_gen
              → Hit s il (open_load s il st).cache.cvalid f)
          → (if b then (st, false) else r).0.ready f ≡ (open_load s il st).async_gen
          → Hit s il (open_load s il st).cache.cvalid f
      unless true r g h = absurd (fresh h)
      unless false r g h = g h
