-- ===== src/Prefetch/Join.antt =====
-- The serial `load_layer` on a source that adopts, in two halves around its wait for the lanes.
use mathlib.Core.Path.{subst}
use meitte.Base.{
  Option, none, ℕ, ◌+◌, ◌%◌, ◌^◌, ◌<◌, ◌≡◌, ◌≢◌, refl, Bool, true, false, List, [], ◌∷◌, some,
  arith, Distinct, AllBelow, Routed, ℤ, sym, ◌∙◌, ◌==◌,
}
use meitte.Cache.{Shape, Vm, Cache, n_entry}
use meitte.Cache.Load.{Reads, Loaded, Staging, stage_all, finish_load}
use meitte.Cache.Loaded.{all_wanted_plain, stage_all-Stages}
use meitte.Cache.LoadLayer.{LoadOk, finish_load-LoadOk}
use meitte.Cache.Staged.{Staged}
use meitte.Cache.Invariant.{Keeps, Fits, same-Keeps}
use meitte.Prefetch.Defs.{Spec}
use meitte.Prefetch.Lanes.{take_spec, land_spec, account_read, count_down}
use meitte.Prefetch.Settle.{
  eligible, integrate_done, integrate_done_entry, spec_integrate_done, adopt_layer,
}
use meitte.Prefetch.Steps.{taken, landed, Works, idle, then_work, adopted}
use meitte.Prefetch.Cached.{SameReads-Sound, spec_integrate_done-fields}
use meitte.Prefetch.Reached.{Work-Sound, Work-forgot, SpecStep-Sound}
use meitte.Prefetch.Kept.{spec_integrate_done-Keeps}
use meitte.Prefetch.Whole.{Whole, Work-Whole, SpecStep-Whole}

-- Up to the wait of `quiesce_spec(il)`: the generation of the load, and the layer's jobs come first.
unfoldable pub begin_join : ℕ → Cache → Cache
unfolding adopt_layer
begin_join il c = adopt_layer il (record c { cgen = (c.cgen + 1) % 2 ^ 32 })

-- From the end of the wait on, for at least one id: what is done is integrated, then comes the staging
-- of every load.
unfoldable pub end_join : Vm → Reads → Shape → ℕ → List ℤ → Cache → Loaded
unfolding spec_integrate_done
end_join vm reads s il ids c = finish_load reads s il (
    stage_all vm s il ids
      (record { cache = spec_integrate_done true s c; seen = λ _. false; jobs = []; n_unique = 0 }))

integrate_done_max :
    (adopt : Bool) (s : Shape) (ids : List ℕ) (c : Cache)
    → (integrate_done adopt s ids c).cache_max ≡ c.cache_max
unfolding integrate_done integrate_done_entry
integrate_done_max adopt s [] c = refl
integrate_done_max adopt s (id ∷ ids) c = integrate_done_max adopt s ids _

pub spec_integrate_done_max :
    (adopt : Bool) (s : Shape) (c : Cache) → (spec_integrate_done adopt s c).cache_max ≡ c.cache_max
unfolding spec_integrate_done
spec_integrate_done_max adopt s c = integrate_done_max adopt s (eligible c c.spec_done) _

account_read_max :
    (adopt ok current : Bool) (flag : Option ℕ) (c : Cache)
    → (account_read adopt ok current flag c).cache_max ≡ c.cache_max
unfolding account_read count_down
account_read_max adopt ok current none c = refl
account_read_max adopt ok current (some id) c = ground arith

Works-max : {v w : Spec} → Works v w → w.cache.cache_max ≡ v.cache.cache_max
unfolding take_spec land_spec
Works-max idle = refl
Works-max (then_work u w before (taken j at)) = Works-max before
Works-max (then_work u w before (landed ok n f at)) =
    account_read_max u.adopt ok (f.gen == u.cache.spec_gen) f.job.flag u.cache ∙ Works-max before

pub Works-forgot : {v w : Spec} → Works v w → w.forgot ≡ false → v.forgot ≡ false
Works-forgot idle fine = fine
Works-forgot (then_work u w before last) fine = Works-forgot before (Work-forgot last fine)

module _ (s : Shape) (fits : Fits s) where
  Works-Whole : {v w : Spec} → Works v w → w.forgot ≡ false → Whole s v → Whole s w
  Works-Whole idle fine h = h
  Works-Whole (then_work u w before last) fine h =
      let b = Works-Whole before (Work-forgot last fine) h in
      Work-Whole s fits last (Work-Sound last fine b.sound) b

  -- The start of a load is an adoption.
  begin_join-Whole :
      (il : ℕ) (v : Spec)
      → v.quiescing ≡ false
      → v.adopt ≡ true
      → v.forgot ≡ false
      → Whole s v
      → Whole s (record v { cache = begin_join il v.cache })
  unfolding begin_join
  begin_join-Whole il v going on fine h =
      let d : Cache = record v.cache { cgen = (v.cache.cgen + 1) % 2 ^ 32 } in
      let u : Spec = record v { cache = d } in
      let k : Whole s u = record {
        sound =
            SameReads-Sound s v d
              (record {
                same_jobs = refl;
                same_next = refl;
                same_gen = refl;
                same_touched = refl;
                same_remaining = refl;
              })
              (λ id m. m) h.sound.quiet h.sound.filled h.sound;
        ordered = record {
          once = h.ordered.once;
          below = h.ordered.below;
          queued = h.ordered.queued;
          flying = h.ordered.flying;
        };
        order = h.order;
        keeps = same-Keeps s v.cache d h.order refl refl refl h.keeps;
      } in
      SpecStep-Whole s fits (adopted il going on)
        (SpecStep-Sound (adopted il going on) fine k.sound) k

  module _ (vm : Vm) (reads : Reads) (il : ℕ) (hl : il < s.n_layer)
      (plain : s.load_all ≡ false) where
    end_join-LoadOk :
        (z : ℤ) (zs : List ℤ) (c : Cache) (xs : List ℕ)
        → Keeps s c xs
        → Distinct c.spec_done
        → AllBelow (n_entry s) c.spec_done
        → c.cache_max ≢ 0
        → let r = end_join vm reads s il (z ∷ zs) c in
          r.success ≡ true
          → (ys : List ℕ) × LoadOk s il
              (spec_integrate_done true s c).cgen
              c.cache_max
              (z ∷ zs)
              r.cache
              ys
    unfolding end_join
    end_join-LoadOk z zs c xs k once b on ok =
        let d = spec_integrate_done true s c in
        let (ys, kept) = spec_integrate_done-Keeps s fits true c xs k once b in
        let start : Staging = record { cache = d; seen = λ _. false; jobs = []; n_unique = 0 } in
        let v : Staged s il d.cgen c.cache_max start true ys = record {
          keeps = kept;
          gen = refl;
          budget = spec_integrate_done_max true s c;
          done = (spec_integrate_done-fields true s c).0;
          present = λ ok e h. cc;
        } in
        let (w, saw) = stage_all-Stages s fits vm il hl d.cgen c.cache_max on (z ∷ zs) start ys v in
        (finish_load-LoadOk s fits il d.cgen c.cache_max on reads (z ∷ zs) _ w.order w.staged
            (λ ok. subst (Routed s.n_expert _) (all_wanted_plain s 0 (z ∷ zs) plain) (saw ok))).1
          ok

    -- Whatever the lanes do during the wait, a load that adopts and succeeds leaves every expert that
    -- it names resident.
    pub join-LoadOk :
        (z : ℤ) (zs : List ℤ) (v w : Spec)
        → Whole s v
        → v.quiescing ≡ false
        → v.adopt ≡ true
        → v.forgot ≡ false
        → v.cache.cache_max ≢ 0
        → Works (record v { cache = begin_join il v.cache }) w
        → w.forgot ≡ false
        → let r = end_join vm reads s il (z ∷ zs) w.cache in
          r.success ≡ true
          → (ys : List ℕ) × LoadOk s il
              (spec_integrate_done true s w.cache).cgen
              v.cache.cache_max
              (z ∷ zs)
              r.cache
              ys
    unfolding begin_join
    join-LoadOk z zs v w h going on sane big works fine ok =
        let k = Works-Whole works fine (begin_join-Whole il v going on sane h) in
        let m : w.cache.cache_max ≡ v.cache.cache_max = Works-max works in
        rw (← m) (
          end_join-LoadOk z zs w.cache k.order k.keeps k.ordered.once k.ordered.below
            (λ e. big (sym m ∙ e)) ok)
