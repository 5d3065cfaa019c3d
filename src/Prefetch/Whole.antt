-- ===== src/Prefetch/Whole.antt =====
-- Speculation and the cache together: every interleaving keeps both invariants.
use meitte.Base.{ℕ, ◌≡◌, refl, Bool, false, List, ℤ, ◌<◌, sym, ◌∙◌, ◌==◌}
use meitte.Cache.{Shape, Vm, Cache, n_entry}
use meitte.Cache.Entry.{evict_entry}
use meitte.Cache.Invariant.{Keeps, Fits, same-Keeps}
use meitte.Cache.Touch.{touch_entry-Keeps, evict_entry-Keeps}
use meitte.Cache.Evict.{remove-last}
use meitte.Prefetch.Defs.{Spec}
use meitte.Prefetch.Issue.{issue, publish_staged}
use meitte.Prefetch.Lanes.{take_spec, land_spec}
use meitte.Prefetch.Settle.{cancel_spec, adopt_layer}
use meitte.Prefetch.Steps.{
  Work, taken, landed, SpecStep, worked, issued, settled, cancelled, harvested, adopted, demanded,
  evicted, SpecSteps, stay, more,
}
use meitte.Prefetch.Sound.{Sound}
use meitte.Prefetch.Staging.{jobs_of}
use meitte.Prefetch.Issued.{issue-Chosen}
use meitte.Prefetch.Reads.{candidates-fresh}
use meitte.Prefetch.Cached.{spec_integrate_done-fields}
use meitte.Prefetch.Demand.{touch_entry-Looked}
use meitte.Prefetch.Quiesced.{harvest_spec-fields}
use meitte.Prefetch.Reached.{IsIdle, start_spec, start_spec-Sound, SpecStep-Sound, SpecStep-forgot}
use meitte.Prefetch.Ordered.{
  Ordered, append-JobsBelow, jobs_of-JobsBelow, adopt_layer-Ordered, take_spec-Ordered,
  land_spec-Ordered,
}
use meitte.Prefetch.Kept.{spec_integrate_done-Keeps, harvest_spec-Keeps, account_read-Keeps}

-- The resident entries are in some order, the byte count is theirs, and the entries that wait to be
-- integrated are entries of the cache.
pub record Whole (s : Shape) (v : Spec) : Type 0 where
  pub sound : Sound s v
  pub ordered : Ordered s v
  pub order : List ℕ
  pub keeps : Keeps s v.cache order

issue-Ordered :
    (vm : Vm) (s : Shape) (il : ℕ) (ids : List ℤ) (v : Spec)
    → il < s.n_layer
    → Ordered s v
    → Ordered s (issue vm s il ids v)
unfolding issue publish_staged
issue-Ordered vm s il ids v hl o =
    let ch = issue-Chosen vm s il ids v in
    let u = ch.untouched in
    record {
      once = rw u.same_done o.once;
      below = rw u.same_done o.below;
      queued =
          rw (ch.all_jobs, u.same.same_jobs)
            (append-JobsBelow (n_entry s) v.cache.spec_jobs (jobs_of s il ch.experts) o.queued (
              jobs_of-JobsBelow s il ch.experts hl
                (λ e m. (candidates-fresh s v.cache il ids e (ch.among e m)).0)));
      flying = o.flying;
    }

issue-Keeps :
    (vm : Vm) (s : Shape) (il : ℕ) (ids : List ℤ) (v : Spec) (xs : List ℕ)
    → Keeps s v.cache xs
    → Keeps s (issue vm s il ids v).cache xs
unfolding issue publish_staged
issue-Keeps vm s il ids v xs k =
    let u = (issue-Chosen vm s il ids v).untouched in
    same-Keeps s v.cache _ xs u.same_links u.same_valid u.same_resident k

module _ (s : Shape) (fits : Fits s) where
  pub Work-Whole : {v w : Spec} → Work v w → Sound s w → Whole s v → Whole s w
  Work-Whole {v} (taken j at) k h = record {
    sound = k;
    ordered = take_spec-Ordered s j v at h.ordered;
    order = h.order;
    keeps = unfold take_spec in same-Keeps s v.cache _ h.order refl refl refl h.keeps;
  }
  Work-Whole {v} (landed ok n f at) k h = record {
    sound = k;
    ordered = land_spec-Ordered s ok n f v at h.sound.settled h.ordered;
    order = h.order;
    keeps =
        unfold land_spec in
        account_read-Keeps s fits v.adopt ok (f.gen == v.cache.spec_gen) f.job.flag v.cache h.order
          h.keeps;
  }

  pub SpecStep-Whole : {v w : Spec} → SpecStep s v w → Sound s w → Whole s v → Whole s w
  SpecStep-Whole (worked w last) k h = Work-Whole last k h
  SpecStep-Whole {v} (issued vm il ids hl going once undone) k h = record {
    sound = k;
    ordered = issue-Ordered vm s il ids v hl h.ordered;
    order = h.order;
    keeps = issue-Keeps vm s il ids v h.order h.keeps;
  }
  SpecStep-Whole {v} (settled going) k h =
      let (ys, kept) =
        spec_integrate_done-Keeps s fits v.adopt v.cache h.order h.keeps h.ordered.once
          h.ordered.below in
      let (d, j) = spec_integrate_done-fields v.adopt s v.cache in
      record {
        sound = k;
        ordered = record {
          once = rw d tt;
          below = rw d tt;
          queued = rw j h.ordered.queued;
          flying = h.ordered.flying;
        };
        order = ys;
        keeps = kept;
      }
  SpecStep-Whole {v} (cancelled going) k h = record {
    sound = k;
    ordered =
        unfold cancel_spec in
        record {
          once = h.ordered.once;
          below = h.ordered.below;
          queued = tt;
          flying = h.ordered.flying;
        };
    order = h.order;
    keeps = unfold cancel_spec in same-Keeps s v.cache _ h.order refl refl refl h.keeps;
  }
  SpecStep-Whole {v} (harvested waiting down) k h =
      let (ys, kept) = harvest_spec-Keeps s fits v.cache h.order h.keeps h.ordered.below in
      let (d, j) = harvest_spec-fields s v waiting down h.sound in
      record {
        sound = k;
        ordered = record {
          once = rw d tt;
          below = rw d tt;
          queued = rw j h.ordered.queued;
          flying = h.ordered.flying;
        };
        order = ys;
        keeps = kept;
      }
  SpecStep-Whole {v} (adopted il going on) k h = record {
    sound = k;
    ordered = adopt_layer-Ordered s il v h.ordered;
    order = h.order;
    keeps = unfold adopt_layer in same-Keeps s v.cache _ h.order refl refl refl h.keeps;
  }
  SpecStep-Whole {v} (demanded vm il e promote only hl he going none_left) k h =
      let l = touch_entry-Looked vm s il e promote only v.cache in
      record {
        sound = k;
        ordered = record {
          once = rw l.same_done h.ordered.once;
          below = rw l.same_done h.ordered.below;
          queued = rw l.same.same_jobs h.ordered.queued;
          flying = h.ordered.flying;
        };
        order = _;
        keeps = touch_entry-Keeps s fits vm il e hl he promote only v.cache h.order h.keeps;
      }
  SpecStep-Whole {v} (evicted id going at) k h =
      let (m, e) = remove-last id h.order h.keeps.holds.distinct (sym h.keeps.holds.at_tail ∙ at) in
      record {
        sound = k;
        ordered =
            unfold evict_entry in
            record {
              once = h.ordered.once;
              below = h.ordered.below;
              queued = h.ordered.queued;
              flying = h.ordered.flying;
            };
        order = _;
        keeps = evict_entry-Keeps s fits v.cache h.order h.keeps id m;
      }

  SpecSteps-Whole : {v w : Spec} → SpecSteps s v w → w.forgot ≡ false → Whole s v → Whole s w
  SpecSteps-Whole stay fine h = h
  SpecSteps-Whole (more u w before last) fine h =
      let b = SpecSteps-Whole before (SpecStep-forgot last fine) h in
      SpecStep-Whole last (SpecStep-Sound last fine b.sound) b

  -- In whatever order these steps come, the invariant of the cache is kept, where all experts have
  -- fewer than 2^64 bytes: from a state in which nothing has been speculated, unless a failed read
  -- has reset an entry, which only a source that adopts does, and where an issue names an expert
  -- once and no entry that waits to be integrated.
  pub SpecSteps-Keeps :
      (adopt : Bool) (c : Cache) (xs : List ℕ) (w : Spec)
      → IsIdle c
      → Keeps s c xs
      → SpecSteps s (start_spec adopt c) w
      → w.forgot ≡ false
      → (ys : List ℕ) × Keeps s w.cache ys
  SpecSteps-Keeps adopt c xs w fresh k run fine =
      let h = SpecSteps-Whole run fine (record {
        sound = start_spec-Sound s adopt c fresh;
        ordered = record {
          once = rw fresh.none_done tt;
          below = rw fresh.none_done tt;
          queued = rw fresh.no_jobs tt;
          flying = tt;
        };
        order = xs;
        keeps = k;
      }) in
      (h.order, h.keeps)
