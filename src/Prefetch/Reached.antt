-- ===== src/Prefetch/Reached.antt =====
-- What holds in every state that the eval thread and the lanes reach.
use meitte.Base.{ℕ, ◌≡◌, refl, Bool, true, false, [], arith, ◌∙◌}
use meitte.Cache.{Shape, Cache}
use meitte.Prefetch.Defs.{Spec}
use meitte.Prefetch.Lanes.{land_spec, take_spec}
use meitte.Prefetch.Issue.{issue}
use meitte.Prefetch.Count.{of_entry, pending}
use meitte.Prefetch.Steps.{
  Work, taken, landed, Works, idle, then_work, SpecStep, worked, issued, settled, cancelled,
  harvested, adopted, demanded, evicted, SpecSteps, stay, more,
}
use meitte.Prefetch.Sound.{Filled, Sound}
use meitte.Prefetch.Work.{take_spec-Sound}
use meitte.Prefetch.Land.{land_spec-Sound}
use meitte.Prefetch.Cached.{spec_integrate_done-Sound}
use meitte.Prefetch.Demand.{touch_entry-Sound, evict_entry-Sound}
use meitte.Prefetch.Quiesced.{cancel_spec-Sound, harvest_spec-Sound, adopt_layer-Sound}
use meitte.Prefetch.Issued.{issue-Sound}

-- Nothing has been speculated yet.
pub record IsIdle (c : Cache) : Type 0 where
  pub no_jobs : c.spec_jobs ≡ []
  pub none_taken : c.spec_next ≡ 0
  pub none_left : (id : ℕ) → c.spec_remaining id ≡ 0
  pub none_done : c.spec_done ≡ []
  pub no_guess : (id : ℕ) → c.cspec id ≡ false

abbrev pub start_spec : Bool → Cache → Spec
start_spec adopt c = record {
  cache = c;
  adopt = adopt;
  quiescing = false;
  flight = [];
  read_bytes = 0;
  got = λ id p. false;
  lost = [];
  forgot = false;
}

pub start_spec-Sound :
    (s : Shape) (adopt : Bool) (c : Cache) → IsIdle c → Sound s (start_spec adopt c)
start_spec-Sound s adopt c h = record {
  bounded = omega (arith, h.none_taken);
  touched = λ id g. absurd (g (h.none_left id));
  quiet = λ id g. rw (h.no_jobs, h.none_taken) refl;
  settled = λ id g. h.none_left id;
  whole = λ id g. absurd (ground (arith, rw h.none_done at g));
  filled = λ id g e. absurd (ground (arith, e, h.no_guess id));
  live = λ g. record {
    gens = tt;
    counted = λ id. h.none_left id ∙ rw (h.no_jobs, h.none_taken) refl;
    covered = λ id p a b c d. absurd (a (h.none_left id));
  };
  paused = λ g. absurd (ground (arith, g));
}

pub Work-forgot : {v w : Spec} → Work v w → w.forgot ≡ false → v.forgot ≡ false
unfolding take_spec land_spec
Work-forgot (taken j at) h = h
Work-forgot (landed ok n f at) h = ground (arith, h)

pub Work-Sound : {s : Shape} {v w : Spec} → Work v w → w.forgot ≡ false → Sound s v → Sound s w
Work-Sound {s} {v} (taken j at) fine k = take_spec-Sound s j v at k
Work-Sound {s} {v} (landed ok n f at) fine k = land_spec-Sound s ok n f v at fine k

pub Works-Sound : {s : Shape} {v w : Spec} → Works v w → w.forgot ≡ false → Sound s v → Sound s w
Works-Sound idle fine k = k
Works-Sound (then_work u w before last) fine k =
    Work-Sound last fine (Works-Sound before (Work-forgot last fine) k)

pub SpecStep-forgot :
    {s : Shape} {v w : Spec} → SpecStep s v w → w.forgot ≡ false → v.forgot ≡ false
unfolding issue
SpecStep-forgot (worked w last) h = Work-forgot last h
SpecStep-forgot (issued vm il ids lt going once undone) h = h
SpecStep-forgot (settled going) h = h
SpecStep-forgot (cancelled going) h = h
SpecStep-forgot (harvested waiting down) h = h
SpecStep-forgot (adopted il going on) h = h
SpecStep-forgot (demanded vm il e promote only hl he going none_left) h = h
SpecStep-forgot (evicted id going at) h = h

pub SpecStep-Sound :
    {s : Shape} {v w : Spec} → SpecStep s v w → w.forgot ≡ false → Sound s v → Sound s w
SpecStep-Sound (worked w last) fine k = Work-Sound last fine k
SpecStep-Sound {s} {v} (issued vm il ids lt going once undone) fine k =
    issue-Sound vm s il ids v once undone going k
SpecStep-Sound {s} {v} (settled going) fine k = spec_integrate_done-Sound s v going k
SpecStep-Sound {s} {v} (cancelled going) fine k = cancel_spec-Sound s v going k
SpecStep-Sound {s} {v} (harvested waiting down) fine k = harvest_spec-Sound s v waiting down k
SpecStep-Sound {s} {v} (adopted il going on) fine k = adopt_layer-Sound s il v going k
SpecStep-Sound {s} {v} (demanded vm il e promote only hl he going none_left) fine k =
    touch_entry-Sound vm s il e promote only v going none_left k
SpecStep-Sound {s} {v} (evicted id going at) fine k = evict_entry-Sound s id v k

pub SpecSteps-Sound :
    {s : Shape} {v w : Spec} → SpecSteps s v w → w.forgot ≡ false → Sound s v → Sound s w
SpecSteps-Sound stay fine k = k
SpecSteps-Sound (more u w before last) fine k =
    SpecStep-Sound last fine (SpecSteps-Sound before (SpecStep-forgot last fine) k)

module _ (s : Shape) (adopt : Bool) (c : Cache) (fresh : IsIdle c) (w : Spec)
    (run : SpecSteps s (start_spec adopt c) w) (fine : w.forgot ≡ false) where
  -- In whatever order the eval thread issues, integrates, cancels or adopts speculation, looks up
  -- and evicts, and the lanes make the reads, no resident entry has a read queued or in flight, so
  -- that an eviction never hands back pages that a lane is to write: from a state in which nothing
  -- has been speculated, unless a failed read has reset an entry, which only a source that adopts
  -- does, and where an issue names an expert once and no entry that waits to be integrated.
  pub resident-Quiet : (id : ℕ) → w.cache.cvalid id ≡ true → pending (of_entry id) w ≡ 0
  resident-Quiet = (SpecSteps-Sound run fine (start_spec-Sound s adopt c fresh)).quiet

  -- In whatever order these steps come, every slice that is present of a resident entry that
  -- speculation brought, and no lookup has hit yet, was read since the entry was last issued: from
  -- a state in which nothing has been speculated, unless a failed read has reset an entry, which
  -- only a source that adopts does, and where an issue names an expert once and no entry that waits
  -- to be integrated.
  pub resident-Filled :
      (id : ℕ) → w.cache.cvalid id ≡ true → w.cache.cspec id ≡ true → Filled s w.got id
  resident-Filled = (SpecSteps-Sound run fine (start_spec-Sound s adopt c fresh)).filled
