-- ===== src/Prefetch/Steps.antt =====
-- The eval thread and the lanes as a step relation, in any interleaving.
use meitte.Base.{
  ℕ, ◌<◌, ◌≡◌, Bool, true, false, List, [], ◌∷◌, Option, some, get_elem?, elem, ℤ, Distinct,
}
use meitte.Cache.{Shape, Vm, IoJob, Cache, entry_id}
use meitte.Cache.Entry.{touch_entry, evict_entry}
use meitte.Prefetch.Defs.{Flying, Spec}
use meitte.Prefetch.Issue.{candidates, issue}
use meitte.Prefetch.Lanes.{take_spec, land_spec}
use meitte.Prefetch.Settle.{spec_integrate_done, cancel_spec, harvest_spec, adopt_layer}

-- A lane takes the next read, or a read ends.
pub data Work (v : Spec) : Spec → Type 0 where
  taken :
      (j : IoJob) → get_elem? v.cache.spec_jobs v.cache.spec_next ≡ some j → Work v (take_spec j v)
  landed :
      (ok : Bool) (n : ℕ) (f : Flying) → get_elem? v.flight n ≡ some f → Work v (land_spec ok n f v)

-- Any number of such steps.
pub data Works (v : Spec) : Spec → Type 0 where
  idle : Works v v
  then_work : (u w : Spec) → Works v u → Work u w → Works v w

-- No entry of the candidates waits to be integrated.
abbrev pub NotDone : Shape → Cache → ℕ → List ℕ → Type 0
NotDone s c il [] = Unit {0}
NotDone s c il (e ∷ es) = (elem (entry_id s il e) c.spec_done ≡ false) × NotDone s c il es

-- An issue names an expert once, and no entry that waits to be integrated, as the hook's issues right
-- after a settled load do. A demand looks an entry up only when no speculative read of it is left,
-- which its quiesce gives.
pub data SpecStep (s : Shape) (v : Spec) : Spec → Type 0 where
  worked : (w : Spec) → Work v w → SpecStep s v w
  issued :
      (vm : Vm) (il : ℕ) (ids : List ℤ)
      → il < s.n_layer
      → v.quiescing ≡ false
      → Distinct (candidates s v.cache il ids)
      → NotDone s v.cache il (candidates s v.cache il ids)
      → SpecStep s v (issue vm s il ids v)
  settled :
      v.quiescing ≡ false
      → SpecStep s v (record v { cache = spec_integrate_done v.adopt s v.cache })
  cancelled :
      v.quiescing ≡ false
      → SpecStep s v (record v { cache = cancel_spec v.cache; quiescing = true; lost = [] })
  harvested :
      v.quiescing ≡ true
      → v.flight ≡ []
      → SpecStep s v (record v { cache = harvest_spec s v.cache; quiescing = false; lost = [] })
  adopted :
      (il : ℕ)
      → v.quiescing ≡ false
      → v.adopt ≡ true
      → SpecStep s v (record v { cache = adopt_layer il v.cache })
  demanded :
      (vm : Vm) (il e : ℕ) (promote : Bool) (only : Option ℕ)
      → il < s.n_layer
      → e < s.n_expert
      → v.quiescing ≡ false
      → v.cache.spec_remaining (entry_id s il e) ≡ 0
      → SpecStep s v (record v { cache = (touch_entry vm s il e promote only v.cache).0 })
  evicted :
      (id : ℕ)
      → v.quiescing ≡ false
      → v.cache.links.tail ≡ some id
      → SpecStep s v (record v { cache = evict_entry s id v.cache })

-- Any number of steps.
pub data SpecSteps (s : Shape) (v : Spec) : Spec → Type 0 where
  stay : SpecSteps s v v
  more : (u w : Spec) → SpecSteps s v u → SpecStep s u w → SpecSteps s v w
