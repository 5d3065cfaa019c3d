-- ===== src/Prefetch/Serial.antt =====
-- `drain_adopted`: without overlap the eval thread reads the adopted layer's jobs itself.
use mathlib.Core.Path.{subst}
use meitte.Base.{
  ℕ, zero, suc, ◌+◌, ◌≡◌, ◌≤◌, refl, inl, inr, Bool, true, false, List, [], ◌∷◌, Option, none, some,
  if◌then◌else◌, ◌==◌, arith, get_elem?, length, drop, update, Option-cases, sym, ◌∙◌, ap,
}
use meitte.Cache.{IoJob, Cache}
use meitte.Prefetch.Defs.{Spec, queue, mark_got}
use meitte.Prefetch.Lanes.{take_spec, land_spec, remove_at, count_down, account_read}
use meitte.Prefetch.Steps.{taken, landed, Works, idle, then_work}

-- What the end of the eval thread's read tells its entry.
unfoldable pub account_adopted : Bool → Option ℕ → Cache → Cache
unfolding count_down
account_adopted ok none c = c
account_adopted ok (some id) c =
    if ok
    then (if c.spec_remaining id == 0 then c else count_down id c)
    else record c { spec_remaining = update c.spec_remaining id 0 }

-- The read that the eval thread took last has ended.
unfoldable pub land_adopted : Bool → IoJob → Spec → Spec
unfolding account_adopted
land_adopted ok j v = record v {
  cache = account_adopted ok j.flag v.cache;
  flight = remove_at 0 v.flight;
  read_bytes = if ok then v.read_bytes + j.nbytes else v.read_bytes;
  got = if ok then mark_got j.flag j.proj v.got else v.got;
  lost = if ok then v.lost else j ∷ v.lost;
  forgot = if ok then v.forgot else true;
}

-- The next job, if it is the layer's.
unfoldable pub adopted_next : ℕ → Spec → Option IoJob
adopted_next il v = elim (get_elem? v.cache.spec_jobs v.cache.spec_next) [
  | none ↦ none
  | some j ↦ if j.layer == il then some j else none
]

-- `reads` answers the read of each place of the queue.
unfoldable pub drain_adopted : (ℕ → Bool) → ℕ → ℕ → Spec → Spec
unfolding adopted_next land_adopted take_spec
drain_adopted reads il zero v = v
drain_adopted reads il (suc rounds) v = elim (adopted_next il v) [
  | none ↦ v
  | some j ↦
      drain_adopted reads il rounds (land_adopted (reads v.cache.spec_next) j (take_spec j v))
]

adopted_next-some :
    (il : ℕ) (v : Spec) (j : IoJob)
    → adopted_next il v ≡ some j
    → get_elem? v.cache.spec_jobs v.cache.spec_next ≡ some j
unfolding adopted_next
adopted_next-some il v j h = ground (arith, h)

-- The eval thread's read is a read of a lane.
land_adopted-eq :
    (ok : Bool) (j : IoJob) (v : Spec)
    → v.adopt ≡ true
    → land_adopted ok j (take_spec j v)
      ≡ land_spec ok 0 (record { gen = v.cache.spec_gen; job = j }) (take_spec j v)
unfolding land_adopted land_spec take_spec account_read
land_adopted-eq true j v on = elim (Option-cases j.flag) [
  | inl nobody ↦ ground (arith, nobody)
  | inr (i, own) ↦ ground (arith, own)
]
land_adopted-eq false j v on = elim (Option-cases j.flag) [
  | inl nobody ↦ ground (arith, nobody, on)
  | inr (i, own) ↦ ground (arith, own, on)
]

land_adopted-Works :
    (ok : Bool) (j : IoJob) (u v : Spec)
    → v.adopt ≡ true
    → get_elem? v.cache.spec_jobs v.cache.spec_next ≡ some j
    → Works u v
    → Works u (land_adopted ok j (take_spec j v))
land_adopted-Works ok j u v on at run = subst (Works u) (sym (land_adopted-eq ok j v on)) (
    then_work (take_spec j v) _ (then_work v _ run (taken j at))
      (landed ok 0 (record { gen = v.cache.spec_gen; job = j }) (unfold take_spec in refl)))

land_adopted-adopt :
    (ok : Bool) (j : IoJob) (v : Spec) → (land_adopted ok j (take_spec j v)).adopt ≡ v.adopt
unfolding land_adopted take_spec
land_adopted-adopt ok j v = refl

-- Its reads are steps of a lane, whatever they answer.
pub drain_adopted-Works :
    (reads : ℕ → Bool) (il rounds : ℕ) (u v : Spec)
    → v.adopt ≡ true
    → Works u v
    → Works u (drain_adopted reads il rounds v)
unfolding drain_adopted
drain_adopted-Works reads il zero u v on run = run
drain_adopted-Works reads il (suc rounds) u v on run = elim (Option-cases (adopted_next il v)) [
  | inl stop ↦ rw (stop, drain_adopted) run
  | inr (j, next) ↦
      rw (next, drain_adopted)
        (drain_adopted-Works reads il rounds u
          (land_adopted (reads v.cache.spec_next) j (take_spec j v))
          (land_adopted-adopt (reads v.cache.spec_next) j v ∙ on)
          (land_adopted-Works (reads v.cache.spec_next) j u v on (adopted_next-some il v j next)
            run))
]

queue-some :
    (n : ℕ) (js : List IoJob) (j : IoJob)
    → get_elem? js n ≡ some j
    → length (drop n js) ≡ suc (length (drop (suc n) js))
queue-some zero [] j h = absurd (ground (arith, h))
queue-some (suc n) [] j h = absurd (ground (arith, h))
queue-some zero (k ∷ ks) j h = refl
queue-some (suc n) (k ∷ ks) j h = queue-some n ks j h

account_adopted-queue :
    (ok : Bool) (o : Option ℕ) (c : Cache)
    → ((account_adopted ok o c).spec_jobs ≡ c.spec_jobs)
      × ((account_adopted ok o c).spec_next ≡ c.spec_next)
unfolding account_adopted
account_adopted-queue ok none c = (refl, refl)
account_adopted-queue ok (some id) c = ground arith

land_adopted-queue :
    (ok : Bool) (j : IoJob) (v : Spec)
    → queue (land_adopted ok j (take_spec j v)).cache
      ≡ drop (suc v.cache.spec_next) v.cache.spec_jobs
unfolding land_adopted take_spec
land_adopted-queue ok j v =
    let c : Cache = record v.cache { spec_next = suc v.cache.spec_next } in
    rw ((account_adopted-queue ok j.flag c).0, (account_adopted-queue ok j.flag c).1) refl

-- With as many rounds as jobs are queued, it ends where no job of the layer is next.
pub drain_adopted-stops :
    (reads : ℕ → Bool) (il rounds : ℕ) (v : Spec)
    → length (queue v.cache) ≤ rounds
    → adopted_next il (drain_adopted reads il rounds v) ≡ none
unfolding drain_adopted
drain_adopted-stops reads il zero v h = elim (Option-cases (adopted_next il v)) [
  | inl stop ↦ stop
  | inr (j, next) ↦ absurd (
      omega
        (arith, queue-some v.cache.spec_next v.cache.spec_jobs j (adopted_next-some il v j next)))
]
drain_adopted-stops reads il (suc rounds) v h = elim (Option-cases (adopted_next il v)) [
  | inl stop ↦ rw (stop, drain_adopted) stop
  | inr (j, next) ↦
      rw (next, drain_adopted)
        (drain_adopted-stops reads il rounds
          (land_adopted (reads v.cache.spec_next) j (take_spec j v))
          (omega (
            arith,
            ap length (land_adopted-queue (reads v.cache.spec_next) j v),
            queue-some v.cache.spec_next v.cache.spec_jobs j (adopted_next-some il v j next),
          )))
]

-- On a source that adopts, the eval thread's own reading of a layer's jobs, with as many rounds as
-- jobs are queued, is a run of steps that a lane could make, whatever the reads answer, and it ends
-- where no job of the layer is next in the queue.
pub drain_adopted-Drained :
    (reads : ℕ → Bool) (il : ℕ) (v : Spec)
    → v.adopt ≡ true
    → let w = drain_adopted reads il (length (queue v.cache)) v in
      Works v w × (adopted_next il w ≡ none)
drain_adopted-Drained reads il v on = (
  drain_adopted-Works reads il (length (queue v.cache)) v v on idle,
  drain_adopted-stops reads il (length (queue v.cache)) v (omega arith),
)
