-- ===== src/Overlap/Progress.antt =====
-- The lanes never get stuck before the batch is drained, and they do not run for ever.
use meitte.Base.{
  ℕ, zero, suc, ◌+◌, ◌-◌, ◌*◌, ◌≤◌, ◌<◌, ◌≡◌, refl, inl, inr, ◌⊎◌, true, false, List, [], ◌∷◌, some,
  arith, elem, Bool-cases, ◌==◌, ◌∙◌, ap, get_elem?, length, weight-remove, weight,
}
use meitte.Cache.{IoJob}
use meitte.Overlap.Defs.{Overlap}
use meitte.Overlap.Lanes.{Run, Step, taken, landed, counted, Steps, stay, more, land_job}
use meitte.Overlap.Load.{Published}
use meitte.Overlap.Drain.{
  start_run, in_flight, Step-Draining, Draining, start_run-Draining, Steps-Draining,
}

-- A job is taken, landed and counted: what is left to do.
abbrev left_to_do : Run → ℕ
left_to_do r = 3 * (r.shared.batch.njobs - r.shared.batch.next_idx) + 2 * in_flight r + r.told

Step-left_to_do : (r u : Run) → Step r u → left_to_do u < left_to_do r
unfolding land_job
Step-left_to_do r u (taken i at lt) = omega (arith, at)
Step-left_to_do r u (landed true i j here at) =
    omega (arith, weight-remove (λ _. 1) i r.flight here)
Step-left_to_do r u (landed false i j here at) =
    omega (arith, weight-remove (λ _. 1) i r.flight here)
Step-left_to_do r u (counted n h) = omega arith

get_elem?-some : (js : List IoJob) (i : ℕ) → i < length js → (j : IoJob) × (get_elem? js i ≡ some j)
get_elem?-some [] i h = absurd (omega arith)
get_elem?-some (j ∷ js) zero h = (j, refl)
get_elem?-some (j ∷ js) (suc i) h = get_elem?-some js i (omega arith)

-- Where something is left to do, some lane can do it.
lane_goes_on :
    (st : Overlap) (gen : ℕ) (r : Run)
    → Published gen st.batch
    → Draining st r
    → (r.shared.batch.done_cnt ≡ r.shared.batch.njobs) ⊎ ((u : Run) × Step r u)
lane_goes_on st gen r p v = by_told r.told refl
  where
    by_flight :
        (fl : List ℕ)
        → r.flight ≡ fl
        → r.told ≡ 0
        → (r.shared.batch.done_cnt ≡ r.shared.batch.njobs) ⊎ ((u : Run) × Step r u)
    by_flight [] e t = elim (Bool-cases (r.shared.batch.next_idx == st.batch.njobs)) [
      | inl all ↦ inl (ground (arith, v.tally, ap (weight (λ _. 1)) e, t, v.same_njobs))
      | inr unfinished ↦ inr (_, taken _ refl (ground (arith, v.within, v.same_njobs)))
    ]
    by_flight (i ∷ fl) e t =
        let here : elem i r.flight ≡ true = ap (elem i) e ∙ ground arith in
        let (j, at) =
          get_elem?-some st.batch.jobs i (omega (arith, v.flying i here, v.within, p.whole)) in
        inr (_, landed true i j here (ap (λ js. get_elem? js i) v.same_jobs ∙ at))

    by_told :
        (n : ℕ)
        → r.told ≡ n
        → (r.shared.batch.done_cnt ≡ r.shared.batch.njobs) ⊎ ((u : Run) × Step r u)
    by_told zero t = by_flight r.flight refl t
    by_told (suc n) t = inr (_, counted n (omega (arith, t)))

append-Steps : (r u v : Run) → Steps r u → Steps u v → Steps r v
append-Steps r u v a stay = a
append-Steps r u v a (more w z b last) = more w v (append-Steps r u w a b) last

lanes_finish :
    (st : Overlap) (gen fuel : ℕ) (r : Run)
    → Published gen st.batch
    → Draining st r
    → left_to_do r ≤ fuel
    → (v : Run) × Steps r v × (v.shared.batch.done_cnt ≡ v.shared.batch.njobs)
lanes_finish st gen zero r p d h = elim (lane_goes_on st gen r p d) [
  | inl all ↦ (r, stay, all)
  | inr (u, next) ↦ absurd (omega (arith, Step-left_to_do r u next))
]
lanes_finish st gen (suc fuel) r p d h = elim (lane_goes_on st gen r p d) [
  | inl all ↦ (r, stay, all)
  | inr (u, next) ↦
      let (v, steps, all) =
        lanes_finish st gen fuel u p (Step-Draining st r u d next)
          (omega (arith, Step-left_to_do r u next)) in
      (v, append-Steps r u v (more r u stay next) steps, all)
]

-- Every state that the lanes reach from a published batch can be continued, by a finite number of
-- further steps, to one in which every job is counted.
pub lanes-Drain :
    (st : Overlap) (gen : ℕ) (r : Run)
    → Published gen st.batch
    → Steps (start_run st) r
    → (v : Run) × Steps r v × (v.shared.batch.done_cnt ≡ v.shared.batch.njobs)
lanes-Drain st gen r p steps =
    lanes_finish st gen (left_to_do r) r p
      (Steps-Draining st (start_run st) r (start_run-Draining st gen p) steps) (omega arith)
