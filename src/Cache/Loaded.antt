-- ===== src/Cache/Loaded.antt =====
-- The loops of staging: on success they have seen every expert that the ids name.
use meitte.Base.{
  ℕ, zero, suc, ◌+◌, ◌≤◌, ◌<◌, ◌≡◌, refl, ◌≢◌, inl, inr, Bool, true, false, List, [], ◌∷◌, Option,
  none, some, arith, Bool-cases, if◌then◌else◌, ℤ, pos, negsuc, index_below, Routed, Routed-mono,
  AtSome, AtSome-mono,
}
use meitte.Cache.Defs.{Shape, Vm}
use meitte.Cache.Load.{
  Staging, and_stage, wanted, stage_found, stage_ids, stage_rest, stage, mark_seen, stage_all,
}
use meitte.Cache.Invariant.{Fits}
use meitte.Cache.Staged.{Staged, Stages, stage_expert-Saw, stage-Saw, nothing, and_stage-Stages}

-- The ids that the loop works on.
abbrev pub all_wanted : Shape → ℕ → List ℤ → List ℤ
all_wanted s i [] = []
all_wanted s i (z ∷ zs) = wanted s i z ∷ all_wanted s (i + 1) zs

pub all_wanted_plain :
    (s : Shape) (i : ℕ) (zs : List ℤ) → s.load_all ≡ false → all_wanted s i zs ≡ zs
all_wanted_plain s i [] h = refl
all_wanted_plain s i (z ∷ zs) h = ground (arith, all_wanted_plain s (i + 1) zs h)

pub index_below-lt : (n : ℕ) (z : ℤ) (e : ℕ) → index_below n z ≡ some e → e < n
index_below-lt n (pos i) e h = ground arith
index_below-lt n (negsuc i) e h = absurd (ground arith)

module _ (s : Shape) (fits : Fits s) (vm : Vm) (il : ℕ) (hl : il < s.n_layer) (g m : ℕ)
    (on : m ≢ 0) where
  stage_found-Stages :
      (o : Option ℕ) (t : Staging) (xs : List ℕ)
      → ((e : ℕ) → o ≡ some e → e < s.n_expert)
      → Staged s il g m t true xs
      → Stages s il g m t (stage_found vm s il o t)
        × AtSome (λ e. (stage_found vm s il o t).0.seen e ≡ true) o
  stage_found-Stages none t xs h v = (nothing s fits vm il hl g m on t xs v, tt)
  stage_found-Stages (some i) t xs h v = stage_expert-Saw s fits vm il hl g m on i t xs (h i refl) v

  -- The loop over the ids: on success it has seen every expert that they name.
  stage_ids-Stages :
      (i : ℕ) (zs : List ℤ) (t : Staging) (xs : List ℕ)
      → Staged s il g m t true xs
      → let r = stage_ids vm s il i zs t in
        Stages s il g m t r
        × (r.1 ≡ true → Routed s.n_expert (λ e. r.0.seen e ≡ true) (all_wanted s i zs))
  unfolding stage_ids
  stage_ids-Stages i [] t xs v = (nothing s fits vm il hl g m on t xs v, λ ok. tt)
  stage_ids-Stages i (z ∷ zs) t xs v =
      next _
        (stage_found-Stages (index_below s.n_expert (wanted s i z)) t xs
          (λ e. index_below-lt s.n_expert (wanted s i z) e) v)
        (stage_ids-Stages (i + 1) zs)
    where
      next :
          (r : Staging × Bool)
          → Stages s il g m t r
            × AtSome (λ e. r.0.seen e ≡ true) (index_below s.n_expert (wanted s i z))
          → ((u : Staging) (ys : List ℕ)
              → Staged s il g m u true ys
              → let q = stage_ids vm s il (i + 1) zs u in
                Stages s il g m u q
                × (q.1 ≡ true
                    → Routed s.n_expert (λ e. q.0.seen e ≡ true) (all_wanted s (i + 1) zs)))
          → let q = and_stage r (λ u. stage_ids vm s il (i + 1) zs u) in
            Stages s il g m t q
            × (q.1 ≡ true
                → Routed s.n_expert
                    (λ e. q.0.seen e ≡ true)
                    (wanted s i z ∷ all_wanted s (i + 1) zs))
      next (u, true) (w, saw) rest =
          let (q, all) = rest u w.order w.staged in
          (
            record { order = q.order; staged = q.staged; grows = λ e k. q.grows e (w.grows e k) },
            λ ok. (AtSome-mono _ _ (index_below s.n_expert (wanted s i z)) q.grows saw, all ok),
          )
      next (u, false) (w, saw) rest = (w, λ ok. cc)

module _ (s : Shape) (fits : Fits s) (vm : Vm) (il : ℕ) (hl : il < s.n_layer) (g m : ℕ)
    (on : m ≢ 0) where
  stage_rest-Stages :
      (n e : ℕ) (t : Staging) (xs : List ℕ)
      → e + n ≤ s.n_expert
      → Staged s il g m t true xs
      → Stages s il g m t (stage_rest vm s il e n t)
  unfolding stage_rest
  stage_rest-Stages zero e t xs h v = nothing s fits vm il hl g m on t xs v
  stage_rest-Stages (suc n) e t xs h v = elim (Bool-cases (t.seen e)) [
    | inl again ↦ rw again (stage_rest-Stages n (e + 1) t xs (omega arith) v)
    | inr new ↦ rw new (
        and_stage-Stages s fits vm il hl g m on t (stage vm s il e (mark_seen e t)) _
          (stage-Saw s fits vm il hl g m on e t xs (omega arith) v).0
          (λ u ys w. stage_rest-Stages n (e + 1) u ys (omega arith) w))
  ]

  pub stage_all-Stages :
      (ids : List ℤ) (t : Staging) (xs : List ℕ)
      → Staged s il g m t true xs
      → let r = stage_all vm s il ids t in
        Stages s il g m t r
        × (r.1 ≡ true → Routed s.n_expert (λ e. r.0.seen e ≡ true) (all_wanted s 0 ids))
  unfolding stage_all
  stage_all-Stages ids t xs v =
      next (stage_ids vm s il 0 ids t) (stage_ids-Stages s fits vm il hl g m on 0 ids t xs v)
    where
      rest :
          (u : Staging) (ys : List ℕ)
          → Staged s il g m u true ys
          → (b : Bool)
          → Stages s il g m u (if b then stage_rest vm s il 0 s.n_expert u else (u, true))
      rest u ys w true = stage_rest-Stages s.n_expert 0 u ys (omega arith) w
      rest u ys w false = nothing s fits vm il hl g m on u ys w

      next :
          (r : Staging × Bool)
          → Stages s il g m t r
            × (r.1 ≡ true → Routed s.n_expert (λ e. r.0.seen e ≡ true) (all_wanted s 0 ids))
          → let q =
              and_stage r
                (λ u. if s.load_all then stage_rest vm s il 0 s.n_expert u else (u, true)) in
            Stages s il g m t q
            × (q.1 ≡ true → Routed s.n_expert (λ e. q.0.seen e ≡ true) (all_wanted s 0 ids))
      next (u, true) (w, saw) =
          let q = rest u w.order w.staged s.load_all in
          (
            record { order = q.order; staged = q.staged; grows = λ e k. q.grows e (w.grows e k) },
            λ ok. Routed-mono s.n_expert _ _ (all_wanted s 0 ids) q.grows (saw refl),
          )
      next (u, false) (w, saw) = (w, λ ok. cc)
