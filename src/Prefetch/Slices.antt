-- ===== src/Prefetch/Slices.antt =====
-- About `stage_slices`: the jobs of one expert are all of its slices, each behind a granted commit.
use mathlib.Core.List.{append_assoc, append-nil}
use meitte.Base.{
  ℕ, ◌+◌, ◌-◌, ◌≡◌, ◌≢◌, refl, inl, inr, Bool, true, false, List, [], ◌∷◌, ◌++◌, if◌then◌else◌,
  ◌==◌, arith, elem, Bool-cases, sym, ◌∙◌, length, ap,
}
use meitte.Cache.{Shape, Vm, OsCall, vm_commit, IoJob, Cache}
use meitte.Cache.Entry.{commit_range, commit_proj_pages}
use meitte.Cache.Touch.{OnlyOs}
use meitte.Prefetch.Issue.{spec_job, Slices, stage_slices}

-- One job for each projection that is present.
unfoldable pub spec_jobs_of : Shape → ℕ → ℕ → List ℕ → List IoJob
unfolding spec_job
spec_jobs_of s il e [] = []
spec_jobs_of s il e (p ∷ ps) =
    let rest = spec_jobs_of s il e ps in if s.nb2 il p == 0 then rest else spec_job s il e p ∷ rest

-- The commit of a slice, and the answer to it after some calls.
abbrev pub commit_call : Shape → ℕ → ℕ → ℕ → OsCall
commit_call s il e p = let (a0, a1) = commit_range s il e p in vm_commit a0 (a1 - a0)

abbrev pub answer : Vm → Shape → ℕ → ℕ → ℕ → List OsCall → Bool
answer vm s il e p os = let (a0, a1) = commit_range s il e p in vm os a0 (a1 - a0)

-- The slice's commit is among the calls and was granted.
abbrev pub Granted : Vm → Shape → ℕ → ℕ → ℕ → List OsCall → Type 0
Granted vm s il e p os =
    (newer : List OsCall) × (older : List OsCall) × (os ≡ newer ++ commit_call s il e p ∷ older)
    × (answer vm s il e p older ≡ true)

-- The last call is the commit of a slice of the expert, and it was refused.
abbrev pub Refusal : Vm → Shape → ℕ → ℕ → List OsCall → Type 0
Refusal vm s il e os =
    (p : ℕ) × (older : List OsCall) × (s.nb2 il p ≢ 0)
    × (os ≡ commit_call s il e p ∷ older)
    × (answer vm s il e p older ≡ false)

abbrev pub Grew : List OsCall → List OsCall → Type 0
Grew os new = (newer : List OsCall) × (new ≡ newer ++ os)

pub trans-Grew : {a b c : List OsCall} → Grew a b → Grew b c → Grew a c
trans-Grew {a} (xs, h) (ys, k) = (ys ++ xs, k ∙ ap (λ z. ys ++ z) h ∙ sym (append_assoc ys xs a))

pub Granted-Grew :
    (vm : Vm) (s : Shape) (il e p : ℕ) {os new : List OsCall}
    → Granted vm s il e p os
    → Grew os new
    → Granted vm s il e p new
Granted-Grew vm s il e p (newer, older, at, agreed) (more, h) = (
  more ++ newer,
  older,
  h ∙ ap (λ z. more ++ z) at ∙ sym (append_assoc more newer (commit_call s il e p ∷ older)),
  agreed,
)

-- What the loop over the slices of `ps` leaves from a cache with `js` staged and `n` counted.
pub record Sliced (vm : Vm) (s : Shape) (il e : ℕ) (ps : List ℕ) (c : Cache) (js : List IoJob)
    (n : ℕ) (r : Slices) : Type 0 where
  pub only : OnlyOs c r.cache
  pub grew : Grew c.os r.cache.os
  pub behind : (more : List IoJob) × (r.jobs ≡ js ++ more)
  pub all_jobs : r.ok ≡ true → r.jobs ≡ js ++ spec_jobs_of s il e ps
  pub counted : r.ok ≡ true → r.count ≡ n + length (spec_jobs_of s il e ps)
  pub granted :
      r.ok ≡ true → (p : ℕ) → elem p ps ≡ true → s.nb2 il p ≢ 0 → Granted vm s il e p r.cache.os
  pub refused : r.ok ≡ false → Refusal vm s il e r.cache.os

skip-Sliced :
    (vm : Vm) (s : Shape) (il e p : ℕ) (ps : List ℕ) (c : Cache) (js : List IoJob) (n : ℕ)
    (r : Slices)
    → (s.nb2 il p == 0) ≡ true
    → Sliced vm s il e ps c js n r
    → Sliced vm s il e (p ∷ ps) c js n r
unfolding spec_jobs_of
skip-Sliced vm s il e p ps c js n r absent h = record {
  only = h.only;
  grew = h.grew;
  behind = h.behind;
  all_jobs = rw absent h.all_jobs;
  counted = rw absent h.counted;
  granted = λ ok q m present. h.granted ok q (ground (arith, absent, m, present)) present;
  refused = h.refused;
}

push-Sliced :
    (vm : Vm) (s : Shape) (il e p : ℕ) (ps : List ℕ) (c : Cache) (js : List IoJob) (n : ℕ)
    (r : Slices)
    → (s.nb2 il p == 0) ≡ false
    → answer vm s il e p c.os ≡ true
    → Sliced vm s il e ps
        (record c { os = commit_call s il e p ∷ c.os })
        (js ++ spec_job s il e p ∷ [])
        (n + 1)
        r
    → Sliced vm s il e (p ∷ ps) c js n r
unfolding spec_jobs_of
push-Sliced vm s il e p ps c js n r present agreed h =
    let more = h.behind.0 in
    record {
      only = h.only;
      grew = trans-Grew (commit_call s il e p ∷ [], refl) h.grew;
      behind =
          (spec_job s il e p ∷ more, h.behind.1 ∙ append_assoc js (spec_job s il e p ∷ []) more);
      all_jobs = λ ok. rw present (h.all_jobs ok ∙ append_assoc js (spec_job s il e p ∷ []) _);
      counted = λ ok. rw present (omega (arith, h.counted ok));
      granted = λ ok q m there. elim (Bool-cases (q == p)) [
        | inl same ↦
            let eq : q ≡ p = ground (arith, same) in
            rw eq (Granted-Grew vm s il e p ([], c.os, refl, agreed) h.grew)
        | inr other ↦ h.granted ok q (ground (arith, m, other)) there
      ];
      refused = h.refused;
    }

pub stage_slices-Sliced :
    (vm : Vm) (s : Shape) (il e : ℕ) (ps : List ℕ) (c : Cache) (js : List IoJob) (n : ℕ)
    → Sliced vm s il e ps c js n (stage_slices vm s il e ps c js n)
unfolding stage_slices commit_proj_pages spec_jobs_of
stage_slices-Sliced vm s il e [] c js n = record {
  only = refl;
  grew = ([], refl);
  behind = ([], sym (append-nil js));
  all_jobs = λ ok. sym (append-nil js);
  counted = λ ok. omega arith;
  granted = λ ok p m. absurd (ground (arith, m));
  refused = λ no. absurd (ground (arith, no));
}
stage_slices-Sliced vm s il e (p ∷ ps) c js n = elim (Bool-cases (s.nb2 il p == 0)) [
  | inl absent ↦
      rw absent
        (skip-Sliced vm s il e p ps c js n _ absent (stage_slices-Sliced vm s il e ps c js n))
  | inr present ↦ elim (Bool-cases (answer vm s il e p c.os)) [
    | inl agreed ↦
        rw (present, agreed)
          (push-Sliced vm s il e p ps c js n _ present agreed
            (stage_slices-Sliced vm s il e ps _ _ _))
    | inr denied ↦
        rw (present, denied)
          (record {
            only = refl;
            grew = (commit_call s il e p ∷ [], refl);
            behind = ([], sym (append-nil js));
            all_jobs = λ ok. absurd (ground (arith, ok));
            counted = λ ok. absurd (ground (arith, ok));
            granted = λ ok. absurd (ground (arith, ok));
            refused = λ stop. (p, c.os, ground (arith, present), refl, denied);
          })
  ]
]
