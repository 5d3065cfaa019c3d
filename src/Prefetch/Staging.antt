-- ===== src/Prefetch/Staging.antt =====
-- What `prefetch` stages: for each expert it chooses, all of its reads.
use mathlib.Core.Path.{subst}
use mathlib.Core.List.{append_assoc, append-nil}
use meitte.Base.{
  ℕ, ◌≡◌, refl, inl, inr, Bool, true, false, List, [], ◌∷◌, ◌++◌, if◌then◌else◌, ◌==◌, arith, elem,
  Distinct, Bool-cases, sym, ◌∙◌, length, ap, take, ◌⊎◌, ◌≢◌,
}
use meitte.Cache.{Shape, Vm, OsCall, IoJob, Cache, entry_id}
use meitte.Cache.Entry.{projections, release_entry_pages, release_proj}
use meitte.Prefetch.Issue.{Staged, Slices, stage_slices, add_staged, roll_back, stage_candidates}
use meitte.Prefetch.Untouched.{
  Untouched, refl-Untouched, trans-Untouched, OnlyOs-Untouched, release_entry_pages-Untouched,
}
use meitte.Prefetch.Slices.{
  spec_jobs_of, Granted, Refusal, Grew, trans-Grew, Granted-Grew, Sliced, stage_slices-Sliced,
}

-- The reads of some experts, and their entries with the number of reads.
unfoldable pub jobs_of : Shape → ℕ → List ℕ → List IoJob
jobs_of s il [] = []
jobs_of s il (e ∷ es) = spec_jobs_of s il e projections ++ jobs_of s il es

unfoldable pub entries_of : Shape → ℕ → List ℕ → List (ℕ × ℕ)
entries_of s il [] = []
entries_of s il (e ∷ es) =
    let rest = entries_of s il es in
    let n = length (spec_jobs_of s il e projections) in
    if n == 0 then rest else (entry_id s il e, n) ∷ rest

-- A refused commit of the expert that stands behind the chosen ones ended the staging, and the pages
-- of this expert were handed back.
pub record Stopped (vm : Vm) (s : Shape) (il : ℕ) (es xs : List ℕ) (os : List OsCall) : Type 0 where
  pub expert : ℕ
  pub rest : List ℕ
  pub split : es ≡ xs ++ expert ∷ rest
  pub before : Cache
  pub refusal : Refusal vm s il expert before.os
  pub released : os ≡ (release_entry_pages s (entry_id s il expert) before).os

-- The staging of `es` from `t` chose `experts` among them, each with all of its reads.
pub record Chosen (vm : Vm) (s : Shape) (il : ℕ) (es : List ℕ) (t u : Staged) : Type 0 where
  pub experts : List ℕ
  pub among : (e : ℕ) → elem e experts ≡ true → elem e es ≡ true
  pub once : Distinct es → Distinct experts
  pub all_jobs : u.jobs ≡ t.jobs ++ jobs_of s il experts
  pub all_entries : u.entries ≡ t.entries ++ entries_of s il experts
  pub untouched : Untouched t.cache u.cache
  pub granted :
      (e p : ℕ)
      → elem e experts ≡ true
      → elem p projections ≡ true
      → s.nb2 il p ≢ 0
      → Granted vm s il e p u.cache.os
  pub grew : Grew t.cache.os u.cache.os
  pub ended : (experts ≡ es) ⊎ Stopped vm s il es experts u.cache.os

no_jobs : (js : List IoJob) → (length js == 0) ≡ true → js ≡ []
no_jobs [] h = refl
no_jobs (j ∷ js) h = absurd (ground (arith, h))

take-append : {A : Type 0} (xs ys : List A) → take (length xs) (xs ++ ys) ≡ xs
take-append [] [] = refl
take-append [] (y ∷ ys) = refl
take-append (x ∷ xs) ys = ap (λ zs. x ∷ zs) (take-append xs ys)

one_Grew : (b : Bool) (call : OsCall) (os : List OsCall) → Grew os (if b then call ∷ os else os)
one_Grew true call os = (call ∷ [], refl)
one_Grew false call os = ([], refl)

release_proj-Grew : (s : Shape) (il e p : ℕ) (os : List OsCall) → Grew os (release_proj s il e p os)
unfolding release_proj
release_proj-Grew s il e p os = elim (Bool-cases (s.nb2 il p == 0)) [
  | inl absent ↦ rw absent ([], refl)
  | inr present ↦ rw present (one_Grew _ _ os)
]

release_entry_pages-Grew :
    (s : Shape) (id : ℕ) (c : Cache) → Grew c.os (release_entry_pages s id c).os
unfolding release_entry_pages
release_entry_pages-Grew s id c =
    trans-Grew (trans-Grew (release_proj-Grew s _ _ 0 c.os) (release_proj-Grew s _ _ 1 _))
      (release_proj-Grew s _ _ 2 _)

-- An expert whose slices are all granted: its jobs, its entry, and a cache that differs in its calls.
add_staged-jobs :
    (vm : Vm) (s : Shape) (il e : ℕ) (t : Staged) (r : Slices) (ds : List ℕ)
    → r.ok ≡ true
    → Sliced vm s il e projections t.cache t.jobs 0 r
    → (add_staged s il e r t.entries).jobs ++ jobs_of s il ds ≡ t.jobs ++ jobs_of s il (e ∷ ds)
unfolding add_staged jobs_of
add_staged-jobs vm s il e t r ds ok h =
    let eq : r.jobs ++ jobs_of s il ds
        ≡ t.jobs ++ (spec_jobs_of s il e projections ++ jobs_of s il ds) =
      ap (λ z. z ++ jobs_of s il ds) (h.all_jobs ok)
      ∙ append_assoc t.jobs (spec_jobs_of s il e projections) (jobs_of s il ds) in
    elim (Bool-cases (r.count == 0)) [ inl empty ↦ rw empty eq | inr full ↦ rw full eq ]

add_staged-entries :
    (vm : Vm) (s : Shape) (il e : ℕ) (t : Staged) (r : Slices) (ds : List ℕ)
    → r.ok ≡ true
    → Sliced vm s il e projections t.cache t.jobs 0 r
    → (add_staged s il e r t.entries).entries ++ entries_of s il ds
      ≡ t.entries ++ entries_of s il (e ∷ ds)
unfolding add_staged entries_of
add_staged-entries vm s il e t r ds ok h =
    let n : r.count ≡ length (spec_jobs_of s il e projections) = omega (arith, h.counted ok) in
    rw n (elim (Bool-cases (length (spec_jobs_of s il e projections) == 0)) [
      | inl empty ↦ rw empty refl
      | inr full ↦ rw full (append_assoc t.entries _ (entries_of s il ds))
    ])

add_staged-Untouched :
    (s : Shape) (il e : ℕ) (r : Slices) (es : List (ℕ × ℕ))
    → Untouched r.cache (add_staged s il e r es).cache
unfolding add_staged
add_staged-Untouched s il e r es = record {
  same = record {
    same_jobs = ground arith;
    same_next = ground arith;
    same_gen = ground arith;
    same_touched = ground arith;
    same_remaining = ground arith;
  };
  same_done = ground arith;
  same_valid = ground arith;
  same_spec = ground arith;
  same_links = ground arith;
  same_resident = ground arith;
}

add_staged-os :
    (s : Shape) (il e : ℕ) (r : Slices) (es : List (ℕ × ℕ))
    → (add_staged s il e r es).cache.os ≡ r.cache.os
unfolding add_staged
add_staged-os s il e r es = ground arith

roll_back-Chosen :
    (vm : Vm) (s : Shape) (il e : ℕ) (es : List ℕ) (t : Staged) (r : Slices)
    → r.ok ≡ false
    → Sliced vm s il e projections t.cache t.jobs 0 r
    → Chosen vm s il (e ∷ es) t (roll_back s il e (length t.jobs) r t.entries)
unfolding roll_back jobs_of entries_of
roll_back-Chosen vm s il e es t r stop h = record {
  experts = [];
  among = λ i m. absurd (ground (arith, m));
  once = λ d. tt;
  all_jobs =
      ap (λ z. take (length t.jobs) z) h.behind.1
      ∙ take-append t.jobs h.behind.0
      ∙ sym (append-nil t.jobs);
  all_entries = sym (append-nil t.entries);
  untouched =
      trans-Untouched (OnlyOs-Untouched t.cache r.cache h.only)
        (release_entry_pages-Untouched s (entry_id s il e) r.cache);
  granted = λ i p m. absurd (ground (arith, m));
  grew = trans-Grew h.grew (release_entry_pages-Grew s (entry_id s il e) r.cache);
  ended = inr (record {
    expert = e;
    rest = es;
    split = refl;
    before = r.cache;
    refusal = h.refused stop;
    released = refl;
  });
}

next-Chosen :
    (vm : Vm) (s : Shape) (il e : ℕ) (es : List ℕ) (t : Staged) (r : Slices) (u : Staged)
    → r.ok ≡ true
    → Sliced vm s il e projections t.cache t.jobs 0 r
    → Chosen vm s il es (add_staged s il e r t.entries) u
    → Chosen vm s il (e ∷ es) t u
next-Chosen vm s il e es t r u ok h g =
    let grew : Grew r.cache.os u.cache.os =
      subst (λ z. Grew z u.cache.os) (add_staged-os s il e r t.entries) g.grew in
    record {
      experts = e ∷ g.experts;
      among = λ i m. ground (arith, m, g.among i);
      once = λ d. (absent g.experts g.among d.0, g.once d.1);
      all_jobs = g.all_jobs ∙ add_staged-jobs vm s il e t r g.experts ok h;
      all_entries = g.all_entries ∙ add_staged-entries vm s il e t r g.experts ok h;
      untouched =
          trans-Untouched (OnlyOs-Untouched t.cache r.cache h.only)
            (trans-Untouched (add_staged-Untouched s il e r t.entries) g.untouched);
      granted = λ i p m there present. elim (Bool-cases (i == e)) [
        | inl same ↦
            let eq : i ≡ e = ground (arith, same) in
            rw eq (Granted-Grew vm s il e p (h.granted ok p there present) grew)
        | inr other ↦ g.granted i p (ground (arith, m, other)) there present
      ];
      grew = trans-Grew h.grew grew;
      ended = elim g.ended [
        | inl all ↦ inl (ap (λ z. e ∷ z) all)
        | inr stop ↦ inr (record {
          expert = stop.expert;
          rest = stop.rest;
          split = ap (λ z. e ∷ z) stop.split;
          before = stop.before;
          refusal = stop.refusal;
          released = stop.released;
        })
      ];
    }
  where
    absent :
        (xs : List ℕ)
        → ((i : ℕ) → elem i xs ≡ true → elem i es ≡ true)
        → elem e es ≡ false
        → elem e xs ≡ false
    absent xs f a = elim (Bool-cases (elem e xs)) [
      | inl there ↦ absurd (ground (arith, there, f e there, a))
      | inr not_there ↦ not_there
    ]

nothing-Chosen : (vm : Vm) (s : Shape) (il : ℕ) (t : Staged) → Chosen vm s il [] t t
unfolding jobs_of entries_of
nothing-Chosen vm s il t = record {
  experts = [];
  among = λ e g. g;
  once = λ d. tt;
  all_jobs = sym (append-nil t.jobs);
  all_entries = sym (append-nil t.entries);
  untouched = refl-Untouched t.cache;
  granted = λ i p m. absurd (ground (arith, m));
  grew = ([], refl);
  ended = inl refl;
}

pub stage_candidates-Chosen :
    (vm : Vm) (s : Shape) (il : ℕ) (es : List ℕ) (t : Staged)
    → Chosen vm s il es t (stage_candidates vm s il es t)
unfolding stage_candidates
stage_candidates-Chosen vm s il [] t = nothing-Chosen vm s il t
stage_candidates-Chosen vm s il (e ∷ es) t =
    let r = stage_slices vm s il e projections t.cache t.jobs 0 in
    let h = stage_slices-Sliced vm s il e projections t.cache t.jobs 0 in
    elim (Bool-cases r.ok) [
      | inl ok ↦ rw ok (
          next-Chosen vm s il e es t r _ ok h
            (stage_candidates-Chosen vm s il es (add_staged s il e r t.entries)))
      | inr stop ↦ rw stop (roll_back-Chosen vm s il e es t r stop h)
    ]
