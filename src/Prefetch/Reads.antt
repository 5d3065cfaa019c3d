-- ===== src/Prefetch/Reads.antt =====
-- The reads that an issue adds, counted: those of the experts it chose, and of no other entry.
use meitte.Base.{
  ℕ, ◌+◌, ◌<◌, ◌≡◌, ◌≢◌, refl, inl, inr, Bool, true, false, ◌||◌, List, [], ◌∷◌, if◌then◌else◌,
  ◌==◌, arith, elem, Distinct, Bool-cases, update, ◌∙◌, length, ℤ, pos, negsuc,
}
use meitte.Cache.{Shape, Cache, entry_id}
use meitte.Cache.Entry.{projections}
use meitte.Prefetch.Defs.{reset_got}
use meitte.Prefetch.Issue.{candidates, spec_job, set_remaining, entry_ids}
use meitte.Prefetch.Slices.{spec_jobs_of}
use meitte.Prefetch.Staging.{jobs_of, entries_of}
use meitte.Prefetch.Count.{tally, of_entry, of_slice, tally-append}
use meitte.Prefetch.Steps.{NotDone}

pub candidates-fresh :
    (s : Shape) (c : Cache) (il : ℕ) (zs : List ℤ) (e : ℕ)
    → elem e (candidates s c il zs) ≡ true
    → (e < s.n_expert)
      × (c.cvalid (entry_id s il e) ≡ false)
      × (c.spec_remaining (entry_id s il e) ≡ 0)
unfolding candidates
candidates-fresh s c il [] e h = absurd (ground (arith, h))
candidates-fresh s c il (negsuc z ∷ zs) e h = candidates-fresh s c il zs e h
candidates-fresh s c il (pos i ∷ zs) e h = elim (Bool-cases (i == e)) [
  | inl same ↦ let eq : i ≡ e = ground arith in ground (arith, h, eq, candidates-fresh s c il zs e)
  | inr other ↦ ground (arith, h, other, candidates-fresh s c il zs e)
]

pub NotDone-elem :
    (s : Shape) (c : Cache) (il : ℕ) (es : List ℕ) (e : ℕ)
    → NotDone s c il es
    → elem e es ≡ true
    → elem (entry_id s il e) c.spec_done ≡ false
NotDone-elem s c il [] e h m = absurd (ground (arith, m))
NotDone-elem s c il (x ∷ xs) e h m = elim (Bool-cases (x == e)) [
  | inl same ↦ let eq : x ≡ e = ground arith in rw (← eq) h.0
  | inr other ↦ NotDone-elem s c il xs e h.1 (ground (arith, m, other))
]

-- The reads of one expert are for its entry.
spec_jobs_of-own :
    (s : Shape) (il e : ℕ) (ps : List ℕ)
    → tally (of_entry (entry_id s il e)) (spec_jobs_of s il e ps) ≡ length (spec_jobs_of s il e ps)
unfolding spec_jobs_of spec_job
spec_jobs_of-own s il e [] = refl
spec_jobs_of-own s il e (p ∷ ps) = ground (arith, spec_jobs_of-own s il e ps)

spec_jobs_of-other :
    (s : Shape) (il e id : ℕ) (ps : List ℕ)
    → entry_id s il e ≢ id
    → tally (of_entry id) (spec_jobs_of s il e ps) ≡ 0
unfolding spec_jobs_of spec_job
spec_jobs_of-other s il e id [] h = refl
spec_jobs_of-other s il e id (p ∷ ps) h = ground (arith, spec_jobs_of-other s il e id ps h)

spec_jobs_of-slice :
    (s : Shape) (il e p : ℕ) (ps : List ℕ)
    → elem p ps ≡ true
    → s.nb2 il p ≢ 0
    → 0 < tally (of_slice (entry_id s il e) p) (spec_jobs_of s il e ps)
unfolding spec_jobs_of spec_job
spec_jobs_of-slice s il e p [] m h = absurd (ground (arith, m))
spec_jobs_of-slice s il e p (q ∷ ps) m h = elim (Bool-cases (q == p)) [
  | inl same ↦ let eq : q ≡ p = ground arith in rw eq (ground (arith, h))
  | inr other ↦ ground (arith, other, spec_jobs_of-slice s il e p ps (ground (arith, m, other)) h)
]

entry_id-inj : (s : Shape) (il d e : ℕ) → entry_id s il d ≡ entry_id s il e → d ≡ e
entry_id-inj s il d e h = omega arith

-- Some expert of the list has the entry `id`.
abbrev pub has_entry : Shape → ℕ → List ℕ → ℕ → Bool
has_entry s il [] id = false
has_entry s il (e ∷ es) id = entry_id s il e == id || has_entry s il es id

pub has_entry-elem :
    (s : Shape) (il : ℕ) (ds : List ℕ) (id : ℕ)
    → has_entry s il ds id ≡ true
    → (e : ℕ) × (elem e ds ≡ true) × (entry_id s il e ≡ id)
has_entry-elem s il [] id h = absurd (ground (arith, h))
has_entry-elem s il (d ∷ ds) id h = elim (Bool-cases (entry_id s il d == id)) [
  | inl own ↦ (d, ground arith, ground (arith, own))
  | inr other ↦
      let (e, m, eq) = has_entry-elem s il ds id (ground (arith, h, other)) in
      (e, ground (arith, m), eq)
]

pub jobs_of-none :
    (s : Shape) (il : ℕ) (ds : List ℕ) (id : ℕ)
    → has_entry s il ds id ≡ false
    → tally (of_entry id) (jobs_of s il ds) ≡ 0
unfolding jobs_of
jobs_of-none s il [] id h = refl
jobs_of-none s il (d ∷ ds) id h = omega (
  arith,
  tally-append (of_entry id) (spec_jobs_of s il d projections) (jobs_of s il ds),
  spec_jobs_of-other s il d id projections (ground (arith, h)),
  jobs_of-none s il ds id (ground (arith, h)),
)

pub jobs_of-slice :
    (s : Shape) (il : ℕ) (ds : List ℕ) (e p : ℕ)
    → elem e ds ≡ true
    → p < 3
    → s.nb2 il p ≢ 0
    → 0 < tally (of_slice (entry_id s il e) p) (jobs_of s il ds)
unfolding jobs_of
jobs_of-slice s il [] e p m b h = absurd (ground (arith, m))
jobs_of-slice s il (d ∷ ds) e p m b h = elim (Bool-cases (d == e)) [
  | inl same ↦
      let eq : d ≡ e = ground arith in
      rw (← eq) (
        omega (
          arith,
          tally-append (of_slice (entry_id s il d) p) (spec_jobs_of s il d projections)
              (jobs_of s il ds),
          spec_jobs_of-slice s il d p projections (ground (arith, b)) h,
        ))
  | inr other ↦ omega (
    arith,
    tally-append (of_slice (entry_id s il e) p) (spec_jobs_of s il d projections) (jobs_of s il ds),
    jobs_of-slice s il ds e p (ground (arith, m, other)) b h,
  )
]

pub reset_got-none :
    (s : Shape) (il : ℕ) (ds : List ℕ) (got : ℕ → ℕ → Bool) (id p : ℕ)
    → has_entry s il ds id ≡ false
    → reset_got (entries_of s il ds) got id p ≡ got id p
unfolding entries_of
reset_got-none s il [] got id p h = refl
reset_got-none s il (d ∷ ds) got id p h =
    elim (Bool-cases (length (spec_jobs_of s il d projections) == 0)) [
      | inl empty ↦ rw empty (reset_got-none s il ds got id p (ground (arith, h)))
      | inr some_of_them ↦
          rw some_of_them (reset_got-none s il ds _ id p (ground (arith, h)) ∙ ground (arith, h))
    ]

pub entry_ids-elem :
    (s : Shape) (il : ℕ) (ds : List ℕ) (id : ℕ)
    → tally (of_entry id) (jobs_of s il ds) ≢ 0
    → elem id (entry_ids (entries_of s il ds)) ≡ true
unfolding entries_of jobs_of
entry_ids-elem s il [] id h = absurd (h refl)
entry_ids-elem s il (d ∷ ds) id h =
    let parts = tally-append (of_entry id) (spec_jobs_of s il d projections) (jobs_of s il ds) in
    elim (Bool-cases (entry_id s il d == id)) [
      | inr other ↦ ground (
        arith,
        h,
        other,
        parts,
        spec_jobs_of-other s il d id projections,
        entry_ids-elem s il ds id,
      )
      | inl own ↦ elim (Bool-cases (length (spec_jobs_of s il d projections) == 0)) [
        | inr some_of_them ↦ rw some_of_them (ground (arith, own))
        | inl empty ↦
            let eq : entry_id s il d ≡ id = ground arith in
            let own_none : tally (of_entry id) (spec_jobs_of s il d projections) ≡ 0 =
              rw (← eq) (spec_jobs_of-own s il d projections ∙ ground (arith, empty)) in
            rw empty (entry_ids-elem s il ds id (λ z. h (parts ∙ omega (arith, own_none, z))))
      ]
    ]

own_part :
    (s : Shape) (il e id : ℕ)
    → tally (of_entry id) (spec_jobs_of s il e projections)
      ≡ (if entry_id s il e == id then length (spec_jobs_of s il e projections) else 0)
own_part s il e id = elim (Bool-cases (entry_id s il e == id)) [
  | inl own ↦
      let eq : entry_id s il e ≡ id = ground arith in
      rw own (rw (← eq) (spec_jobs_of-own s il e projections))
  | inr other ↦ rw other (spec_jobs_of-other s il e id projections (ground (arith, other)))
]

pub set_remaining-tally :
    (s : Shape) (il : ℕ) (ds : List ℕ) (r : ℕ → ℕ) (id : ℕ)
    → ((e : ℕ) → elem e ds ≡ true → r (entry_id s il e) ≡ 0)
    → Distinct ds
    → set_remaining (entries_of s il ds) r id ≡ r id + tally (of_entry id) (jobs_of s il ds)
unfolding entries_of jobs_of set_remaining
set_remaining-tally s il [] r id h d = omega arith
set_remaining-tally s il (e ∷ es) r id h d =
    let n = length (spec_jobs_of s il e projections) in
    let parts = tally-append (of_entry id) (spec_jobs_of s il e projections) (jobs_of s il es) in
    elim (Bool-cases (n == 0)) [
      | inl empty ↦ rw empty (
          ground (
            arith,
            empty,
            parts,
            set_remaining-tally s il es r id (λ i m. h i (ground (arith, m))) d.1,
            own_part s il e id,
          ))
      | inr some_of_them ↦
          let rest : (i : ℕ)
              → elem i es ≡ true
              → update r (entry_id s il e) n (entry_id s il i) ≡ 0 =
            λ i m. ground (arith, h i, m, d.0, entry_id-inj s il e i) in
          rw some_of_them (
            ground (
              arith,
              parts,
              h e,
              set_remaining-tally s il es (update r (entry_id s il e) n) id rest d.1,
              own_part s il e id,
            ))
    ]
