-- ===== src/Prefetch/Issued.antt =====
-- An issue keeps what holds of speculation.
use mathlib.Core.Path.{subst}
use meitte.Base.{
  ℕ, ◌+◌, ◌/◌, ◌<◌, ◌≡◌, ◌≢◌, refl, inl, inr, ◌⊎◌, Bool, true, false, List, [], ◌++◌, ◌==◌, arith,
  elem, elem-append, Distinct, Bool-cases, ap, sym, ◌∙◌, length-append, ℤ,
}
use meitte.Cache.{Shape, Vm, IoJob, Cache, entry_id}
use meitte.Cache.Touch.{entry_id-div}
use meitte.Prefetch.Defs.{Spec, queue, reset_got}
use meitte.Prefetch.Issue.{candidates, stage_layer, entry_ids, publish_staged, issue}
use meitte.Cache.Entry.{projections}
use meitte.Prefetch.Slices.{Granted}
use meitte.Prefetch.Staging.{jobs_of, entries_of, Chosen, Stopped, stage_candidates-Chosen}
use meitte.Prefetch.Count.{tally, of_entry, of_slice, pending, tally-append, drop-append}
use meitte.Prefetch.Reads.{
  candidates-fresh, NotDone-elem, has_entry, has_entry-elem, jobs_of-none, jobs_of-slice,
  reset_got-none, entry_ids-elem, set_remaining-tally,
}
use meitte.Prefetch.Steps.{NotDone}
use meitte.Prefetch.Sound.{Sound}

module _ (vm : Vm) (s : Shape) (il : ℕ) (ids : List ℤ) (v : Spec) where
  abbrev chosen_from : List ℕ
  chosen_from = candidates s v.cache il ids

  -- The experts of the issue.
  pub issue-Chosen :
      Chosen vm s il chosen_from
        (record { cache = v.cache; jobs = []; entries = [] })
        (stage_layer vm s il ids v.cache)
  unfolding stage_layer
  issue-Chosen =
      stage_candidates-Chosen vm s il chosen_from
        (record { cache = v.cache; jobs = []; entries = [] })

  module _ (once : Distinct chosen_from) (undone : NotDone s v.cache il chosen_from)
      (going : v.quiescing ≡ false) (k : Sound s v) where
    abbrev experts : List ℕ
    experts = issue-Chosen.experts

    abbrev after : Cache
    after = publish_staged (stage_layer vm s il ids v.cache)

    fresh :
        (e : ℕ)
        → elem e experts ≡ true
        → (e < s.n_expert)
          × (v.cache.cvalid (entry_id s il e) ≡ false)
          × (v.cache.spec_remaining (entry_id s il e) ≡ 0)
    fresh e m = candidates-fresh s v.cache il ids e (issue-Chosen.among e m)

    after-queue : queue after ≡ queue v.cache ++ jobs_of s il experts
    unfolding publish_staged
    after-queue =
        let u = issue-Chosen.untouched in
        rw (issue-Chosen.all_jobs, u.same.same_jobs, u.same.same_next)
          (drop-append v.cache.spec_next v.cache.spec_jobs (jobs_of s il experts) k.bounded)

    after-pending :
        (t : IoJob → Bool)
        → pending t (issue vm s il ids v) ≡ pending t v + tally t (jobs_of s il experts)
    unfolding issue
    after-pending t =
        omega
          (arith, ap (tally t) after-queue, tally-append t (queue v.cache) (jobs_of s il experts))

    after-remaining :
        (id : ℕ)
        → after.spec_remaining id
          ≡ v.cache.spec_remaining id + tally (of_entry id) (jobs_of s il experts)
    unfolding publish_staged
    after-remaining id =
        rw (issue-Chosen.all_entries, issue-Chosen.untouched.same.same_remaining)
          (set_remaining-tally s il experts v.cache.spec_remaining id (λ e m. (fresh e m).2)
            (issue-Chosen.once once))

    -- What is resident or waits to be integrated is not issued.
    not_issued_resident : (id : ℕ) → v.cache.cvalid id ≡ true → has_entry s il experts id ≡ false
    not_issued_resident id h = elim (Bool-cases (has_entry s il experts id)) [
      | inr other ↦ other
      | inl own ↦
          let (e, m, eq) = has_entry-elem s il experts id own in
          absurd (ground (arith, fresh e m, rw (← eq) at h))
    ]

    not_issued_done :
        (id : ℕ) → elem id v.cache.spec_done ≡ true → has_entry s il experts id ≡ false
    not_issued_done id h = elim (Bool-cases (has_entry s il experts id)) [
      | inr other ↦ other
      | inl own ↦
          let (e, m, eq) = has_entry-elem s il experts id own in
          absurd (
            ground (
              arith,
              NotDone-elem s v.cache il chosen_from e undone (issue-Chosen.among e m),
              rw (← eq) at h,
            ))
    ]

    abbrev marks : ℕ → ℕ → Bool
    marks = reset_got (stage_layer vm s il ids v.cache).entries v.got

    same_marks : (id p : ℕ) → has_entry s il experts id ≡ false → marks id p ≡ v.got id p
    same_marks id p h = rw issue-Chosen.all_entries (reset_got-none s il experts v.got id p h)

    after-same :
        (after.cvalid ≡ v.cache.cvalid)
        × (after.cspec ≡ v.cache.cspec)
        × (after.spec_done ≡ v.cache.spec_done)
        × (after.spec_gen ≡ v.cache.spec_gen)
        × (after.spec_next ≡ v.cache.spec_next)
        × (after.spec_jobs ≡ v.cache.spec_jobs ++ jobs_of s il experts)
        × (after.spec_touched ≡ v.cache.spec_touched ++ entry_ids (entries_of s il experts))
    unfolding publish_staged
    after-same =
        let u = issue-Chosen.untouched in
        (
          u.same_valid,
          u.same_spec,
          u.same_done,
          u.same.same_gen,
          u.same.same_next,
          rw (issue-Chosen.all_jobs, u.same.same_jobs) refl,
          rw (issue-Chosen.all_entries, u.same.same_touched) refl,
        )

    after-touched : (id : ℕ) → after.spec_remaining id ≢ 0 → elem id after.spec_touched ≡ true
    after-touched id h =
        let added = tally (of_entry id) (jobs_of s il experts) in
        rw after-same.6 (
          elem-append id v.cache.spec_touched (entry_ids (entries_of s il experts))
          ∙ elim (Bool-cases (added == 0)) [
            | inl none_added ↦ ground (arith, none_added, k.touched id, h, after-remaining id)
            | inr some_added ↦ ground (arith, some_added, entry_ids-elem s il experts id)
          ])

    after-covered :
        (id p : ℕ)
        → after.spec_remaining id ≢ 0
        → p < 3
        → s.nb2 (id / s.n_expert) p ≢ 0
        → marks id p ≡ false
        → 0 < pending (of_slice id p) (issue vm s il ids v) + tally (of_slice id p) v.lost
    after-covered id p a b c d = elim (Bool-cases (has_entry s il experts id)) [
      | inl own ↦
          let (e, m, eq) = has_entry-elem s il experts id own in
          let layer : id / s.n_expert ≡ il =
            ap (λ z. z / s.n_expert) (sym eq) ∙ entry_id-div s il e (fresh e m).0 in
          omega (
            arith,
            after-pending (of_slice id p),
            subst (λ z. 0 < tally (of_slice z p) (jobs_of s il experts)) eq
                (jobs_of-slice s il experts e p m b (rw layer at c)),
          )
      | inr other ↦
          let left : v.cache.spec_remaining id ≢ 0 =
            λ z. a (after-remaining id ∙ omega (arith, z, jobs_of-none s il experts id other)) in
          omega (
            arith,
            after-pending (of_slice id p),
            (k.live going).covered id p left b c (sym (same_marks id p other) ∙ d),
          )
    ]

    pub issue-Sound : Sound s (issue vm s il ids v)
    unfolding issue
    issue-Sound =
        let l = k.live going in
        let e = after-same in
        record {
          bounded =
              rw (e.4, e.5)
                (omega (arith, k.bounded, length-append v.cache.spec_jobs (jobs_of s il experts)));
          touched = after-touched;
          quiet = λ id h.
              let h' : v.cache.cvalid id ≡ true = rw e.0 at h in
              unfold issue in
              omega (
                arith,
                after-pending (of_entry id),
                k.quiet id h',
                jobs_of-none s il experts id (not_issued_resident id h'),
              );
          settled = λ id h.
              let h' : elem id v.cache.spec_done ≡ true = rw e.2 at h in
              omega (
                arith,
                after-remaining id,
                k.settled id h',
                jobs_of-none s il experts id (not_issued_done id h'),
              );
          whole = λ id h p a b.
              let h' : elem id v.cache.spec_done ≡ true = rw e.2 at h in
              same_marks id p (not_issued_done id h') ∙ k.whole id h' p a b;
          filled = λ id h g p a b.
              let h' : v.cache.cvalid id ≡ true = rw e.0 at h in
              same_marks id p (not_issued_resident id h') ∙ k.filled id h' (rw e.1 at g) p a b;
          live = λ h. record {
            gens = rw e.3 l.gens;
            counted = λ id.
                unfold issue in
                omega (arith, after-remaining id, after-pending (of_entry id), l.counted id);
            covered = λ id p a b c d. after-covered id p a b c d;
          };
          paused = λ h. absurd (ground (arith, h, going));
        }

-- An issue of candidates without repetition, whichever commits of pages are refused, queues the
-- reads of some of the candidates, in order, behind the queue: of all of them, or of those before
-- one that had the commit of a slice refused, and then it handed back the pages of this one. For
-- each expert that it queues every slice that is present had its pages committed, all of its slices
-- are queued, and its entry is marked and has exactly the reads counted; it queues and counts
-- nothing for the others.
pub issue_whole :
    (vm : Vm) (s : Shape) (il : ℕ) (ids : List ℤ) (v : Spec)
    → Distinct (candidates s v.cache il ids)
    → let w = (issue vm s il ids v).cache in
      (es : List ℕ) × ((es ≡ candidates s v.cache il ids)
        ⊎ Stopped vm s il (candidates s v.cache il ids) es w.os)
      × ((e p : ℕ)
          → elem e es ≡ true
          → elem p projections ≡ true
          → s.nb2 il p ≢ 0
          → Granted vm s il e p w.os)
      × (w.spec_jobs ≡ v.cache.spec_jobs ++ jobs_of s il es)
      × (w.spec_touched ≡ v.cache.spec_touched ++ entry_ids (entries_of s il es))
      × ((id : ℕ)
          → w.spec_remaining id ≡ v.cache.spec_remaining id + tally (of_entry id) (jobs_of s il es))
unfolding issue publish_staged
issue_whole vm s il ids v once =
    let ch = issue-Chosen vm s il ids v in
    let u = ch.untouched in
    (
      ch.experts,
      ch.ended,
      ch.granted,
      rw (ch.all_jobs, u.same.same_jobs) refl,
      rw (ch.all_entries, u.same.same_touched) refl,
      λ id.
          rw (ch.all_entries, u.same.same_remaining)
            (set_remaining-tally s il ch.experts v.cache.spec_remaining id
              (λ e m. (candidates-fresh s v.cache il ids e (ch.among e m)).2) (ch.once once)),
    )
