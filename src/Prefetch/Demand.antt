-- ===== src/Prefetch/Demand.antt =====
-- A lookup of an entry with no speculative read left, and an eviction.
use mathlib.Core.Path.{subst}
use meitte.Base.{
  ℕ, ◌+◌, ◌≡◌, refl, inl, inr, ◌⊎◌, Bool, true, false, Option, if◌then◌else◌, arith, Bool-cases,
  update, sym,
}
use meitte.Cache.{Shape, Vm, Cache, entry_id}
use meitte.Cache.Entry.{
  projections, touch_entry, after_commit, enter_entry, count_hit, promote_entry, commit_projs,
  evict_entry,
}
use meitte.Cache.Touch.{OnlyOs, commit_projs-OnlyOs}
use meitte.Prefetch.Defs.{Spec}
use meitte.Prefetch.Count.{of_entry, pending}
use meitte.Prefetch.Cached.{SameReads, SameReads-Sound}
use meitte.Prefetch.Sound.{Sound}

-- What a lookup of the entry `id` does to the fields of speculation.
pub record Looked (id : ℕ) (c d : Cache) : Type 0 where
  pub same : SameReads c d
  pub same_done : d.spec_done ≡ c.spec_done
  pub valid : (i : ℕ) → d.cvalid i ≡ true → (c.cvalid i ≡ true) ⊎ (i ≡ id)
  pub spec :
      (i : ℕ) → d.cvalid i ≡ true → d.cspec i ≡ true → (c.cvalid i ≡ true) × (c.cspec i ≡ true)

OnlyOs-Looked : (id : ℕ) (c d : Cache) → OnlyOs c d → Looked id c d
OnlyOs-Looked id c d h = subst (Looked id c) (sym h) (record {
  same = record {
    same_jobs = refl;
    same_next = refl;
    same_gen = refl;
    same_touched = refl;
    same_remaining = refl;
  };
  same_done = refl;
  valid = λ i h. inl h;
  spec = λ i h g. (h, g);
})

enter_entry-Looked :
    (s : Shape) (il id : ℕ) (c d : Cache) → OnlyOs c d → Looked id c (enter_entry s il id d)
unfolding enter_entry
enter_entry-Looked s il id c d h =
    subst (λ z. Looked id c (enter_entry s il id z)) (sym h)
      (unfold enter_entry in
        record {
          same = record {
            same_jobs = refl;
            same_next = refl;
            same_gen = refl;
            same_touched = refl;
            same_remaining = refl;
          };
          same_done = refl;
          valid = λ i h. ground (arith, h);
          spec = λ i h g. ground (arith, h, g);
        })

after_commit-Looked :
    (s : Shape) (il id : ℕ) (c : Cache) (r : Cache × Bool)
    → OnlyOs c r.0
    → Looked id c (after_commit s il id r).0
after_commit-Looked s il id c (d, true) h = enter_entry-Looked s il id c d h
after_commit-Looked s il id c (d, false) h = OnlyOs-Looked id c d h

hit-Looked :
    (promote : Bool) (id : ℕ) (c : Cache)
    → Looked id c (if promote then promote_entry id (count_hit id c) else count_hit id c)
unfolding promote_entry count_hit
hit-Looked promote id c = record {
  same = record {
    same_jobs = ground arith;
    same_next = ground arith;
    same_gen = ground arith;
    same_touched = ground arith;
    same_remaining = ground arith;
  };
  same_done = ground arith;
  valid = λ i h. ground (arith, h);
  spec = λ i h g. ground (arith, h, g);
}

looked-Looked :
    (id : ℕ) (c d : Cache) (n : ℕ) (stamp : ℕ → ℕ)
    → Looked id (record c { clookups = n; cstamp = stamp }) d
    → Looked id c d
looked-Looked id c d n stamp h = record {
  same = record {
    same_jobs = h.same.same_jobs;
    same_next = h.same.same_next;
    same_gen = h.same.same_gen;
    same_touched = h.same.same_touched;
    same_remaining = h.same.same_remaining;
  };
  same_done = h.same_done;
  valid = h.valid;
  spec = h.spec;
}

pub touch_entry-Looked :
    (vm : Vm) (s : Shape) (il e : ℕ) (promote : Bool) (only : Option ℕ) (c : Cache)
    → Looked (entry_id s il e) c (touch_entry vm s il e promote only c).0
unfolding touch_entry
touch_entry-Looked vm s il e promote only c =
    let id = entry_id s il e in
    let looked : Cache = record c {
      clookups = c.clookups + 1;
      cstamp = update c.cstamp id c.cgen;
    } in
    elim (Bool-cases (c.cvalid id)) [
      | inl there ↦
          rw (there, touch_entry)
            (looked-Looked id c _ (c.clookups + 1) (update c.cstamp id c.cgen)
              (hit-Looked promote id looked))
      | inr absent ↦
          rw (absent, touch_entry)
            (looked-Looked id c _ (c.clookups + 1) (update c.cstamp id c.cgen) (
              after_commit-Looked s il id looked (commit_projs vm s il e only projections looked)
                (commit_projs-OnlyOs vm s il e only projections looked)))
    ]

pub touch_entry-Sound :
    (vm : Vm) (s : Shape) (il e : ℕ) (promote : Bool) (only : Option ℕ) (v : Spec)
    → v.quiescing ≡ false
    → v.cache.spec_remaining (entry_id s il e) ≡ 0
    → Sound s v
    → Sound s (record v { cache = (touch_entry vm s il e promote only v.cache).0 })
touch_entry-Sound vm s il e promote only v going none_left k =
    let l = touch_entry-Looked vm s il e promote only v.cache in
    let zero_left : pending (of_entry (entry_id s il e)) v ≡ 0 =
      omega (arith, (k.live going).counted (entry_id s il e), none_left) in
    SameReads-Sound s v (touch_entry vm s il e promote only v.cache).0 l.same
      (λ id h. rw l.same_done at h)
      (λ id h. elim (l.valid id h) [
        | inl before ↦ k.quiet id before
        | inr own ↦ subst (λ z. pending (of_entry z) v ≡ 0) (sym own) zero_left
      ])
      (λ id h g. let (a, b) = l.spec id h g in k.filled id a b) k

pub evict_entry-Sound :
    (s : Shape) (id : ℕ) (v : Spec)
    → Sound s v
    → Sound s (record v { cache = evict_entry s id v.cache })
unfolding evict_entry
evict_entry-Sound s id v k =
    SameReads-Sound s v (evict_entry s id v.cache)
      (record {
        same_jobs = refl;
        same_next = refl;
        same_gen = refl;
        same_touched = refl;
        same_remaining = refl;
      })
      (λ i h. h) (λ i h. k.quiet i (ground (arith, h)))
      (λ i h g. k.filled i (ground (arith, h)) (ground (arith, g))) k
