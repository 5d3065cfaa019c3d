-- ===== src/Prefetch/Land.antt =====
-- The end of a read keeps what holds of speculation.
use meitte.Base.{
  ℕ, ◌+◌, ◌-◌, ◌/◌, ◌<◌, ◌≤◌, ◌≡◌, ◌≢◌, refl, inl, inr, Bool, true, false, [], ◌∷◌, Option, none,
  some, ◌==◌, arith, get_elem?, elem, elem-append, Bool-cases, Option-cases, is, update, sym,
}
use mathlib.Core.Path.{subst}
use meitte.Cache.{Shape, IoJob}
use meitte.Prefetch.Defs.{Flying, Spec, queue, mark_got}
use meitte.Prefetch.Lanes.{remove_at, count_down, account_read, land_spec}
use meitte.Prefetch.Count.{
  one_if, tally, of_entry, of_slice, pending, tally-remove_at, tally_mono, of_slice-le-of_entry,
}
use meitte.Prefetch.Sound.{Filled, Sound}
use meitte.Prefetch.Work.{
  remove_at-AllGen, remove_at-BelowGen, AllGen-get_elem?, BelowGen-get_elem?, mark_got_mono,
  mark_got-other, account_read_late,
}

pub pending_slice-le : (id p : ℕ) (v : Spec) → pending (of_slice id p) v ≤ pending (of_entry id) v
pending_slice-le id p v = omega (
  arith,
  tally_mono (of_slice id p) (of_entry id) (queue v.cache) (of_slice-le-of_entry id p),
  tally_mono (λ (f : Flying). of_slice id p f.job) (λ f. of_entry id f.job) v.flight
      (λ f. of_slice-le-of_entry id p f.job),
)

flag_of_own : (o : Option ℕ) (i : ℕ) → o ≡ some i → one_if (is o i) ≡ 1
flag_of_own o i h = rw h (ground arith)

flag_of_other : (o : Option ℕ) (i j : ℕ) → o ≡ some i → i ≢ j → one_if (is o j) ≡ 0
flag_of_other o i j h g = rw h (ground arith)

flag_of_none : (o : Option ℕ) (j : ℕ) → o ≡ none → one_if (is o j) ≡ 0
flag_of_none o j h = rw h refl

module _ (s : Shape) (n : ℕ) (f : Flying) (v : Spec) (at : get_elem? v.flight n ≡ some f)
    (k : Sound s v) where
  -- The state with the read out of flight.
  abbrev landing : Spec
  landing = record v { flight = remove_at n v.flight }

  landing-pending : (t : IoJob → Bool) → pending t v ≡ one_if (t f.job) + pending t landing
  landing-pending t = omega (arith, tally-remove_at (λ (g : Flying). t g.job) n v.flight f at)

  landing-quiet : (id : ℕ) → v.cache.cvalid id ≡ true → pending (of_entry id) landing ≡ 0
  landing-quiet id h = omega (arith, k.quiet id h, landing-pending (of_entry id))

  -- A failed read of a source that does not adopt.
  lost-Sound : (b : ℕ) → Sound s (record landing { lost = f.job ∷ v.lost; read_bytes = b })
  lost-Sound b = record {
    bounded = k.bounded;
    touched = k.touched;
    quiet = landing-quiet;
    settled = k.settled;
    whole = k.whole;
    filled = k.filled;
    live = λ h.
        let l = k.live h in
        record {
          gens = remove_at-AllGen v.cache.spec_gen n v.flight l.gens;
          counted = λ id. omega (arith, l.counted id, landing-pending (of_entry id));
          covered = λ id p a b c d.
              omega (arith, l.covered id p a b c d, landing-pending (of_slice id p));
        };
    paused = λ h.
        let q = k.paused h in
        record { stale = remove_at-BelowGen v.cache.spec_gen n v.flight q.stale; empty = q.empty };
  }

  marked-Filled : (id : ℕ) → Filled s v.got id → Filled s (mark_got f.job.flag f.job.proj v.got) id
  marked-Filled id h p a b = mark_got_mono f.job.flag f.job.proj v.got id p (h p a b)

  -- A read of a disowned round.
  late-Sound :
      v.quiescing ≡ true → Sound s (record landing { got = mark_got f.job.flag f.job.proj v.got })
  late-Sound h = record {
    bounded = k.bounded;
    touched = k.touched;
    quiet = landing-quiet;
    settled = k.settled;
    whole = λ id e. marked-Filled id (k.whole id e);
    filled = λ id a b. marked-Filled id (k.filled id a b);
    live = λ g. absurd (ground (arith, g, h));
    paused = λ h.
        let q = k.paused h in
        record { stale = remove_at-BelowGen v.cache.spec_gen n v.flight q.stale; empty = q.empty };
  }

  -- A read for no entry.
  stray-Sound : (b : ℕ) → f.job.flag ≡ none → Sound s (record landing { read_bytes = b })
  stray-Sound b h = record {
    bounded = k.bounded;
    touched = k.touched;
    quiet = landing-quiet;
    settled = k.settled;
    whole = k.whole;
    filled = k.filled;
    live = λ g.
        let l = k.live g in
        record {
          gens = remove_at-AllGen v.cache.spec_gen n v.flight l.gens;
          counted = λ id.
              omega
                (arith, l.counted id, landing-pending (of_entry id), flag_of_none f.job.flag id h);
          covered = λ id p a b c d. omega (
            arith,
            l.covered id p a b c d,
            landing-pending (of_slice id p),
            of_slice-le-of_entry id p f.job,
            flag_of_none f.job.flag id h,
          );
        };
    paused = λ g.
        let q = k.paused g in
        record { stale = remove_at-BelowGen v.cache.spec_gen n v.flight q.stale; empty = q.empty };
  }

  module _ (going : v.quiescing ≡ false) where
    open k.live going use {gens, counted, covered}

    marked_covered :
        (id p : ℕ)
        → v.cache.spec_remaining id ≢ 0
        → p < 3
        → s.nb2 (id / s.n_expert) p ≢ 0
        → mark_got f.job.flag f.job.proj v.got id p ≡ false
        → 0 < pending (of_slice id p) landing + tally (of_slice id p) v.lost
    marked_covered id p a b c d =
        let (g, z) = mark_got-other f.job.flag f.job.proj v.got id p d in
        omega (arith, covered id p a b c g, landing-pending (of_slice id p), z)

    module _ (i : ℕ) (own : f.job.flag ≡ some i) where
      one_left : pending (of_entry i) v ≡ 1 + pending (of_entry i) landing
      one_left = omega (arith, landing-pending (of_entry i), flag_of_own f.job.flag i own)

      -- With the last of its reads an entry is filled.
      last-Filled : v.cache.spec_remaining i ≡ 1 → Filled s (mark_got f.job.flag f.job.proj v.got) i
      last-Filled one p a b = elim (Bool-cases (mark_got f.job.flag f.job.proj v.got i p)) [
        | inl there ↦ there
        | inr missing ↦ absurd (
            omega (
              arith,
              marked_covered i p (omega (arith, one)) a b missing,
              counted i,
              one,
              one_left,
              pending_slice-le i p landing,
              tally_mono (of_slice i p) (of_entry i) v.lost (of_slice-le-of_entry i p),
            ))
      ]

      -- A read of this round, for an entry.
      counted-Sound :
          (b : ℕ)
          → Sound s (record landing {
            cache = count_down i v.cache;
            got = mark_got f.job.flag f.job.proj v.got;
            read_bytes = b;
          })
      unfolding count_down
      counted-Sound b = record {
        bounded = k.bounded;
        touched = λ id h. k.touched id (ground (arith, h));
        quiet = landing-quiet;
        settled = λ id h. ground (arith, k.settled id, elem-append id v.cache.spec_done (i ∷ []));
        whole = λ id h. elim (Bool-cases (elem id v.cache.spec_done)) [
          | inl before ↦ marked-Filled id (k.whole id before)
          | inr new ↦
              let (same, one) : (i ≡ id) × (v.cache.spec_remaining i ≡ 1) = fresh id h new in
              subst (Filled s (mark_got f.job.flag f.job.proj v.got)) same (last-Filled one)
        ];
        filled = λ id a b. marked-Filled id (k.filled id a b);
        live = λ h. record {
          gens = remove_at-AllGen v.cache.spec_gen n v.flight gens;
          counted = λ id. down id;
          covered = λ id p a b c d. marked_covered id p (ground (arith, a)) b c d;
        };
        paused = λ h. absurd (ground (arith, h, going));
      }
        where
          fresh :
              (id : ℕ)
              → elem id (count_down i v.cache).spec_done ≡ true
              → elem id v.cache.spec_done ≡ false
              → (i ≡ id) × (v.cache.spec_remaining i ≡ 1)
          fresh id h new =
              ground (arith, elem-append id v.cache.spec_done (i ∷ []), counted i, one_left)

          down :
              (id : ℕ)
              → (count_down i v.cache).spec_remaining id
                ≡ pending (of_entry id) landing + tally (of_entry id) v.lost
          down id = elim (Bool-cases (i == id)) [
            | inl same ↦
                let eq : i ≡ id = ground arith in
                subst
                  (λ z.
                    update v.cache.spec_remaining i (v.cache.spec_remaining i - 1) z
                    ≡ pending (of_entry z) landing + tally (of_entry z) v.lost)
                  eq (ground (arith, counted i, one_left))
            | inr other ↦ ground (
              arith,
              counted id,
              landing-pending (of_entry id),
              flag_of_other f.job.flag i id own (ground arith),
            )
          ]

land_false-eq :
    (n : ℕ) (f : Flying) (v : Spec)
    → v.adopt ≡ false
    → land_spec false n f v ≡ record v { flight = remove_at n v.flight; lost = f.job ∷ v.lost }
unfolding land_spec account_read
land_false-eq n f v e = elim (Option-cases f.job.flag) [
  | inl nobody ↦ ground (arith, nobody)
  | inr (i, own) ↦ ground (arith, own)
]

land_late-eq :
    (n : ℕ) (f : Flying) (v : Spec)
    → (f.gen == v.cache.spec_gen) ≡ false
    → land_spec true n f v
      ≡ record v { flight = remove_at n v.flight; got = mark_got f.job.flag f.job.proj v.got }
unfolding land_spec
land_late-eq n f v e = rw (e, account_read_late v.adopt f.job.flag v.cache) refl

land_none-eq :
    (n : ℕ) (f : Flying) (v : Spec)
    → (f.gen == v.cache.spec_gen) ≡ true
    → f.job.flag ≡ none
    → land_spec true n f v
      ≡ record v { flight = remove_at n v.flight; read_bytes = v.read_bytes + f.job.nbytes }
unfolding land_spec account_read
land_none-eq n f v e h = ground (arith, e, h)

land_some-eq :
    (n : ℕ) (f : Flying) (v : Spec) (i : ℕ)
    → (f.gen == v.cache.spec_gen) ≡ true
    → f.job.flag ≡ some i
    → v.cache.spec_remaining i ≢ 0
    → land_spec true n f v ≡ record v {
      cache = count_down i v.cache;
      flight = remove_at n v.flight;
      got = mark_got f.job.flag f.job.proj v.got;
      read_bytes = v.read_bytes + f.job.nbytes;
    }
unfolding land_spec account_read
land_some-eq n f v i e h r = ground (arith, e, h, r)

pub land_spec-Sound :
    (s : Shape) (ok : Bool) (n : ℕ) (f : Flying) (v : Spec)
    → get_elem? v.flight n ≡ some f
    → (land_spec ok n f v).forgot ≡ false
    → Sound s v
    → Sound s (land_spec ok n f v)
unfolding land_spec
land_spec-Sound s false n f v at fine k =
    let quiet : v.adopt ≡ false = ground (arith, fine) in
    subst (Sound s) (sym (land_false-eq n f v quiet)) (lost-Sound s n f v at k v.read_bytes)
land_spec-Sound s true n f v at fine k = elim (Bool-cases v.quiescing) [
  | inl waiting ↦
      let old = BelowGen-get_elem? v.cache.spec_gen n v.flight f (k.paused waiting).stale at in
      subst (Sound s) (sym (land_late-eq n f v (ground (arith, old))))
        (late-Sound s n f v at k waiting)
  | inr going ↦
      let now = AllGen-get_elem? v.cache.spec_gen n v.flight f (k.live going).gens at in
      elim (Option-cases f.job.flag) [
        | inl nobody ↦
            subst (Sound s) (sym (land_none-eq n f v (ground (arith, now)) nobody))
              (stray-Sound s n f v at k (v.read_bytes + f.job.nbytes) nobody)
        | inr (i, own) ↦
            let left : v.cache.spec_remaining i ≢ 0 = λ z.
              absurd
                (omega (arith, z, (k.live going).counted i, one_left s n f v at k going i own)) in
            subst (Sound s) (sym (land_some-eq n f v i (ground (arith, now)) own left))
              (counted-Sound s n f v at k going i own (v.read_bytes + f.job.nbytes))
      ]
]
