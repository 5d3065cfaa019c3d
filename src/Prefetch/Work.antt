-- ===== src/Prefetch/Work.antt =====
-- The lanes keep what holds of speculation.
use meitte.Base.{
  ℕ, zero, suc, ◌<◌, ◌≡◌, refl, Bool, true, false, ◌&&◌, List, [], ◌∷◌, Option, none, some, ◌==◌,
  arith, get_elem?, is, ap, ◌∙◌,
}
use meitte.Cache.{Shape, IoJob, Cache}
use meitte.Prefetch.Defs.{Flying, Spec, mark_got}
use meitte.Prefetch.Lanes.{take_spec, remove_at, account_read}
use meitte.Prefetch.Count.{
  one_if, tally, of_entry, of_slice, pending, tally-drop_next, next-le-length,
}
use meitte.Prefetch.Sound.{AllGen, BelowGen, Sound}

take_spec-pending :
    (t : IoJob → Bool) (j : IoJob) (v : Spec)
    → get_elem? v.cache.spec_jobs v.cache.spec_next ≡ some j
    → pending t (take_spec j v) ≡ pending t v
unfolding take_spec
take_spec-pending t j v at =
    omega (arith, tally-drop_next t v.cache.spec_next v.cache.spec_jobs j at)

pub take_spec-Sound :
    (s : Shape) (j : IoJob) (v : Spec)
    → get_elem? v.cache.spec_jobs v.cache.spec_next ≡ some j
    → Sound s v
    → Sound s (take_spec j v)
unfolding take_spec
take_spec-Sound s j v at k =
    let same : (t : IoJob → Bool) → pending t (take_spec j v) ≡ pending t v =
      λ t. take_spec-pending t j v at in
    record {
      bounded = next-le-length v.cache.spec_next v.cache.spec_jobs j at;
      touched = k.touched;
      quiet = λ id h. unfold take_spec in (same (of_entry id) ∙ k.quiet id h);
      settled = k.settled;
      whole = k.whole;
      filled = k.filled;
      live = λ h.
          let l = k.live h in
          record {
            gens = (refl, l.gens);
            counted = λ id. unfold take_spec in omega (arith, l.counted id, same (of_entry id));
            covered = λ id p a b c d.
                unfold take_spec in omega (arith, l.covered id p a b c d, same (of_slice id p));
          };
      paused = λ h.
          let e = ap (λ js. tally (λ j. true) js) ((k.paused h).empty) in
          absurd (
            omega (arith, e, tally-drop_next (λ j. true) v.cache.spec_next v.cache.spec_jobs j at));
    }

pub remove_at-AllGen : (g n : ℕ) (fs : List Flying) → AllGen g fs → AllGen g (remove_at n fs)
remove_at-AllGen g zero [] h = tt
remove_at-AllGen g (suc n) [] h = tt
remove_at-AllGen g zero (f ∷ fs) h = h.1
remove_at-AllGen g (suc n) (f ∷ fs) h = (h.0, remove_at-AllGen g n fs h.1)

pub remove_at-BelowGen : (g n : ℕ) (fs : List Flying) → BelowGen g fs → BelowGen g (remove_at n fs)
remove_at-BelowGen g zero [] h = tt
remove_at-BelowGen g (suc n) [] h = tt
remove_at-BelowGen g zero (f ∷ fs) h = h.1
remove_at-BelowGen g (suc n) (f ∷ fs) h = (h.0, remove_at-BelowGen g n fs h.1)

pub AllGen-get_elem? :
    (g n : ℕ) (fs : List Flying) (f : Flying) → AllGen g fs → get_elem? fs n ≡ some f → f.gen ≡ g
AllGen-get_elem? g zero [] f h at = absurd (ground arith)
AllGen-get_elem? g (suc n) [] f h at = absurd (ground arith)
AllGen-get_elem? g zero (e ∷ es) f h at = ground arith
AllGen-get_elem? g (suc n) (e ∷ es) f h at = AllGen-get_elem? g n es f h.1 at

pub BelowGen-get_elem? :
    (g n : ℕ) (fs : List Flying) (f : Flying) → BelowGen g fs → get_elem? fs n ≡ some f → f.gen < g
BelowGen-get_elem? g zero [] f h at = absurd (ground arith)
BelowGen-get_elem? g (suc n) [] f h at = absurd (ground arith)
BelowGen-get_elem? g zero (e ∷ es) f h at = ground arith
BelowGen-get_elem? g (suc n) (e ∷ es) f h at = BelowGen-get_elem? g n es f h.1 at

pub mark_got_mono :
    (o : Option ℕ) (q : ℕ) (got : ℕ → ℕ → Bool) (id p : ℕ)
    → got id p ≡ true
    → mark_got o q got id p ≡ true
mark_got_mono none q got id p h = h
mark_got_mono (some i) q got id p h = ground arith

pub mark_got-other :
    (o : Option ℕ) (q : ℕ) (got : ℕ → ℕ → Bool) (id p : ℕ)
    → mark_got o q got id p ≡ false
    → (got id p ≡ false) × (one_if (is o id && q == p) ≡ 0)
mark_got-other none q got id p h = (h, refl)
mark_got-other (some i) q got id p h = ground arith

-- Reads of a disowned round, and failed ones, tell the cache nothing.
pub account_read_ignored :
    (ok current : Bool) (o : Option ℕ) (c : Cache)
    → (ok && current) ≡ false
    → account_read false ok current o c ≡ c
unfolding account_read
account_read_ignored ok current none c h = refl
account_read_ignored true true (some id) c h = absurd (ground arith)
account_read_ignored true false (some id) c h = refl
account_read_ignored false current (some id) c h = refl

pub account_read_late :
    (adopt : Bool) (o : Option ℕ) (c : Cache) → account_read adopt true false o c ≡ c
unfolding account_read
account_read_late adopt none c = refl
account_read_late adopt (some id) c = refl
