-- ===== src/Cache/Pages.antt =====
-- Which pages an entry commits and releases. Slices of neighbouring experts touch, so a page may hold
-- the end of one and the start of the next.
use meitte.Base.{
  ℕ, suc, ◌+◌, ◌*◌, ◌≤◌, ◌<◌, ◌≢◌, arith, align_down-le, align_down-gt, align_up-ge, align_up-lt,
}
use native.Mathlib.Decide.{dec_lt}
use meitte.Cache.Defs.{Shape}
use meitte.Cache.Entry.{commit_range, release_range, slice_address}

slice_step : (n e d : ℕ) → suc e ≤ d → suc e * n ≤ d * n
slice_step n e d h = grind arith

slice_apart :
    (base n e d b : ℕ)
    → base + e * n ≤ b
    → b < base + e * n + n
    → base + d * n ≤ b
    → b < base + d * n + n
    → d ≢ e
    → ⊥
slice_apart base n e d b h1 h2 h3 h4 ne = elim (dec_lt e d) [
  | yes lt ↦ omega (arith, slice_step n e d lt)
  | no ge ↦ let lt : d < e = omega arith in omega (arith, slice_step n d e lt)
]

-- What is committed for a slice covers it and starts and ends less than a page away from it, for a
-- page size above 0.
pub commit_range-covers :
    (s : Shape) (il e p : ℕ)
    → 0 < s.page
    → let (a0, a1) = commit_range s il e p in
      (a0 ≤ slice_address s il e p)
      × (slice_address s il e p + s.nb2 il p ≤ a1)
      × (slice_address s il e p < a0 + s.page)
      × (a1 < slice_address s il e p + s.nb2 il p + s.page)
unfolding commit_range
commit_range-covers s il e p h =
    let x = slice_address s il e p in
    let y = x + s.nb2 il p in
    (
      align_down-le x s.page h,
      align_up-ge y s.page h,
      align_down-gt x s.page h,
      align_up-lt y s.page h,
    )

-- The pages that an entry gives back hold no byte of another expert's slice of the same layer and
-- projection, not even where slices share a page, for a page size above 0.
pub release_range-inside :
    (s : Shape) (il e d p b : ℕ)
    → 0 < s.page
    → d ≢ e
    → (release_range s il e p).0 ≤ b
    → b < (release_range s il e p).1
    → ¬ ((slice_address s il d p ≤ b) × (b < slice_address s il d p + s.nb2 il p))
unfolding release_range
release_range-inside s il e d p b h ne lo hi (in_lo, in_hi) =
    let x = slice_address s il e p in
    let lo' : x ≤ b = omega (arith, align_up-ge x s.page h) in
    let hi' : b < x + s.nb2 il p = omega (arith, align_down-le (x + s.nb2 il p) s.page h) in
    slice_apart (s.lbuf p il) (s.nb2 il p) e d b lo' hi' in_lo in_hi ne
