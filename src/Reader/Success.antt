-- ===== src/Reader/Success.antt =====
-- Where the platform answers, `read` succeeds on every request inside the file.
use meitte.Base.{
  ℕ, ◌+◌, ◌-◌, ◌*◌, ◌≤◌, ◌<◌, ◌≡◌, refl, Bool, true, false, not, List, Option, none, some, arith,
  if◌then◌else◌, ltb, ◌==◌, align_down-le,
}
use meitte.Reader.Defs.{Call, Pread, Content, Alloc, Lane, Reader, Filling}
use meitte.Reader.Read.{
  Outcome, after_plain, window_start, window_end, read_end, bulk_end, after_tail, read_tail,
  after_bulk, grown, with_bounce, read, is_outside,
}
use meitte.Reader.Fill.{Answers, fill_range_succeeds}
use meitte.Reader.Deliver.{Window, window}

-- The read succeeds and pulls at least what was asked for, less than two blocks more, and no more than
-- the file has from the block on in which the request starts.
abbrev pub Pulls : ℕ → ℕ → Reader → Outcome → Type 0
Pulls off n r o =
    (w : ℕ) × (o.pulled ≡ some w)
    × (n ≤ w)
    × (w < n + 2 * r.align)
    × (window_start r off + w ≤ r.fsize)

module _ (pread : Pread) (content : Content) (alloc : Alloc) (off n : ℕ) (dst : ℕ → ℕ) (r : Reader)
    (answers : Answers r.fsize pread) (h : 0 < r.align) (inside : off + n ≤ r.fsize) where
  after_plain-Pulls :
      (l : Lane) (q : Filling × Bool) → q.1 ≡ true → Pulls off n r (after_plain n l r q)
  after_plain-Pulls l (f, true) ok =
      (n, refl, omega arith, omega (arith, h), omega (arith, align_down-le off r.align h, inside))
  after_plain-Pulls l (f, false) ok = absurd (ground arith)

  module _ (some_bytes : 0 < n) where
    within : read_end r off n ≤ r.fsize
    within = ground (arith, inside, some_bytes)

    after_tail-Pulls :
        (l : Lane) (q : Filling × Bool)
        → Window r off n
        → q.1 ≡ true
        → Pulls off n r (after_tail off n dst l r q)
    after_tail-Pulls l (f, true) win ok = (
      read_end r off n - window_start r off,
      refl,
      omega (arith, win.starts, win.ends),
      omega (arith, win.starts, win.ends, win.short, win.close),
      omega (arith, win.starts, win.ends, within),
    )
    after_tail-Pulls l (f, false) win ok = absurd (ground arith)

    read_tail-Pulls :
        (l : Lane) (f : Filling) (o : Option ℕ) (fd : ℕ)
        → Window r off n
        → o ≡ some fd
        → Pulls off n r (read_tail pread content off n dst l r f o)
    read_tail-Pulls l f none fd win e = absurd (ground arith)
    read_tail-Pulls l f (some g) fd win e = after_tail-Pulls l _ win (
        fill_range_succeeds pread content r.fsize answers g (window_start r off) (read_end r off n)
          within (bulk_end r off n) f)

    after_bulk-Pulls :
        (l : Lane) (q : Filling × Bool) (fd : ℕ)
        → Window r off n
        → l.fd_buf ≡ some fd
        → q.1 ≡ true
        → Pulls off n r (after_bulk pread content off n dst l r q)
    after_bulk-Pulls l (f, true) fd win e ok = read_tail-Pulls l f l.fd_buf fd win e
    after_bulk-Pulls l (f, false) fd win e ok = absurd (ground arith)

    with_bounce-Pulls :
        (l : Lane) (cs : List Call) (fd : ℕ) (b : Bool) (len : ℕ) (a : Option (ℕ → ℕ))
        → Window r off n
        → l.fd_buf ≡ some fd
        → (g : ℕ → ℕ) → a ≡ some g
        → Pulls off n r
            (with_bounce pread content off n dst l r cs (if b then grown len l a else some l))
    with_bounce-Pulls l cs fd true len none win e g k = absurd (ground arith)
    with_bounce-Pulls l cs fd true len (some b) win e g k =
        after_bulk-Pulls (record l { bounce = b; bounce_sz = len }) _ fd win e
          (fill_range_succeeds pread content r.fsize answers l.fd (window_start r off)
            (bulk_end r off n) (omega (arith, win.tail, within)) (window_start r off) _)
    with_bounce-Pulls l cs fd false len a win e g k = after_bulk-Pulls l _ fd win e (
        fill_range_succeeds pread content r.fsize answers l.fd (window_start r off)
          (bulk_end r off n) (omega (arith, win.tail, within)) (window_start r off) _)

  -- A read of a range inside the file succeeds and pulls at least the requested bytes, less than
  -- two blocks more, and no byte behind the end of the file, for a read alignment above 0, where
  -- every call for at least one byte that starts inside the file moves one (a call at its end need
  -- not), allocations are granted and the lane has its buffered descriptor.
  pub read-Pulls :
      (l : Lane) (cs : List Call) (fd : ℕ)
      → l.fd_buf ≡ some fd
      → ((len : ℕ) → (g : ℕ → ℕ) × (alloc len ≡ some g))
      → Pulls off n r (read pread content alloc off n dst l r cs)
  unfolding read
  read-Pulls l cs fd e grants =
      by_branch (n == 0) (is_outside r off n) (not r.aligned_reads) _ _ _ _
        (λ zero. (
          0,
          refl,
          ground arith,
          omega (arith, h),
          omega (arith, align_down-le off r.align h, inside),
        ))
        (ground arith)
        (after_plain-Pulls l _
          (fill_range_succeeds pread content r.fsize answers l.fd off (off + n) inside off _))
        (λ positive.
          let (g, k) = grants (window_end r off n - window_start r off) in
          with_bounce-Pulls (ground (arith, positive)) l cs fd
            (ltb l.bounce_sz (window_end r off n - window_start r off))
            (window_end r off n - window_start r off)
            (alloc (window_end r off n - window_start r off)) (window r off n h inside) e g k)
    where
      by_branch :
          (b1 b2 b3 : Bool) (o1 o2 o3 o4 : Outcome)
          → (b1 ≡ true → Pulls off n r o1)
          → b2 ≡ false
          → Pulls off n r o3
          → (b1 ≡ false → Pulls off n r o4)
          → Pulls off n r (if b1 then o1 else if b2 then o2 else if b3 then o3 else o4)
      by_branch true b2 b3 o1 o2 o3 o4 p f q s = p refl
      by_branch false true b3 o1 o2 o3 o4 p f q s = absurd (ground arith)
      by_branch false false true o1 o2 o3 o4 p f q s = q
      by_branch false false false o1 o2 o3 o4 p f q s = s refl
