-- ===== src/Reader/Result.antt =====
-- `read` from the call to the return, on every branch.
use meitte.Base.{
  ℕ, ◌+◌, ◌<◌, ◌≡◌, refl, ◌≢◌, Bool, true, false, not, List, Option, none, some, arith, ◌∙◌, ap,
  if◌then◌else◌, ltb, ◌==◌,
}
use meitte.Reader.Defs.{Call, Pread, Content, Alloc, Lane, Reader, Filling, fill}
use meitte.Reader.Read.{
  Outcome, refuse, read_end, bulk_end, after_tail, read_tail, after_bulk, with_bounce, read,
  read_plain, read_aligned, is_outside,
}
use meitte.Reader.Fill.{Bounded, fill_range-fill}
use meitte.Reader.Deliver.{
  window, Delivered, after_plain-Delivered, with_bounce-Delivered, grow_bounce-fds,
}

-- The descriptors of a lane read the file.
pub record Reads (content : Content) (file : ℕ → ℕ) (l : Lane) : Type 0 where
  pub main : (y : ℕ) → content l.fd y ≡ file y
  pub buffered : (fd : ℕ) → l.fd_buf ≡ some fd → (y : ℕ) → content fd y ≡ file y

module _ (pread : Pread) (content : Content) (alloc : Alloc) (file : ℕ → ℕ)
    (bounded : Bounded pread) (off n : ℕ) (dst : ℕ → ℕ) (l : Lane) (r : Reader) (cs : List Call)
    (h : 0 < r.align) (v : Reads content file l) where
  -- A read that succeeds leaves in the caller's memory the requested bytes of the file, and every
  -- other place as it was, on the plain path and on the one through the bounce buffer, however many
  -- calls it takes, for a read alignment above 0 and a platform whose calls move at most what they
  -- are asked for and whose descriptors of the lane read the file.
  pub read-Delivered :
      (w : ℕ)
      → (read pread content alloc off n dst l r cs).pulled ≡ some w
      → Delivered file off n dst (read pread content alloc off n dst l r cs)
  unfolding read fill
  read-Delivered w =
      by_branch (n == 0) (is_outside r off n) (not r.aligned_reads)
        (record { dst = dst; lane = l; reader = r; calls = cs; pulled = some 0 })
        (read_plain pread content off n dst l r cs)
        (read_aligned pread content alloc off n dst l r cs) (λ zero x. ground arith)
        (after_plain-Delivered pread content alloc file bounded off n dst r h l _ w (λ ok x.
          fill_range-fill pread content file bounded l.fd v.main off (off + n) off _ (omega arith)
            (omega arith) ok x
          ∙ ground arith))
        (λ inside.
          with_bounce-Delivered pread content alloc file bounded off n dst r h l cs w _
            (window r off n h (ground arith)) (λ m. grow_bounce-fds alloc _ l m) v.main v.buffered)
    where
      by_branch :
          (b1 b2 b3 : Bool) (o1 o3 o4 : Outcome)
          → (b1 ≡ true → Delivered file off n dst o1)
          → (o3.pulled ≡ some w → Delivered file off n dst o3)
          → (b2 ≡ false → o4.pulled ≡ some w → Delivered file off n dst o4)
          → (if b1 then o1 else if b2 then refuse dst l r cs else if b3 then o3 else o4).pulled
            ≡ some w
          → Delivered file off n dst
              (if b1 then o1 else if b2 then refuse dst l r cs else if b3 then o3 else o4)
      by_branch true b2 b3 o1 o3 o4 p q s e = p refl
      by_branch false true b3 o1 o3 o4 p q s e = absurd (ground arith)
      by_branch false false true o1 o3 o4 p q s e = q e
      by_branch false false false o1 o3 o4 p q s e = s refl e

-- What a failed read on whole blocks leaves alone.
abbrev Untouched : (ℕ → ℕ) → Reader → Outcome → Type 0
Untouched dst r o = o.pulled ≡ none → ((x : ℕ) → o.dst x ≡ dst x) × (o.reader ≡ r)

module _ (pread : Pread) (content : Content) (alloc : Alloc) (off n : ℕ) (dst : ℕ → ℕ)
    (r : Reader) where
  after_tail-Untouched :
      (l : Lane) (q : Filling × Bool) → Untouched dst r (after_tail off n dst l r q)
  after_tail-Untouched l (f, true) e = absurd (ground arith)
  after_tail-Untouched l (f, false) e = (λ x. refl, refl)

  read_tail-Untouched :
      (l : Lane) (f : Filling) (o : Option ℕ)
      → Untouched dst r (read_tail pread content off n dst l r f o)
  read_tail-Untouched l f (some fd) = after_tail-Untouched l _
  read_tail-Untouched l f none = either (ltb (bulk_end r off n) (read_end r off n))
    where
      either :
          (t : Bool)
          → Untouched dst r (
              if t
              then refuse dst (record l { bounce = f.buf }) r f.calls
              else after_tail off n dst l r (f, true))
      either true e = (λ x. refl, refl)
      either false e = absurd (ground arith)

  after_bulk-Untouched :
      (l : Lane) (q : Filling × Bool) → Untouched dst r (after_bulk pread content off n dst l r q)
  after_bulk-Untouched l (f, true) e = read_tail-Untouched l f l.fd_buf e
  after_bulk-Untouched l (f, false) e = (λ x. refl, refl)

  with_bounce-Untouched :
      (l : Lane) (cs : List Call) (o : Option Lane)
      → Untouched dst r (with_bounce pread content off n dst l r cs o)
  with_bounce-Untouched l cs none e = (λ x. refl, refl)
  with_bounce-Untouched l cs (some m) e = after_bulk-Untouched m _ e

  -- A request for at least one byte that ends behind the end of the file is refused without a call,
  -- a change of the caller's memory, of the lane or of the count of bytes.
  pub read_outside :
      (l : Lane) (cs : List Call)
      → n ≢ 0
      → r.fsize < off + n
      → read pread content alloc off n dst l r cs ≡ refuse dst l r cs
  unfolding read
  read_outside l cs some_bytes out =
      outside (n == 0) (is_outside r off n)
        (record { dst = dst; lane = l; reader = r; calls = cs; pulled = some 0 })
        (if not r.aligned_reads
          then read_plain pread content off n dst l r cs
          else read_aligned pread content alloc off n dst l r cs)
        (ground arith) (ground arith)
    where
      outside :
          (b1 b2 : Bool) (o1 o3 : Outcome)
          → b1 ≡ false
          → b2 ≡ true
          → (if b1 then o1 else if b2 then refuse dst l r cs else o3) ≡ refuse dst l r cs
      outside true b2 o1 o3 p q = absurd (ground arith)
      outside false true o1 o3 p q = refl
      outside false false o1 o3 p q = absurd (ground arith)

  -- A read on whole blocks that fails, for whatever reason, leaves the caller's memory and the
  -- count of bytes as they were.
  pub read_failed :
      (l : Lane) (cs : List Call)
      → r.aligned_reads ≡ true
      → (read pread content alloc off n dst l r cs).pulled ≡ none
      → ((x : ℕ) → (read pread content alloc off n dst l r cs).dst x ≡ dst x)
        × ((read pread content alloc off n dst l r cs).reader ≡ r)
  unfolding read
  read_failed l cs aligned =
      by_branch (n == 0) (is_outside r off n) (not r.aligned_reads)
        (record { dst = dst; lane = l; reader = r; calls = cs; pulled = some 0 })
        (read_plain pread content off n dst l r cs)
        (read_aligned pread content alloc off n dst l r cs) (ap not aligned) refl
        (with_bounce-Untouched l cs _)
    where
      by_branch :
          (b1 b2 b3 : Bool) (o1 o3 o4 : Outcome)
          → b3 ≡ false
          → o1.pulled ≡ some 0
          → Untouched dst r o4
          → Untouched dst r
              (if b1 then o1 else if b2 then refuse dst l r cs else if b3 then o3 else o4)
      by_branch true b2 b3 o1 o3 o4 f p q e = absurd (ground arith)
      by_branch false true b3 o1 o3 o4 f p q e = (λ x. refl, refl)
      by_branch false false true o1 o3 o4 f p q e = absurd (ground arith)
      by_branch false false false o1 o3 o4 f p q e = q e
