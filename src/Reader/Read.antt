-- ===== src/Reader/Read.antt =====
-- `read` on one lane. `none` is the answer -1. Times are left out.
use meitte.Base.{
  ℕ, ◌+◌, ◌-◌, Bool, true, false, not, ◌&&◌, ◌||◌, List, Option, none, some, if◌then◌else◌, ltb,
  ◌==◌, align_up, align_down,
}
use meitte.Reader.Defs.{Call, Pread, Content, Alloc, Lane, Reader, Filling, fill, fill_range}

-- What a read leaves: the caller's memory from `dst` on, the lane, the reader, the calls, and the
-- number of bytes pulled.
pub record Outcome : Type 0 where
  pub dst : ℕ → ℕ
  pub lane : Lane
  pub reader : Reader
  pub calls : List Call
  pub pulled : Option ℕ

abbrev pub refuse : (ℕ → ℕ) → Lane → Reader → List Call → Outcome
refuse dst l r cs = record { dst = dst; lane = l; reader = r; calls = cs; pulled = none }

abbrev pub count_bytes : ℕ → Reader → Reader
count_bytes n r = record r { read_bytes = r.read_bytes + n }

abbrev pub after_plain : ℕ → Lane → Reader → Filling × Bool → Outcome
after_plain n l r (f, false) = refuse f.buf l r f.calls
after_plain n l r (f, true) = record {
  dst = f.buf;
  lane = l;
  reader = count_bytes n r;
  calls = f.calls;
  pulled = some n;
}

-- The range that is read and the part of it on whole blocks.
abbrev pub window_start : Reader → ℕ → ℕ
window_start r off = align_down off r.align

abbrev pub window_end : Reader → ℕ → ℕ → ℕ
window_end r off n = align_up (off + n) r.align

abbrev pub read_end : Reader → ℕ → ℕ → ℕ
read_end r off n =
    if not (r.fsize == 0) && ltb r.fsize (window_end r off n) then r.fsize else window_end r off n

abbrev pub bulk_end : Reader → ℕ → ℕ → ℕ
bulk_end r off n = align_down (read_end r off n) r.align

-- The copy out of the bounce.
abbrev pub after_tail : ℕ → ℕ → (ℕ → ℕ) → Lane → Reader → Filling × Bool → Outcome
after_tail off n dst l r (f, false) = refuse dst (record l { bounce = f.buf }) r f.calls
after_tail off n dst l r (f, true) =
    let window = read_end r off n - window_start r off in
    record {
      dst = fill f.buf (off - window_start r off) n dst 0;
      lane = record l { bounce = f.buf };
      reader = count_bytes window r;
      calls = f.calls;
      pulled = some window;
    }

-- The tail shorter than a block, by the buffered descriptor.
abbrev pub read_tail :
    Pread → Content → ℕ → ℕ → (ℕ → ℕ) → Lane → Reader → Filling → Option ℕ → Outcome
read_tail pread content off n dst l r f none =
    if ltb (bulk_end r off n) (read_end r off n)
    then refuse dst (record l { bounce = f.buf }) r f.calls
    else after_tail off n dst l r (f, true)
read_tail pread content off n dst l r f (some fd) =
    after_tail off n dst l r
      (fill_range pread content fd (window_start r off) (bulk_end r off n) (read_end r off n) f)

abbrev pub after_bulk : Pread → Content → ℕ → ℕ → (ℕ → ℕ) → Lane → Reader → Filling × Bool → Outcome
after_bulk pread content off n dst l r (f, false) =
    refuse dst (record l { bounce = f.buf }) r f.calls
after_bulk pread content off n dst l r (f, true) = read_tail pread content off n dst l r f l.fd_buf

abbrev pub read_window : Pread → Content → ℕ → ℕ → (ℕ → ℕ) → Lane → Reader → List Call → Outcome
read_window pread content off n dst l r cs = after_bulk pread content off n dst l r (
    fill_range pread content l.fd (window_start r off) (window_start r off) (bulk_end r off n)
      (record { buf = l.bounce; calls = cs }))

-- The bounce of a lane that needs `len` bytes; its size is cleared before the allocation.
abbrev pub grown : ℕ → Lane → Option (ℕ → ℕ) → Option Lane
grown len l none = none
grown len l (some b) = some (record l { bounce = b; bounce_sz = len })

abbrev pub grow_bounce : Alloc → ℕ → Lane → Option Lane
grow_bounce alloc len l = if ltb l.bounce_sz len then grown len l (alloc len) else some l

abbrev pub with_bounce :
    Pread → Content → ℕ → ℕ → (ℕ → ℕ) → Lane → Reader → List Call → Option Lane → Outcome
with_bounce pread content off n dst l r cs none = refuse dst (record l { bounce_sz = 0 }) r cs
with_bounce pread content off n dst l r cs (some m) = read_window pread content off n dst m r cs

-- Plain reads go straight into the caller's memory.
abbrev pub read_plain : Pread → Content → ℕ → ℕ → (ℕ → ℕ) → Lane → Reader → List Call → Outcome
read_plain pread content off n dst l r cs =
    after_plain n l r
      (fill_range pread content l.fd off off (off + n) (record { buf = dst; calls = cs }))

abbrev pub read_aligned :
    Pread → Content → Alloc → ℕ → ℕ → (ℕ → ℕ) → Lane → Reader → List Call → Outcome
read_aligned pread content alloc off n dst l r cs =
    with_bounce pread content off n dst l r cs
      (grow_bounce alloc (window_end r off n - window_start r off) l)

-- A request that does not lie in the file.
abbrev pub is_outside : Reader → ℕ → ℕ → Bool
is_outside r off n = ltb r.fsize off || ltb (r.fsize - off) n

-- `read(lane, dst, off, nbytes)`.
unfoldable pub read :
    Pread → Content → Alloc → ℕ → ℕ → (ℕ → ℕ) → Lane → Reader → List Call → Outcome
unfolding fill_range fill
read pread content alloc off n dst l r cs =
    if n == 0
    then record { dst = dst; lane = l; reader = r; calls = cs; pulled = some 0 }
    else if is_outside r off n
    then refuse dst l r cs
    else if not r.aligned_reads
    then read_plain pread content off n dst l r cs
    else read_aligned pread content alloc off n dst l r cs
