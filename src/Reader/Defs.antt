-- ===== src/Reader/Defs.antt =====
-- The state of a reader and of one of its lanes, and a read in progress.
use meitte.Base.{
  ℕ, zero, suc, ◌+◌, ◌-◌, Bool, true, false, ◌&&◌, List, ◌∷◌, Option, if◌then◌else◌, leb, ltb, ◌==◌,
}

pub record Call : Type 0 where
  pub fd : ℕ
  pub len : ℕ
  pub off : ℕ

-- How many bytes `pread_at` moves; 0 stands for an end of file and for an error, which the code treats
-- alike (`got <= 0`).
abbrev pub Pread : Type 0
Pread = List Call → Call → ℕ

-- The byte that a descriptor reads at an offset.
abbrev pub Content : Type 0
Content = ℕ → ℕ → ℕ

-- An aligned allocation of so many bytes: the buffer with what it happens to hold, or none.
abbrev pub Alloc : Type 0
Alloc = ℕ → Option (ℕ → ℕ)

-- `fds_[lane]`, `fds_buf_[lane]` (`none` where it failed to open), and the bounce.
pub record Lane : Type 0 where
  pub fd : ℕ
  pub fd_buf : Option ℕ
  pub bounce : ℕ → ℕ
  pub bounce_sz : ℕ

pub record Reader : Type 0 where
  pub align : ℕ
  pub fsize : ℕ
  pub aligned_reads : Bool
  pub read_bytes : ℕ

-- A buffer being filled, and the calls made, newest first.
pub record Filling : Type 0 where
  pub buf : ℕ → ℕ
  pub calls : List Call

-- `n` bytes from offset `off` of the file, written at index `at` of the buffer.
unfoldable pub fill : (ℕ → ℕ) → ℕ → ℕ → (ℕ → ℕ) → ℕ → ℕ → ℕ
fill file off n buf at x = if leb at x && ltb x (at + n) then file (off + (x - at)) else buf x

-- `for (a = …; a < end;) { got = pread_at(fd, b + (a - a0), end - a, a); … a += got; }` on fuel: every
-- round moves at least one byte.
unfoldable pub fill_loop : Pread → Content → ℕ → ℕ → ℕ → ℕ → ℕ → Filling → Filling × Bool
unfolding fill
fill_loop pread content zero fd a0 a end f = (f, leb end a)
fill_loop pread content (suc fuel) fd a0 a end f =
    let call : Call = record { fd = fd; len = end - a; off = a } in
    let got = pread f.calls call in
    let g : Filling = record {
      buf = fill (content fd) a got f.buf (a - a0);
      calls = call ∷ f.calls;
    } in
    let rest = fill_loop pread content fuel fd a0 (a + got) end g in
    if leb end a
    then (f, true)
    else if got == 0
    then (record f { calls = call ∷ f.calls }, false)
    else rest

-- The bytes from `a` to `end`, at their distance from `a0`.
unfoldable pub fill_range : Pread → Content → ℕ → ℕ → ℕ → ℕ → Filling → Filling × Bool
unfolding fill_loop
fill_range pread content fd a0 a end f = fill_loop pread content (end - a) fd a0 a end f
