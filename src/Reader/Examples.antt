-- ===== src/Reader/Examples.antt =====
-- A file of 21 bytes in blocks of 8, read by calls that move at most 3 bytes; the theorems at it.
use meitte.Base.{
  ℕ, ◌+◌, ◌≡◌, refl, true, false, [], some, none, arith, if◌then◌else◌, leb, min, ◌-◌, ltb, ◌==◌,
}
use meitte.Reader.Defs.{Pread, Content, Alloc, Lane, Reader, fill, fill_range, fill_loop}
use meitte.Reader.Read.{read}
use meitte.Reader.Fill.{Bounded, Answers}
use meitte.Reader.Deliver.{Delivered}
use meitte.Reader.Result.{Reads, read-Delivered, read_failed}
use meitte.Reader.Open.{
  Os, Platform, close, close_all, free_all, open_primary, verify_direct, open_lanes, open_file,
}
use meitte.Reader.Handles.{Unused, Restored}
use meitte.Reader.Restore.{closed_after, open_file-Restored}
use meitte.Reader.Success.{Pulls, read-Pulls}

abbrev slow : Pread
slow cs c = if leb 21 c.off then 0 else min (min 3 c.len) (21 - c.off)

abbrev bytes : ℕ → ℕ
bytes y = 100 + y

abbrev content : Content
content fd y = bytes y

abbrev alloc : Alloc
alloc len = some (λ x. 0)

abbrev lane : Lane
lane = record { fd = 3; fd_buf = some 4; bounce = λ x. 0; bounce_sz = 8 }

abbrev direct : Reader
direct = record { align = 8; fsize = 21; aligned_reads = true; read_bytes = 0 }

abbrev plain : Reader
plain = record { align = 8; fsize = 21; aligned_reads = false; read_bytes = 0 }

abbrev memory : ℕ → ℕ
memory x = 7

slow-Bounded : Bounded slow
slow-Bounded cs c = ground arith

slow-Answers : Answers 21 slow
slow-Answers cs c h inside = ground arith

lane-Reads : Reads content bytes lane
lane-Reads = record { main = λ y. refl; buffered = λ fd e y. refl }

program : Unit {0}
unfolding read fill fill_range fill_loop
program = tt

-- The window is the whole file: two blocks and the tail.
direct_pulled : (read slow content alloc 5 14 memory lane direct []).pulled ≡ some 21
unfolding program
direct_pulled = refl

plain_pulled : (read slow content alloc 5 14 memory lane plain []).pulled ≡ some 14
unfolding program
plain_pulled = refl

direct_bytes :
    let o = read slow content alloc 5 14 memory lane direct [] in
    (o.dst 0 ≡ 105) × (o.dst 13 ≡ 118) × (o.dst 14 ≡ 7)
unfolding program
direct_bytes = (refl, refl, refl)

read-Delivered_example :
    Delivered bytes 5 14 memory (read slow content alloc 5 14 memory lane direct [])
read-Delivered_example =
    read-Delivered slow content alloc bytes slow-Bounded 5 14 memory lane direct [] (omega arith)
      lane-Reads 21 direct_pulled

-- The first call fails.
abbrev dead : Pread
dead cs c = 0

dead_pulled : (read dead content alloc 5 14 memory lane direct []).pulled ≡ none
unfolding program
dead_pulled = refl

read_failed_example :
    ((x : ℕ) → (read dead content alloc 5 14 memory lane direct []).dst x ≡ memory x)
    × ((read dead content alloc 5 14 memory lane direct []).reader ≡ direct)
read_failed_example = read_failed dead content alloc 5 14 memory direct lane [] refl dead_pulled

read-Pulls_example : Pulls 5 14 direct (read slow content alloc 5 14 memory lane direct [])
read-Pulls_example =
    read-Pulls slow content alloc 5 14 memory direct slow-Answers (omega arith) (omega arith) lane
      [] 4 refl (λ len. ((λ x. 0), refl))

-- Three descriptors are in use; the second open of a lane's descriptor is refused.
abbrev process : Os
process = record {
  fds = record { next = 3; live = λ h. ltb h 3 };
  bufs = record { next = 0; live = λ h. false };
  opens = 0;
  allocs = 0;
}

-- The verification finds wrong bytes at the first file that it looks at.
abbrev platform : Platform
platform = record {
  open_at = λ k d. if k == 3 then none else some d;
  alloc_at = λ k. true;
  needs_alignment = true;
  file_size = 9000;
  same = λ k. false;
}

process_fds : Unused process.fds
process_fds h e = ground arith

process_bufs : Unused process.bufs
process_bufs h e = refl

-- The file falls back to buffered reads, and the second lane has no descriptor.
open_refused : (open_file platform 2 true 4096 process).2 ≡ false
unfolding open_file open_primary verify_direct open_lanes close close_all free_all
open_refused = refl

one_lane :
    let (o, f, ok) = open_file platform 1 true 4096 process in
    (ok ≡ true) × (f.aligned_reads ≡ false) × (o.fds.live 3 ≡ false) × (o.fds.live 5 ≡ true)
unfolding open_file open_primary verify_direct open_lanes close close_all free_all
one_lane = (refl, refl, refl, refl)

open_file-Restored_example :
    Restored process (closed_after (open_file platform 2 true 4096 process))
open_file-Restored_example =
    open_file-Restored process process_fds process_bufs platform 2 true 4096
