-- ===== src/Reader/Open.antt =====
-- `open`, `close` and `reopen`: which descriptors and buffers are held. The platform's answers are
-- parameters: whether an open is granted and bypasses the page cache, whether an allocation is
-- granted, what the file's size is and whether the verification finds the same bytes.
use meitte.Base.{
  ℕ, zero, suc, ◌+◌, Bool, true, false, not, ◌&&◌, List, [], ◌∷◌, ◌++◌, Option, none, some,
  if◌then◌else◌, leb, update, max, ◌==◌,
}

-- Handles are numbered as they are granted.
pub record Table : Type 0 where
  pub next : ℕ
  pub live : ℕ → Bool

pub record Os : Type 0 where
  pub fds : Table
  pub bufs : Table
  pub opens : ℕ
  pub allocs : ℕ

-- `open_at k d`: the answer to the k-th open, asked for direct I/O or not; what is granted tells
-- whether it is direct. `same k` says that the verification's two reads agree.
pub record Platform : Type 0 where
  pub open_at : ℕ → Bool → Option Bool
  pub alloc_at : ℕ → Bool
  pub needs_alignment : Bool
  pub file_size : ℕ
  pub same : ℕ → Bool

abbrev pub grab : Table → Table
grab t = record { next = t.next + 1; live = update t.live t.next true }

abbrev pub release : Option ℕ → Table → Table
release none t = t
release (some h) t = record t { live = update t.live h false }

abbrev pub opened : Os → Option Bool → Os × Option (ℕ × Bool)
opened o none = (record o { opens = o.opens + 1 }, none)
opened o (some d) = (record o { opens = o.opens + 1; fds = grab o.fds }, some (o.fds.next, d))

-- `pio::open_read`.
abbrev pub open_read : Platform → Bool → Os → Os × Option (ℕ × Bool)
open_read p direct o = opened o (p.open_at o.opens direct)

-- `pio::alloc_aligned`.
abbrev pub alloc_aligned : Platform → Os → Os × Option ℕ
alloc_aligned p o =
    if p.alloc_at o.allocs
    then (record o { allocs = o.allocs + 1; bufs = grab o.bufs }, some o.bufs.next)
    else (record o { allocs = o.allocs + 1 }, none)

abbrev pub close_fd : Option ℕ → Os → Os
close_fd h o = record o { fds = release h o.fds }

abbrev pub aligned_free : Option ℕ → Os → Os
aligned_free h o = record o { bufs = release h o.bufs }

-- What the reader holds, by lane; `held` is empty when it is closed.
pub record Files : Type 0 where
  pub held : List (Option ℕ)
  pub held_buf : List (Option ℕ)
  pub bounces : List (Option ℕ)
  pub direct : Bool
  pub aligned_reads : Bool

unfoldable pub close_all : List (Option ℕ) → Os → Os
close_all [] o = o
close_all (h ∷ hs) o = close_all hs (close_fd h o)

unfoldable pub free_all : List (Option ℕ) → Os → Os
free_all [] o = o
free_all (h ∷ hs) o = free_all hs (aligned_free h o)

-- `close`.
unfoldable pub close : Files → Os → Os × Files
unfolding close_all free_all
close f o = (
  free_all f.bounces (close_all f.held_buf (close_all f.held o)),
  record f { held = []; held_buf = []; bounces = [] },
)

abbrev pub handle : Option (ℕ × Bool) → Option ℕ
handle none = none
handle (some (h, d)) = some h

abbrev pub is_some : Option ℕ → Bool
is_some none = false
is_some (some h) = true

-- What counts as direct after a fallback to a buffered descriptor.
abbrev pub buffered : Os × Option (ℕ × Bool) → Os × Option (ℕ × Bool)
buffered (o, none) = (o, none)
buffered (o, some (h, d)) = (o, some (h, false))

abbrev pub retry : Platform → Bool → Os × Option (ℕ × Bool) → Os × Option (ℕ × Bool)
retry p direct (o, some x) = (o, some x)
retry p true (o, none) = buffered (open_read p false o)
retry p false (o, none) = (o, none)

-- The primary descriptor.
unfoldable pub open_primary : Platform → Bool → Os → Os × Option (ℕ × Bool)
open_primary p direct o = retry p direct (open_read p direct o)

-- A descriptor whose direct reads are wrong is replaced by a buffered one.
abbrev pub checked : Platform → ℕ → Bool → Bool → Os → Os × Option (ℕ × Bool)
checked p h d true o = buffered (open_read p false (close_fd (some h) o))
checked p h d false o = (o, some (h, d))

abbrev pub end_verify : Option ℕ → Option ℕ → Os × Option (ℕ × Bool) → Os × Option (ℕ × Bool)
end_verify dbuf vfd (o, r) = (close_fd vfd (aligned_free dbuf o), r)

abbrev pub compare_blocks :
    Platform → ℕ → Bool → Option ℕ → Os × Option (ℕ × Bool) → Os × Option (ℕ × Bool)
compare_blocks p h d dbuf (o, v) =
    end_verify dbuf (handle v)
      (checked p h d (is_some dbuf && is_some (handle v) && not (p.same o.opens)) o)

abbrev pub with_block : Platform → ℕ → Bool → Os × Option ℕ → Os × Option (ℕ × Bool)
with_block p h d (o, dbuf) = compare_blocks p h d dbuf (open_read p false o)

-- The verification of a direct descriptor, where reads have to be aligned and the file has a block.
unfoldable pub verify_direct : Platform → ℕ → ℕ → Bool → Os → Os × Option (ℕ × Bool)
verify_direct p align h d o =
    if d && p.needs_alignment && leb align p.file_size
    then with_block p h d (alloc_aligned p o)
    else (o, some (h, d))

-- Lane 0 inherits the primary descriptor.
abbrev pub lane_fd : Platform → Bool → Option ℕ → Os → Os × Option ℕ
lane_fd p direct (some h) o = (o, some h)
lane_fd p direct none o = ((open_read p direct o).0, handle (open_read p direct o).1)

abbrev pub lane_buf : Platform → Bool → Os → Os × Option ℕ
lane_buf p true o = ((open_read p false o).0, handle (open_read p false o).1)
lane_buf p false o = (o, none)

abbrev pub lane_bounce : Platform → Bool → Os → Os × Option ℕ
lane_bounce p true o = alloc_aligned p o
lane_bounce p false o = (o, none)

abbrev pub give_up : Files → Os → Os × Files × Bool
give_up f o = ((close f o).0, (close f o).1, false)

-- The loop over the lanes: `n` of them, `pending` the primary descriptor before lane 0.
unfoldable pub open_lanes : Platform → ℕ → Option ℕ → Files → Os → Os × Files × Bool
unfolding close
open_lanes p zero pending f o = (o, f, true)
open_lanes p (suc n) pending f o =
    let (o1, h) = lane_fd p f.direct pending o in
    let (o2, b) = lane_buf p f.aligned_reads o1 in
    let g = record f { held = f.held ++ h ∷ []; held_buf = f.held_buf ++ b ∷ [] } in
    let (o3, c) = lane_bounce p f.aligned_reads o2 in
    let k = record g { bounces = g.bounces ++ c ∷ [] } in
    let rest = open_lanes p n none k o3 in
    if not (is_some h)
    then give_up g o2
    else if f.aligned_reads && not (is_some c)
    then give_up k o3
    else rest

abbrev pub empty_files : Bool → Bool → Files
empty_files direct aligned = record {
  held = [];
  held_buf = [];
  bounces = [];
  direct = direct;
  aligned_reads = aligned;
}

abbrev pub after_verify : Platform → ℕ → Os × Option (ℕ × Bool) → Os × Files × Bool
after_verify p lanes (o, none) = (o, empty_files false false, false)
after_verify p lanes (o, some (h, d)) =
    open_lanes p (max lanes 1) (some h) (empty_files d (d && p.needs_alignment)) o

abbrev pub after_primary : Platform → ℕ → ℕ → Os × Option (ℕ × Bool) → Os × Files × Bool
after_primary p lanes align (o, none) = (o, empty_files false false, false)
after_primary p lanes align (o, some (h, d)) = after_verify p lanes (verify_direct p align h d o)

-- `open(path, lanes, direct, align)` of a reader that is closed.
unfoldable pub open_file : Platform → ℕ → Bool → ℕ → Os → Os × Files × Bool
unfolding open_primary verify_direct open_lanes
open_file p lanes direct align o =
    after_primary p lanes (if align == 0 then 4096 else align) (open_primary p direct o)
