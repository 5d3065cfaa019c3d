-- ===== src/Reader/Deliver.antt =====
-- What a read delivers: the file's bytes, whichever way they come.
use mathlib.Core.Option.{some-injective}
use meitte.Base.{
  ℕ, ◌+◌, ◌-◌, ◌≤◌, ◌<◌, ◌≡◌, refl, inl, inr, Bool, true, false, List, Option, none, some, arith,
  Bool-cases, ◌∙◌, ap, sym, if◌then◌else◌, ltb, align_down-le, align_down_mono, align_up-ge,
  align_up-lt, align_down-gt,
}
use meitte.Reader.Defs.{Call, Pread, Content, Alloc, Lane, Reader, Filling, fill}
use meitte.Reader.Read.{
  Outcome, refuse, after_plain, window_start, window_end, read_end, bulk_end, after_tail, read_tail,
  after_bulk, read_window, grown, grow_bounce, with_bounce,
}
use meitte.Reader.Fill.{Bounded, fill-fill, fill-same, fill_range-fill}

-- The window of a request inside the file: it starts at or before the request and ends at or behind it.
pub record Window (r : Reader) (off n : ℕ) : Type 0 where
  pub starts : window_start r off ≤ off
  pub ends : off + n ≤ read_end r off n
  pub bulk : window_start r off ≤ bulk_end r off n
  pub tail : bulk_end r off n ≤ read_end r off n
  pub inside : read_end r off n ≤ window_end r off n
  pub short : read_end r off n < n + off + r.align
  pub close : off < window_start r off + r.align

pub window : (r : Reader) (off n : ℕ) → 0 < r.align → off + n ≤ r.fsize → Window r off n
window r off n h k =
    let up : off + n ≤ window_end r off n = align_up-ge (off + n) r.align h in
    let ends : off + n ≤ read_end r off n = ground arith in
    record {
      starts = align_down-le off r.align h;
      ends = ends;
      bulk = align_down_mono off (read_end r off n) r.align h (omega (arith, ends));
      tail = align_down-le (read_end r off n) r.align h;
      inside = ground arith;
      short = ground (arith, align_up-lt (off + n) r.align h);
      close = align_down-gt off r.align h;
    }

-- The caller's memory holds the requested bytes of the file, and is otherwise as before.
abbrev pub Delivered : (ℕ → ℕ) → ℕ → ℕ → (ℕ → ℕ) → Outcome → Type 0
Delivered file off n dst o = (x : ℕ) → o.dst x ≡ fill file off n dst 0 x

-- The copy out of the window.
fill-window :
    (file : ℕ → ℕ) (a0 e off n : ℕ) (buf b dst : ℕ → ℕ) (x : ℕ)
    → a0 ≤ off
    → off + n ≤ e
    → ((y : ℕ) → buf y ≡ fill file a0 (e - a0) b 0 y)
    → fill buf (off - a0) n dst 0 x ≡ fill file off n dst 0 x
unfolding fill
fill-window file a0 e off n buf b dst x h k w = elim (Bool-cases (ltb x n)) [
  | inr out ↦ ground arith
  | inl lt ↦
      let moved : file (a0 + (off - a0 + x)) ≡ file (off + x) = ap file (omega (arith, h)) in
      ground (arith, w (off - a0 + x), moved)
]

module _ (pread : Pread) (content : Content) (alloc : Alloc) (file : ℕ → ℕ)
    (bounded : Bounded pread) (off n : ℕ) (dst : ℕ → ℕ) (r : Reader) (h : 0 < r.align) where
  pub after_plain-Delivered :
      (l : Lane) (q : Filling × Bool) (w : ℕ)
      → (q.1 ≡ true → (x : ℕ) → q.0.buf x ≡ fill file off n dst 0 x)
      → (after_plain n l r q).pulled ≡ some w
      → Delivered file off n dst (after_plain n l r q)
  after_plain-Delivered l (f, true) w v e = v refl
  after_plain-Delivered l (f, false) w v e = absurd (ground arith)

  after_tail-Delivered :
      (l : Lane) (b : ℕ → ℕ) (q : Filling × Bool) (w : ℕ)
      → Window r off n
      → (q.1 ≡ true
          → (y : ℕ)
          → q.0.buf y
            ≡ fill file (window_start r off) (read_end r off n - window_start r off) b 0 y)
      → (after_tail off n dst l r q).pulled ≡ some w
      → Delivered file off n dst (after_tail off n dst l r q)
  after_tail-Delivered l b (f, true) w win v e x =
      fill-window file (window_start r off) (read_end r off n) off n f.buf b dst x win.starts
        win.ends (v refl)
  after_tail-Delivered l b (f, false) w win v e x = absurd (ground arith)

  joined :
      Window r off n
      → (buf b : ℕ → ℕ)
      → ((y : ℕ)
          → buf y ≡ fill file (window_start r off) (bulk_end r off n - window_start r off) b 0 y)
      → (y : ℕ)
      → fill file
          (bulk_end r off n)
          (read_end r off n - bulk_end r off n)
          buf
          (bulk_end r off n - window_start r off)
          y
        ≡ fill file (window_start r off) (read_end r off n - window_start r off) b 0 y
  joined win buf b v y =
      let a0 = window_start r off in
      let m = bulk_end r off n - a0 in
      let k = read_end r off n - bulk_end r off n in
      let start : bulk_end r off n ≡ a0 + m = omega (arith, win.bulk) in
      let whole : m + k ≡ read_end r off n - a0 = omega (arith, win.bulk, win.tail) in
      let shift : m ≡ 0 + m = omega arith in
      ap (λ o. fill file o k buf m y) start
      ∙ fill-same file file (a0 + m) k buf (fill file a0 m b 0) m y (λ z. refl) (v y)
      ∙ ap (λ at. fill file (a0 + m) k (fill file a0 m b 0) at y) shift
      ∙ fill-fill file a0 m k b 0 y
      ∙ ap (λ n. fill file a0 n b 0 y) whole

  -- The tail behind the whole blocks.
  read_tail-Delivered :
      (l : Lane) (b : ℕ → ℕ) (f : Filling) (o : Option ℕ) (w : ℕ)
      → Window r off n
      → ((fd : ℕ) → o ≡ some fd → (y : ℕ) → content fd y ≡ file y)
      → ((y : ℕ)
          → f.buf y ≡ fill file (window_start r off) (bulk_end r off n - window_start r off) b 0 y)
      → (read_tail pread content off n dst l r f o).pulled ≡ some w
      → Delivered file off n dst (read_tail pread content off n dst l r f o)
  read_tail-Delivered l b f none w win same v e =
      unless (ltb (bulk_end r off n) (read_end r off n))
        (λ whole.
          let eq : bulk_end r off n ≡ read_end r off n = ground (arith, win.tail) in
          after_tail-Delivered l b (f, true) w win
            (λ ok y.
              v y ∙ ap (λ e. fill file (window_start r off) (e - window_start r off) b 0 y) eq))
        e
    where
      unless :
          (t : Bool)
          → (t ≡ false
              → (after_tail off n dst l r (f, true)).pulled ≡ some w
              → Delivered file off n dst (after_tail off n dst l r (f, true)))
          → (if t
              then refuse dst (record l { bounce = f.buf }) r f.calls
              else after_tail off n dst l r (f, true)).pulled
            ≡ some w
          → Delivered file off n dst (
              if t
              then refuse dst (record l { bounce = f.buf }) r f.calls
              else after_tail off n dst l r (f, true))
      unless true g e = absurd (ground arith)
      unless false g e = g refl e
  read_tail-Delivered l b f (some fd) w win same v e =
      after_tail-Delivered l b _ w win
        (λ ok y.
          fill_range-fill pread content file bounded fd (same fd refl) (window_start r off)
            (read_end r off n) (bulk_end r off n) f win.bulk win.tail ok y
          ∙ joined win f.buf b v y)
        e

  read_window-Delivered :
      (l : Lane) (cs : List Call) (w : ℕ)
      → Window r off n
      → ((y : ℕ) → content l.fd y ≡ file y)
      → ((fd : ℕ) → l.fd_buf ≡ some fd → (y : ℕ) → content fd y ≡ file y)
      → (read_window pread content off n dst l r cs).pulled ≡ some w
      → Delivered file off n dst (read_window pread content off n dst l r cs)
  read_window-Delivered l cs w win same same_buf = by_bulk _ (λ ok y.
      fill_range-fill pread content file bounded l.fd same (window_start r off) (bulk_end r off n)
        (window_start r off) (record { buf = l.bounce; calls = cs }) (omega arith) win.bulk ok y
      ∙ ap
          (λ at.
            fill file (window_start r off) (bulk_end r off n - window_start r off) l.bounce at y)
          (omega arith))
    where
      by_bulk :
          (q : Filling × Bool)
          → (q.1 ≡ true
              → (y : ℕ)
              → q.0.buf y
                ≡ fill file
                    (window_start r off)
                    (bulk_end r off n - window_start r off)
                    l.bounce
                    0
                    y)
          → (after_bulk pread content off n dst l r q).pulled ≡ some w
          → Delivered file off n dst (after_bulk pread content off n dst l r q)
      by_bulk (f, true) v e = read_tail-Delivered l l.bounce f l.fd_buf w win same_buf (v refl) e
      by_bulk (f, false) v e = absurd (ground arith)

  pub with_bounce-Delivered :
      (l : Lane) (cs : List Call) (w : ℕ) (o : Option Lane)
      → Window r off n
      → ((m : Lane) → o ≡ some m → (m.fd ≡ l.fd) × (m.fd_buf ≡ l.fd_buf))
      → ((y : ℕ) → content l.fd y ≡ file y)
      → ((fd : ℕ) → l.fd_buf ≡ some fd → (y : ℕ) → content fd y ≡ file y)
      → (with_bounce pread content off n dst l r cs o).pulled ≡ some w
      → Delivered file off n dst (with_bounce pread content off n dst l r cs o)
  with_bounce-Delivered l cs w none win keep same same_buf e = absurd (ground arith)
  with_bounce-Delivered l cs w (some m) win keep same same_buf e =
      let (a, b) = keep m refl in
      read_window-Delivered m cs w win (λ y. ap (λ fd. content fd y) a ∙ same y)
        (λ fd k. same_buf fd (sym b ∙ k)) e

pub grow_bounce-fds :
    (alloc : Alloc) (len : ℕ) (l m : Lane)
    → grow_bounce alloc len l ≡ some m
    → (m.fd ≡ l.fd) × (m.fd_buf ≡ l.fd_buf)
grow_bounce-fds alloc len l m h = by_size (ltb l.bounce_sz len) (alloc len) h
  where
    by_size :
        (b : Bool) (o : Option (ℕ → ℕ))
        → (if b then grown len l o else some l) ≡ some m
        → (m.fd ≡ l.fd) × (m.fd_buf ≡ l.fd_buf)
    by_size true none e = absurd (ground arith)
    by_size true (some g) e =
        let q = some-injective _ m e in
        (sym (ap (λ (z : Lane). z.fd) q), sym (ap (λ (z : Lane). z.fd_buf) q))
    by_size false o e =
        let q = some-injective _ m e in
        (sym (ap (λ (z : Lane). z.fd) q), sym (ap (λ (z : Lane). z.fd_buf) q))
