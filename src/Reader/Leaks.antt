-- ===== src/Reader/Leaks.antt =====
-- Opening a reader leaks no handle: one that fails holds nothing, and what one that succeeds holds is
-- given back by `close`.
use mathlib.Core.Path.{subst}
use meitte.Base.{
  ℕ, ◌+◌, ◌≡◌, refl, Bool, true, false, ◌&&◌, ◌||◌, Option, none, some, arith, sym, if◌then◌else◌,
  leb,
}
use meitte.Reader.Open.{
  Os, Platform, grab, opened, open_read, alloc_aligned, close_fd, aligned_free, handle, buffered,
  retry, open_primary, checked, end_verify, compare_blocks, with_block, verify_direct,
}
use meitte.Reader.Handles.{Own, Unused, grab-Own, release-Own, same-Own, just}

module _ (o0 : Os) (u : Unused o0.fds) (w : Unused o0.bufs) (p : Platform) where
  pub opened-Own :
      (o : Os) (mine : ℕ → Bool) (a : Option Bool)
      → Own o0.fds o.fds mine
      → Own o0.fds (opened o a).0.fds (λ h. just h (handle (opened o a).1) || mine h)
  opened-Own o mine none v = v
  opened-Own o mine (some d) v =
      same-Own o0.fds _ _ _ (λ h. ground arith) (grab-Own o0.fds o.fds mine v)

  pub opened-bufs : (o : Os) (a : Option Bool) → (opened o a).0.bufs ≡ o.bufs
  opened-bufs o none = refl
  opened-bufs o (some d) = refl

  buffered-same :
      (r : Os × Option (ℕ × Bool)) → ((buffered r).0 ≡ r.0) × (handle (buffered r).1 ≡ handle r.1)
  buffered-same (o, none) = (refl, refl)
  buffered-same (o, some (h, d)) = (refl, refl)

  -- The handles of a state that holds one descriptor at most.
  abbrev pub Only : Os × Option (ℕ × Bool) → Type 0
  Only r = Own o0.fds r.0.fds (λ h. just h (handle r.1)) × Own o0.bufs r.0.bufs (λ h. false)

  abbrev Clear : Os → Type 0
  Clear o = Own o0.fds o.fds (λ h. false) × Own o0.bufs o.bufs (λ h. false)

  open_read-Only : (d : Bool) (o : Os) → Clear o → Only (open_read p d o)
  open_read-Only d o (a, b) = (
    same-Own o0.fds _ _ _ (λ h. ground arith) (opened-Own o (λ h. false) (p.open_at o.opens d) a),
    subst (λ t. Own o0.bufs t (λ h. false)) (sym (opened-bufs o (p.open_at o.opens d))) b,
  )

  buffered-Only : (r : Os × Option (ℕ × Bool)) → Only r → Only (buffered r)
  buffered-Only (o, none) v = v
  buffered-Only (o, some (h, d)) v = v

  retry-Only : (d : Bool) (r : Os × Option (ℕ × Bool)) → Only r → Only (retry p d r)
  retry-Only d (o, some x) v = v
  retry-Only true (o, none) v = buffered-Only _ (open_read-Only false o v)
  retry-Only false (o, none) v = v

  start-Clear : Clear o0
  start-Clear = (
    record {
      live = λ h. refl;
      ahead = omega arith;
      fresh = λ h e. absurd (ground arith);
      below = λ h e. absurd (ground arith);
    },
    record {
      live = λ h. refl;
      ahead = omega arith;
      fresh = λ h e. absurd (ground arith);
      below = λ h e. absurd (ground arith);
    },
  )

  pub open_primary-Only : (d : Bool) → Only (open_primary p d o0)
  unfolding open_primary
  open_primary-Only d = retry-Only d _ (open_read-Only d o0 start-Clear)

  -- The verification, which holds a block and a second descriptor meanwhile.
  record Verifying (o : Os) (one : Option ℕ) (two : Option ℕ) (buf : Option ℕ) : Type 0 where
    fds : Own o0.fds o.fds (λ h. just h one || just h two)
    bufs : Own o0.bufs o.bufs (λ h. just h buf)
    apart : (h : ℕ) → just h two ≡ true → just h one ≡ false

  open_second :
      (d : Bool) (o : Os) (one buf : Option ℕ)
      → Verifying o one none buf
      → Verifying (open_read p d o).0 one (handle (open_read p d o).1) buf
  open_second d o one buf v = by_answer (p.open_at o.opens d)
    where
      by_answer : (a : Option Bool) → Verifying (opened o a).0 one (handle (opened o a).1) buf
      by_answer none = record { fds = v.fds; bufs = v.bufs; apart = v.apart }
      by_answer (some e) = record {
        fds = same-Own o0.fds _ _ _ (λ h. ground arith) (grab-Own o0.fds o.fds _ v.fds);
        bufs = v.bufs;
        apart = λ h k. ground (arith, v.fds.below h);
      }

  -- The descriptors change places.
  swap : (o : Os) (one two buf : Option ℕ) → Verifying o one two buf → Verifying o two one buf
  swap o one two buf v = record {
    fds = same-Own o0.fds _ _ _ (λ h. ground arith) v.fds;
    bufs = v.bufs;
    apart = λ h k. ground (arith, v.apart h);
  }

  close_second :
      (o : Os) (one two buf : Option ℕ)
      → Verifying o one two buf
      → Verifying (close_fd two o) one none buf
  close_second o one none buf v = v
  close_second o one (some x) buf v = record {
    fds =
        same-Own o0.fds _ _ _ (λ h. ground (arith, v.apart h))
          (release-Own o0.fds o.fds _ x u (v.fds.fresh x (ground arith)) v.fds);
    bufs = v.bufs;
    apart = λ h k. absurd (ground arith);
  }

  free_block :
      (o : Os) (one two buf : Option ℕ)
      → Verifying o one two buf
      → Verifying (aligned_free buf o) one two none
  free_block o one two none v = v
  free_block o one two (some x) v = record {
    fds = v.fds;
    bufs =
        same-Own o0.bufs _ _ _ (λ h. ground arith)
          (release-Own o0.bufs o.bufs _ x w (v.bufs.fresh x (ground arith)) v.bufs);
    apart = v.apart;
  }

  checked-Verifying :
      (h : ℕ) (d bad : Bool) (o : Os) (two buf : Option ℕ)
      → Verifying o (some h) two buf
      → Verifying (checked p h d bad o).0 (handle (checked p h d bad o).1) two buf
  checked-Verifying h d false o two buf v = v
  checked-Verifying h d true o two buf v =
      let a = close_second o two (some h) buf (swap o (some h) two buf v) in
      let c = close_fd (some h) o in
      let b = swap _ two _ buf (open_second false c two buf a) in
      let (e, f) = buffered-same (open_read p false c) in rw (e, f) b

  end_verify-Only :
      (dbuf vfd : Option ℕ) (r : Os × Option (ℕ × Bool))
      → Verifying r.0 (handle r.1) vfd dbuf
      → Only (end_verify dbuf vfd r)
  end_verify-Only dbuf vfd (o, r) v =
      let a =
        close_second (aligned_free dbuf o) (handle r) vfd none
          (free_block o (handle r) vfd dbuf v) in
      (same-Own o0.fds _ _ _ (λ h. ground arith) a.fds, same-Own o0.bufs _ _ _ (λ h. refl) a.bufs)

  compare_blocks-Only :
      (h : ℕ) (d : Bool) (dbuf : Option ℕ) (r : Os × Option (ℕ × Bool))
      → Verifying r.0 (some h) (handle r.1) dbuf
      → Only (compare_blocks p h d dbuf r)
  compare_blocks-Only h d dbuf (o, v) k =
      end_verify-Only dbuf (handle v) _ (checked-Verifying h d _ o (handle v) dbuf k)

  with_block-Only :
      (h : ℕ) (d : Bool) (r : Os × Option ℕ)
      → Verifying r.0 (some h) none r.1
      → Only (with_block p h d r)
  with_block-Only h d (o, dbuf) k =
      compare_blocks-Only h d dbuf (open_read p false o) (open_second false o (some h) dbuf k)

  pub alloc-Own :
      (o : Os) (mine : ℕ → Bool)
      → Own o0.bufs o.bufs mine
      → let r = alloc_aligned p o in
        Own o0.bufs r.0.bufs (λ h. just h r.1 || mine h) × (r.0.fds ≡ o.fds)
  alloc-Own o mine v = by_answer (p.alloc_at o.allocs)
    where
      by_answer :
          (b : Bool)
          → let r : Os × Option ℕ =
              if b
              then (record o { allocs = o.allocs + 1; bufs = grab o.bufs }, some o.bufs.next)
              else (record o { allocs = o.allocs + 1 }, none) in
            Own o0.bufs r.0.bufs (λ h. just h r.1 || mine h) × (r.0.fds ≡ o.fds)
      by_answer true =
          (same-Own o0.bufs _ _ _ (λ h. ground arith) (grab-Own o0.bufs o.bufs mine v), refl)
      by_answer false = (v, refl)

  pub verify_direct-Only :
      (align h : ℕ) (d : Bool) (o : Os) → Only (o, some (h, d)) → Only (verify_direct p align h d o)
  unfolding verify_direct
  verify_direct-Only align h d o (a, b) = either (d && p.needs_alignment && leb align p.file_size)
    where
      either :
          (t : Bool) → Only (if t then with_block p h d (alloc_aligned p o) else (o, some (h, d)))
      either false = (a, b)
      either true =
          let (c, e) = alloc-Own o (λ h. false) b in
          with_block-Only h d (alloc_aligned p o) (record {
            fds =
                subst (λ t. Own o0.fds t (λ i. just i (some h) || just i none)) (sym e)
                  (same-Own o0.fds _ _ _ (λ i. ground arith) a);
            bufs = same-Own o0.bufs _ _ _ (λ i. ground arith) c;
            apart = λ i k. absurd (ground arith);
          })
