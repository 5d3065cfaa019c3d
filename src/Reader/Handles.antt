-- ===== src/Reader/Handles.antt =====
-- What a reader holds is what it gives back.
use mathlib.Core.Path.{subst}
use meitte.Base.{
  ℕ, ◌≤◌, ◌<◌, ◌≡◌, refl, Bool, true, false, not, ◌&&◌, ◌||◌, List, [], ◌∷◌, ◌++◌, Option, none,
  some, arith, ◌∙◌, ap, sym, ◌==◌, update,
}
use meitte.Reader.Open.{
  Table, Os, grab, release, close_fd, aligned_free, Files, close_all, free_all, close,
}

-- `mine` tells the handles that were granted since `t0` and not given back.
pub record Own (t0 t : Table) (mine : ℕ → Bool) : Type 0 where
  pub live : (h : ℕ) → t.live h ≡ (mine h || t0.live h)
  pub ahead : t0.next ≤ t.next
  pub fresh : (h : ℕ) → mine h ≡ true → t0.next ≤ h
  pub below : (h : ℕ) → mine h ≡ true → h < t.next

-- No handle that is still to be granted is held.
abbrev pub Unused : Table → Type 0
Unused t = (h : ℕ) → t.next ≤ h → t.live h ≡ false

pub grab-Own :
    (t0 t : Table) (mine : ℕ → Bool) → Own t0 t mine → Own t0 (grab t) (update mine t.next true)
grab-Own t0 t mine v = record {
  live = λ h. ground (arith, v.live h);
  ahead = omega (arith, v.ahead);
  fresh = λ h e. ground (arith, v.fresh h, v.ahead);
  below = λ h e. ground (arith, v.below h);
}

pub release-Own :
    (t0 t : Table) (mine : ℕ → Bool) (h : ℕ)
    → Unused t0
    → t0.next ≤ h
    → Own t0 t mine
    → Own t0 (release (some h) t) (update mine h false)
release-Own t0 t mine h u lt v = record {
  live = λ i. ground (arith, v.live i, u i);
  ahead = v.ahead;
  fresh = λ i e. ground (arith, v.fresh i);
  below = λ i e. ground (arith, v.below i);
}

pub same-Own :
    (t0 t : Table) (mine own : ℕ → Bool) → ((h : ℕ) → own h ≡ mine h) → Own t0 t mine → Own t0 t own
same-Own t0 t mine own e v = record {
  live = λ h. v.live h ∙ ap (λ b. b || t0.live h) (sym (e h));
  ahead = v.ahead;
  fresh = λ h k. v.fresh h (sym (e h) ∙ k);
  below = λ h k. v.below h (sym (e h) ∙ k);
}

abbrev pub mem : ℕ → List (Option ℕ) → Bool
mem h [] = false
mem h (none ∷ hs) = mem h hs
mem h (some x ∷ hs) = (x == h) || mem h hs

abbrev pub just : ℕ → Option ℕ → Bool
just h none = false
just h (some x) = x == h

pub mem-snoc :
    (h : ℕ) (hs : List (Option ℕ)) (x : Option ℕ) → mem h (hs ++ x ∷ []) ≡ (mem h hs || just h x)
mem-snoc h [] none = refl
mem-snoc h [] (some y) = ground arith
mem-snoc h (none ∷ hs) x = mem-snoc h hs x
mem-snoc h (some y ∷ hs) x = ground (arith, mem-snoc h hs x)

-- What the reader and the handles `extra` beside it hold, since `o0`.
pub record Holding (o0 o : Os) (f : Files) (extra : Option ℕ) : Type 0 where
  pub fds : Own o0.fds o.fds (λ h. just h extra || (mem h f.held || mem h f.held_buf))
  pub bufs : Own o0.bufs o.bufs (λ h. mem h f.bounces)

-- Everything was given back.
pub record Restored (o0 o : Os) : Type 0 where
  pub same_fds : (h : ℕ) → o.fds.live h ≡ o0.fds.live h
  pub same_bufs : (h : ℕ) → o.bufs.live h ≡ o0.bufs.live h

module _ (o0 : Os) (u : Unused o0.fds) (w : Unused o0.bufs) where
  close_all-Own :
      (hs : List (Option ℕ)) (o : Os) (mine : ℕ → Bool)
      → ((h : ℕ) → mem h hs ≡ true → o0.fds.next ≤ h)
      → Own o0.fds o.fds mine
      → Own o0.fds (close_all hs o).fds (λ h. mine h && not (mem h hs))
        × ((close_all hs o).bufs ≡ o.bufs)
  unfolding close_all
  close_all-Own [] o mine lt v = (same-Own _ _ mine _ (λ h. ground arith) v, refl)
  close_all-Own (none ∷ hs) o mine lt v = close_all-Own hs (close_fd none o) mine lt v
  close_all-Own (some x ∷ hs) o mine lt v =
      let (a, b) =
        close_all-Own hs (close_fd (some x) o) (update mine x false) (λ h e. lt h (ground arith))
          (release-Own o0.fds o.fds mine x u (lt x (ground arith)) v) in
      (same-Own _ _ _ _ (λ h. ground arith) a, b)

  free_all-Own :
      (hs : List (Option ℕ)) (o : Os) (mine : ℕ → Bool)
      → ((h : ℕ) → mem h hs ≡ true → o0.bufs.next ≤ h)
      → Own o0.bufs o.bufs mine
      → Own o0.bufs (free_all hs o).bufs (λ h. mine h && not (mem h hs))
        × ((free_all hs o).fds ≡ o.fds)
  unfolding free_all
  free_all-Own [] o mine lt v = (same-Own _ _ mine _ (λ h. ground arith) v, refl)
  free_all-Own (none ∷ hs) o mine lt v = free_all-Own hs (aligned_free none o) mine lt v
  free_all-Own (some x ∷ hs) o mine lt v =
      let (a, b) =
        free_all-Own hs (aligned_free (some x) o) (update mine x false) (λ h e. lt h (ground arith))
          (release-Own o0.bufs o.bufs mine x w (lt x (ground arith)) v) in
      (same-Own _ _ _ _ (λ h. ground arith) a, b)

  pub close-Restored : (f : Files) (o : Os) → Holding o0 o f none → Restored o0 (close f o).0
  unfolding close
  close-Restored f o v =
      let (a, sa) = close_all-Own f.held o _ (λ h e. v.fds.fresh h (ground arith)) v.fds in
      let p = close_all f.held o in
      let (b, sb) = close_all-Own f.held_buf p _ (λ h e. v.fds.fresh h (ground arith)) a in
      let q = close_all f.held_buf p in
      let (c, sc) =
        free_all-Own f.bounces q (λ h. mem h f.bounces) (λ h e. v.bufs.fresh h e)
          (subst (λ t. Own o0.bufs t (λ h. mem h f.bounces)) (sym (sb ∙ sa)) v.bufs) in
      record {
        same_fds = λ h. ap (λ (t : Table). t.live h) sc ∙ b.live h ∙ ground arith;
        same_bufs = λ h. c.live h ∙ ground arith;
      }
