-- ===== src/Reader/Lanes.antt =====
-- The loop over the lanes gives back what it holds when it fails.
use mathlib.Core.Path.{subst}
use meitte.Base.{
  ℕ, zero, suc, ◌≡◌, refl, Bool, true, false, not, ◌&&◌, ◌||◌, [], ◌∷◌, ◌++◌, Option, none, some,
  arith, ◌∙◌, sym, if◌then◌else◌,
}
use meitte.Reader.Open.{
  Os, Platform, open_read, Files, handle, is_some, lane_fd, lane_buf, lane_bounce, give_up,
  open_lanes,
}
use meitte.Reader.Handles.{
  Own, Unused, same-Own, mem, just, mem-snoc, Holding, Restored, close-Restored,
}
use meitte.Reader.Leaks.{opened-Own, opened-bufs, alloc-Own}

-- What an opening leaves: the handles that it holds, or what there was before.
abbrev pub Opened : Os → Os × Files × Bool → Type 0
Opened o0 (o, f, true) = Holding o0 o f none
Opened o0 (o, f, false) = Restored o0 o

module _ (o0 : Os) (u : Unused o0.fds) (w : Unused o0.bufs) (p : Platform) where
  open_read-Own :
      (d : Bool) (o : Os) (mine : ℕ → Bool)
      → Own o0.fds o.fds mine
      → Own o0.fds (open_read p d o).0.fds (λ h. just h (handle (open_read p d o).1) || mine h)
        × ((open_read p d o).0.bufs ≡ o.bufs)
  open_read-Own d o mine v = (
    opened-Own o0 u w p o mine (p.open_at o.opens d) v,
    opened-bufs o0 u w p o (p.open_at o.opens d),
  )

  lane_fd-Own :
      (d : Bool) (pending : Option ℕ) (o : Os) (mine : ℕ → Bool)
      → Own o0.fds o.fds (λ h. just h pending || mine h)
      → let r = lane_fd p d pending o in
        Own o0.fds r.0.fds (λ h. just h r.1 || mine h) × (r.0.bufs ≡ o.bufs)
  lane_fd-Own d (some x) o mine v = (v, refl)
  lane_fd-Own d none o mine v = open_read-Own d o mine v

  lane_buf-Own :
      (a : Bool) (o : Os) (mine : ℕ → Bool)
      → Own o0.fds o.fds mine
      → let r = lane_buf p a o in
        Own o0.fds r.0.fds (λ h. just h r.1 || mine h) × (r.0.bufs ≡ o.bufs)
  lane_buf-Own true o mine v = open_read-Own false o mine v
  lane_buf-Own false o mine v = (v, refl)

  lane_bounce-Own :
      (a : Bool) (o : Os) (mine : ℕ → Bool)
      → Own o0.bufs o.bufs mine
      → let r = lane_bounce p a o in
        Own o0.bufs r.0.bufs (λ h. just h r.1 || mine h) × (r.0.fds ≡ o.fds)
  lane_bounce-Own true o mine v = alloc-Own o0 u w p o mine v
  lane_bounce-Own false o mine v = (v, refl)

  give_up-Opened : (f : Files) (o : Os) → Holding o0 o f none → Opened o0 (give_up f o)
  give_up-Opened f o v = close-Restored o0 u w f o v

  pub open_lanes-Opened :
      (n : ℕ) (pending : Option ℕ) (f : Files) (o : Os)
      → (n ≡ 0 → pending ≡ none)
      → Holding o0 o f pending
      → Opened o0 (open_lanes p n pending f o)
  unfolding open_lanes
  open_lanes-Opened zero pending f o e v = subst (Holding o0 o f) (e refl) v
  open_lanes-Opened (suc n) pending f o e v =
      let r1 = lane_fd p f.direct pending o in
      let r2 = lane_buf p f.aligned_reads r1.0 in
      let r3 = lane_bounce p f.aligned_reads r2.0 in
      let (a, sa) = lane_fd-Own f.direct pending o (λ h. mem h f.held || mem h f.held_buf) v.fds in
      let (b, sb) = lane_buf-Own f.aligned_reads r1.0 _ a in
      let (c, sc) =
        lane_bounce-Own f.aligned_reads r2.0 (λ h. mem h f.bounces)
          (subst (λ t. Own o0.bufs t (λ h. mem h f.bounces)) (sym (sb ∙ sa)) v.bufs) in
      let g : Files = record f { held = f.held ++ r1.1 ∷ []; held_buf = f.held_buf ++ r2.1 ∷ [] } in
      let k : Files = record g { bounces = f.bounces ++ r3.1 ∷ [] } in
      let hg : Holding o0 r2.0 g none = record {
        fds =
            same-Own o0.fds _ _ _
              (λ h. ground (arith, mem-snoc h f.held r1.1, mem-snoc h f.held_buf r2.1)) b;
        bufs = subst (λ t. Own o0.bufs t (λ h. mem h f.bounces)) (sym (sb ∙ sa)) v.bufs;
      } in
      let hk : Holding o0 r3.0 k none = record {
        fds =
            subst (λ t. Own o0.fds t (λ h. just h none || (mem h g.held || mem h g.held_buf)))
              (sym sc) hg.fds;
        bufs = same-Own o0.bufs _ _ _ (λ h. ground (arith, mem-snoc h f.bounces r3.1)) c;
      } in
      by_lane (not (is_some r1.1)) (f.aligned_reads && not (is_some r3.1)) _ _ _
        (give_up-Opened g r2.0 hg) (give_up-Opened k r3.0 hk)
        (open_lanes-Opened n none k r3.0 (λ z. refl) hk)
    where
      by_lane :
          (s t : Bool) (x y z : Os × Files × Bool)
          → Opened o0 x
          → Opened o0 y
          → Opened o0 z
          → Opened o0 (if s then x else if t then y else z)
      by_lane true t x y z a b c = a
      by_lane false true x y z a b c = b
      by_lane false false x y z a b c = c
