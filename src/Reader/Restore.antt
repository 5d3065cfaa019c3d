-- ===== src/Reader/Restore.antt =====
-- Opening and closing a file leaves the handles of the process as they were.
use meitte.Base.{ℕ, refl, Bool, true, false, Option, none, some, arith, max}
use meitte.Reader.Open.{Os, Platform, Files, close, after_verify, after_primary, open_file}
use meitte.Reader.Handles.{Unused, same-Own, Restored, close-Restored}
use meitte.Reader.Leaks.{open_primary-Only, verify_direct-Only, Only}
use meitte.Reader.Lanes.{Opened, open_lanes-Opened}

-- The process once the reader is closed again, where it was opened.
abbrev pub closed_after : Os × Files × Bool → Os
closed_after (o, f, true) = (close f o).0
closed_after (o, f, false) = o

module _ (o0 : Os) (u : Unused o0.fds) (w : Unused o0.bufs) (p : Platform) where
  Only-Restored : (o : Os) → Only o0 u w p (o, none) → Restored o0 o
  Only-Restored o (a, b) = record { same_fds = a.live; same_bufs = b.live }

  after_verify-Opened :
      (lanes : ℕ) (r : Os × Option (ℕ × Bool))
      → Only o0 u w p r
      → Opened o0 (after_verify p lanes r)
  after_verify-Opened lanes (o, none) v = Only-Restored o v
  after_verify-Opened lanes (o, some (h, d)) (a, b) =
      open_lanes-Opened o0 u w p (max lanes 1) (some h) _ o (λ z. absurd (omega (arith, z)))
        (record {
          fds = same-Own o0.fds _ _ _ (λ i. ground arith) a;
          bufs = same-Own o0.bufs _ _ _ (λ i. refl) b;
        })

  after_primary-Opened :
      (lanes align : ℕ) (r : Os × Option (ℕ × Bool))
      → Only o0 u w p r
      → Opened o0 (after_primary p lanes align r)
  after_primary-Opened lanes align (o, none) v = Only-Restored o v
  after_primary-Opened lanes align (o, some (h, d)) v =
      after_verify-Opened lanes _ (verify_direct-Only o0 u w p align h d o v)

  Opened-Restored : (r : Os × Files × Bool) → Opened o0 r → Restored o0 (closed_after r)
  Opened-Restored (o, f, true) v = close-Restored o0 u w f o v
  Opened-Restored (o, f, false) v = v

  -- An opening of a file that fails, and one that succeeds once the reader is closed again, leave
  -- the process with exactly the descriptors and buffers that it held before, whichever opens and
  -- allocations the platform refuses and whatever the verification of the direct reads finds, where
  -- no handle still to be granted is held.
  pub open_file-Restored :
      (lanes : ℕ) (direct : Bool) (align : ℕ)
      → Restored o0 (closed_after (open_file p lanes direct align o0))
  unfolding open_file
  open_file-Restored lanes direct align =
      Opened-Restored _ (after_primary-Opened lanes _ _ (open_primary-Only o0 u w p direct))
