-- ===== src/Stall/Examples.antt =====
-- Two overlapping stalls and a stray exit.
use meitte.Base.{ℕ, ◌+◌, ◌≡◌, List, [], ◌∷◌}
use meitte.Stall.{StallUnionState, Event, enter, exit, total_at, reset}
use meitte.Stall.Measure.{run, stalled_time, total_at-run}

abbrev used : StallUnionState
used = record { stalled = 2; open_ns = 5; total_ns = 9 }

abbrev overlapping : List (ℕ × Event)
overlapping = (3, enter) ∷ (4, enter) ∷ (2, exit) ∷ (5, exit) ∷ (1, exit) ∷ (6, enter) ∷ []

total_at-run_example :
    let (end, t) = run 100 (reset used) overlapping in
    total_at (end + 7) t ≡ stalled_time 0 overlapping 7
total_at-run_example = total_at-run overlapping 7 100 used
