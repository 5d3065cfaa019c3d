-- ===== src/Stall/Measure.antt =====
-- The union of the stalls: the total is the length of the times at which somebody is stalled.
use meitte.Base.{ℕ, ◌+◌, ◌-◌, ◌≤◌, ◌≡◌, ap, List, [], ◌∷◌, if◌then◌else◌, ltb, arith, refl}
use meitte.Stall.{StallUnionState, Event, enter, exit, enter_at, exit_at, total_at, reset}

abbrev pub event_at : Event → ℕ → StallUnionState → StallUnionState
event_at enter now s = enter_at now s
event_at exit now s = exit_at now s

-- Events in the order in which the mutex admits them, each after some time has passed.
pub run : ℕ → StallUnionState → List (ℕ × Event) → ℕ × StallUnionState
run now s [] = (now, s)
run now s ((gap, ev) ∷ es) = run (now + gap) (event_at ev (now + gap) s) es

-- How many threads are stalled after an event. An exit with nobody stalled is ignored.
abbrev pub depth_after : Event → ℕ → ℕ
depth_after enter n = n + 1
depth_after exit n = n - 1

-- What the source means by the union: of each gap, and of the time up to the reading, the part in
-- which somebody is stalled.
pub stalled_time : ℕ → List (ℕ × Event) → ℕ → ℕ
stalled_time n [] last = if ltb 0 n then last else 0
stalled_time n ((gap, ev) ∷ es) last =
    (if ltb 0 n then gap else 0) + stalled_time (depth_after ev n) es last

total_at-later :
    (now gap : ℕ) (s : StallUnionState)
    → s.open_ns ≤ now
    → total_at (now + gap) s ≡ total_at now s + (if ltb 0 s.stalled then gap else 0)
unfolding total_at
total_at-later now gap s h = ground arith

event_at-total :
    (ev : Event) (now : ℕ) (s : StallUnionState)
    → s.open_ns ≤ now
    → (total_at now (event_at ev now s) ≡ total_at now s)
      × ((event_at ev now s).stalled ≡ depth_after ev s.stalled)
      × ((event_at ev now s).open_ns ≤ now)
unfolding total_at enter_at exit_at
event_at-total enter now s h = (ground arith, refl, ground arith)
event_at-total exit now s h = (ground arith, ground arith, ground arith)

run-stalled_time :
    (es : List (ℕ × Event)) (last now : ℕ) (s : StallUnionState)
    → s.open_ns ≤ now
    → let (end, t) = run now s es in
      total_at (end + last) t ≡ total_at now s + stalled_time s.stalled es last
unfolding run stalled_time
run-stalled_time [] last now s h = total_at-later now last s h
run-stalled_time ((gap, ev) ∷ es) last now s h =
    let (total, depth, opened) = event_at-total ev (now + gap) s (omega arith) in
    let rest = run-stalled_time es last (now + gap) (event_at ev (now + gap) s) opened in
    omega (arith, rest, total, total_at-later now gap s h, ap (λ n. stalled_time n es last) depth)

-- After a reset, whatever enters and exits come and whenever the total is read, with an interval
-- open or not, it is the time during which at least one thread was stalled; an exit with nobody
-- stalled counts for nothing.
pub total_at-run :
    (es : List (ℕ × Event)) (last now : ℕ) (s : StallUnionState)
    → let (end, t) = run now (reset s) es in total_at (end + last) t ≡ stalled_time 0 es last
unfolding reset total_at
total_at-run es last now s =
    let whole = run-stalled_time es last now (reset s) (omega arith) in omega (arith, whole)
