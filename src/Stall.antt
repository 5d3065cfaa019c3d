-- ===== src/Stall.antt =====
-- core/src/moe/stall_union.h, `StallUnionState`: the wall time during which at least one thread was
-- stalled. Times are natural numbers of nanoseconds that the caller passes in.
pub mod Measure
mod Examples
use meitte.Base.{ℕ, ◌+◌, ◌-◌, if◌then◌else◌, ◌==◌, ltb}

pub record StallUnionState : Type 0 where
  pub stalled : ℕ
  pub open_ns : ℕ
  pub total_ns : ℕ

pub data Event : Type 0 where
  enter exit : Event

unfoldable pub enter_at : ℕ → StallUnionState → StallUnionState
enter_at now s = record s {
  stalled = s.stalled + 1;
  open_ns = if s.stalled == 0 then now else s.open_ns;
}

unfoldable pub exit_at : ℕ → StallUnionState → StallUnionState
exit_at now s =
    if s.stalled == 0
    then s
    else if s.stalled - 1 == 0
    then record { stalled = 0; open_ns = 0; total_ns = s.total_ns + (now - s.open_ns) }
    else record s { stalled = s.stalled - 1 }

unfoldable pub total_at : ℕ → StallUnionState → ℕ
total_at now s = s.total_ns + (if ltb 0 s.stalled then now - s.open_ns else 0)

unfoldable pub reset : StallUnionState → StallUnionState
reset s = record { stalled = 0; open_ns = 0; total_ns = 0 }
