-- ===== src/Overlap.antt =====
-- core/src/moe/expert_stream_source.{h,cpp}: loads with overlap. The eval thread publishes a batch of
-- reads and goes on, lanes make the reads and mark slices ready, and the compute threads ask for a
-- slice before they use it.
mod Defs
pub mod Start
pub mod Lanes
pub mod Hook
pub mod Routing
pub mod Lookup
pub mod Jobs
pub mod Load
pub mod Async
pub mod Early
pub mod Drain
pub mod Serve
pub mod Earned
pub mod Progress
mod Examples
pub use Defs.*
