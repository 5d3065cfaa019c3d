-- ===== src/Prefetch.antt =====
-- core/src/moe/expert_stream_source.{h,cpp}: speculative reads. The eval thread issues them for the
-- experts that a later layer is guessed or known to use, idle lanes make them, and the eval thread
-- takes the entries whose slices have all been read into the cache, or cancels the rest.
mod Defs
pub mod Issue
pub mod Lanes
pub mod Settle
pub mod Steps
pub mod Count
pub mod Sound
pub mod Work
pub mod Land
pub mod Cached
pub mod Demand
pub mod Quiesced
pub mod Slices
pub mod Untouched
pub mod Staging
pub mod Reads
pub mod Issued
pub mod Reached
pub mod Adoption
pub mod Wait
pub mod Ordered
pub mod Kept
pub mod Whole
pub mod Join
pub mod Serial
mod Examples
pub use Defs.*
