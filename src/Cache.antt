-- ===== src/Cache.antt =====
-- core/src/moe/expert_stream_source.{h,cpp}: the expert cache. State, page ranges, and the operations
-- on one entry. An entry is one expert of one layer; its id is `il * n_expert + e`.
--
-- The arrays over entries are functions of the id. The operating system is an argument: `vm` answers
-- each `vm_commit` from the calls made so far, which the state records newest first.
mod Defs
pub mod Entry
pub mod Speculation
pub mod Load
pub mod Budget
pub mod Invariant
pub mod Evict
pub mod Touch
pub mod Quiesce
pub mod Staged
pub mod Loaded
pub mod LoadLayer
pub mod Progress
pub mod Resize
pub mod Pages
pub mod Residency
pub mod Sample
mod Examples
unfoldable pub use Defs.*
