-- ===== src/Rows.antt =====
-- core/src/moe/row_stream.{h,cpp}: row-gathered tables served from storage through a bounded window
-- of slabs. A slab is named by its table's index and its number in the table.
pub mod Slabs
pub mod Stream
pub mod Keys
pub mod Invariant
pub mod Evict
pub mod Mark
pub mod Gather
pub mod Materialize
pub mod Geometry
mod Examples
unfoldable pub use Slabs.*
