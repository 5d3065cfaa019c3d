-- ===== src/Reader.antt =====
-- core/src/io/file_reader.{h,cpp}: FileReader, a reader of one file with a descriptor and a bounce
-- buffer for each lane. The platform is a parameter: `pread` answers a call from the calls made before,
-- `content` tells what a descriptor reads at an offset, and `alloc` answers an allocation.
mod Defs
pub mod Read
pub mod Fill
pub mod Deliver
pub mod Result
pub mod Success
pub mod Open
pub mod Handles
pub mod Leaks
pub mod Lanes
pub mod Restore
mod Examples
pub use Defs.*
