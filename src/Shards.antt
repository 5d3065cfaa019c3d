-- ===== src/Shards.antt =====
-- core/src/moe/gguf_offsets.{h,cpp}: the names of the files of a split model, and the table of the
-- tensors' offsets. The parser of a file is a parameter, and so are the tensors it finds.
mod Names
pub mod Offsets
pub mod RoundTrip
pub mod Places
pub mod Whole
mod Examples
pub use Names.*
