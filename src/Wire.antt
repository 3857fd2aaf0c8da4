-- ===== src/Wire.antt =====
-- wire.rs: the big-endian primitives of both companion channels. `Vec<u8>` and `&[u8]` are lists
-- of numbers below 256; a writer returns the longer list, a reader returns its answer beside the
-- reader that it leaves.
pub mod Bytes
pub mod Utf8
pub mod Reader
pub mod Writer
pub mod Encoding
pub mod Bounds
pub mod RoundTrip
pub mod Fields
pub mod Exact
pub mod Whole
mod Tests
