-- ===== src/Nanopb.antt =====
-- nanopb, the C code under efedyaev_code/Pods/nanopb that writes and reads protocol buffers.
pub mod Output
pub mod Input
pub mod Field
pub mod Encode
pub mod Decode
pub mod Varint
pub mod RoundTrips
pub mod Substreams
pub mod Bounds
pub mod Fixed
pub mod Iterator
pub mod Numbers
pub mod Memory
pub mod Stored
pub mod Default
pub mod Message
pub mod Steady
pub mod Parsing
