-- ===== src/Content.antt =====
-- shared/content.ts: file names and media types, and the envelope that is encrypted: `pack` writes it
-- and `unpack` reads it.
pub mod Names
pub mod Pack
pub mod Unpack
pub mod Parts
pub mod Writing
pub mod Reading
pub mod Canonical
pub mod Packing
pub mod RoundTrip
pub mod AsciiOnly
mod Tests
