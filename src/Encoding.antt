-- ===== src/Encoding.antt =====
-- shared/encoding.ts.
pub mod Utf8
pub mod Lengths
pub mod Base64Url
pub mod Base64Laws
pub mod Base64RoundTrip
pub mod Links
pub mod LinkRoundTrip
pub mod Ascii
pub mod Header
pub mod Headers
pub mod HeaderRoundTrip
pub mod Packet
pub mod Packets
mod Tests
