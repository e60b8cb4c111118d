-- ===== src/Frame.antt =====
-- internal/frame: the frames of RFC 9113 section 6, their wire format, and the reader's checks.
pub mod Types
pub mod Wire
pub mod Header
pub mod Padding
pub mod Payload
pub mod Parse
pub mod WellFormed
pub mod RoundTrip
pub mod ParseSafety
pub mod Reader
