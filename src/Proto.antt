-- ===== src/Proto.antt =====
-- The wire protocol: include/rail/proto and src/proto.
pub mod Kind
pub mod Bytes
pub mod Writer
pub mod Reader
pub mod Inverse
pub mod Message
pub mod Stable
pub mod Codec
pub mod RoundTrip
pub mod Prefix
pub mod Typed
pub mod Frame
