-- ===== src/Base64.antt =====
-- src/base64.c: a codec object, its constructor and its two methods.
pub mod Object
pub mod Encoder
pub mod Sextets
pub mod Readout
pub mod Decoder
pub mod RoundTrip
pub mod Canonical
mod Tests
