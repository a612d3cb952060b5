-- ===== src/MultiRecipient.antt =====
-- services/ecies/multi-recipient.ts.
pub mod Header
pub mod Parse
pub mod Layout
pub mod Reading
pub mod RoundTrip
pub mod Bounds
pub mod Accepts
pub mod Sizes
pub mod Keys
pub mod Encrypt
pub mod ForAll
pub mod Decrypted
pub mod Delivered
pub mod Overloads
pub mod Messages
mod Tests
mod DeliveryTests
