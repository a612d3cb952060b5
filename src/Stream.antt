-- ===== src/Stream.antt =====
-- services/chunk-processor.ts and services/encryption-stream.ts.
pub mod Chunks
pub mod Sealed
pub mod Loops
pub mod Pieces
pub mod RoundTrip
pub mod Order
pub mod Fuel
pub mod Multiple
pub mod Recipients
mod Tests
