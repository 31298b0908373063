-- ===== src/Proto.antt =====
-- include/proto: the wire messages.
pub mod Nasdaq
pub mod Nse
pub mod Signal
pub mod Message
pub mod Sbe
pub mod Mcx
pub mod Frame
pub mod ItchDecode
pub mod MtbtDecode
pub mod Sizes
mod Tests
