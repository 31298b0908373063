-- ===== src/Proto/Mcx.antt =====
-- include/proto/mcx: the MCX ETI messages.
pub mod Enums
pub mod Header
pub mod Order
pub mod Confirm
pub mod Codec
