-- ===== src/Proto/Sbe.antt =====
-- include/proto/sbe: the Bybit SBE messages.
pub mod Enums
pub mod Header
pub mod Market
pub mod OrderEntry
pub mod FastOrder
pub mod Codec
