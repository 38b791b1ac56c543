-- ===== src/Core.antt =====
-- core/: the vocabulary of events, the autonomy ladder, price quantization and the bus.
pub mod Mode
pub mod Bus
pub mod Store
pub mod Events
pub mod Pricing
