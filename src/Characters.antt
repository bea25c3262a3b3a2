-- ===== src/Characters.antt =====
-- cocotbext/spacewire/characters.py: the character codec and its cocotb-facing helpers.
pub mod Types
pub mod Bits
pub mod Errors
pub mod Encoder
pub mod Decoder
pub mod Streams
pub mod Primitives
pub mod Delivery
pub mod Requests
pub mod Framing
pub mod Conservation
pub mod Spoiling
pub mod Injection
pub mod RoundTrip
pub mod CharDriver
pub mod CharMonitor
pub mod Coverage
pub mod Counting
pub mod Publishing
pub mod Loopback
pub mod Strict
