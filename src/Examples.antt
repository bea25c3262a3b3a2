-- ===== src/Examples.antt =====
-- The theorems at concrete inputs, and tests.
mod Codec
mod Machine
mod Credits
mod Links
mod Wires
mod Streams
mod Lines
mod Sessions
mod Endpoints
