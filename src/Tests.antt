-- ===== src/Tests.antt =====
-- Concrete runs, and the theorems at concrete inputs.
mod Samples
mod Exchanges
mod Storage
mod Parts
mod Network
mod Commands
mod System
mod Pointers
