-- ===== src/Client.antt =====
-- The client: src/client.
pub mod Request
pub mod Response
pub mod State
pub mod Files
pub mod Loop
pub mod Input
pub mod Threads
pub mod Servers
pub mod Service
pub mod Commands
pub mod Menus
