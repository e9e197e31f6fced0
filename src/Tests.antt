-- ===== src/Tests.antt =====
-- Concrete instances of what the repository does not hold, and the theorems at concrete inputs.
pub mod World
pub mod Reader
mod Examples
mod Rings
mod Texts
mod Draining
mod Fetching
mod Rates
mod Locks
mod Queues
mod Settings
mod Tools
mod Parsing
mod Buffers
mod Cutting
