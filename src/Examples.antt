-- ===== src/Examples.antt =====
-- Concrete inputs for the theorems, and tests of the definitions on values that can be followed in
-- the source.
pub mod Samples
pub mod Dead
pub mod Caches
pub mod Requests
pub mod Queues
pub mod Commands
pub mod Settings
pub mod Heartbeats
pub mod Registrations
pub mod Tasks
pub mod Rates
pub mod Averages
pub mod Installs
pub mod Databases
pub mod Collections
pub mod Payloads
pub mod Listings
pub mod Agents
pub mod Services
